-- ===== src/Praid/Balancer/Select.antt =====
-- praid_balancer_selectStorage picks the first of the least loaded disks.
use grage.Prelude.{
  ℕ, ◌<◌, ◌≤◌, Option, none, some, List, [], ◌∷◌, ◌++◌, ◌≡◌, refl, ◌⊎◌, inl, inr, arith, ap,
  Bool-cases, ltb, ◌==◌,
}
use grage.Praid.State.{Storage, State}
use grage.Praid.Balancer.{storage_ranking, select, select_storage}

module _ (heap : ℕ → Storage) where
  -- Every pointer of the list has a ranking of at least `m`, or of more than `m`.
  abbrev pub AtLeast : ℕ → List ℕ → Type 0
  AtLeast m [] = Unit {0}
  AtLeast m (p ∷ ps) = (m ≤ storage_ranking (heap p)) × AtLeast m ps

  abbrev pub Above : ℕ → List ℕ → Type 0
  Above m [] = Unit {0}
  Above m (p ∷ ps) = (m < storage_ranking (heap p)) × Above m ps

  -- `p` is the first pointer of the list with the least ranking.
  abbrev pub IsFirstLeast : ℕ → List ℕ → Type 0
  IsFirstLeast p ps =
      (front : List ℕ) × (back : List ℕ) × (ps ≡ front ++ (p ∷ back))
      × Above (storage_ranking (heap p)) front
      × AtLeast (storage_ranking (heap p)) back

  AtLeast-zero : (ps : List ℕ) → AtLeast 0 ps
  AtLeast-zero [] = tt
  AtLeast-zero (p ∷ ps) = (omega arith, AtLeast-zero ps)

  -- With `sel` selected so far, it stays selected if no later ranking is less.
  abbrev Picks : ℕ → List ℕ → Option ℕ → Type 0
  Picks sel ps r =
      ((r ≡ some sel) × AtLeast (storage_ranking (heap sel)) ps)
      ⊎ ((p : ℕ) × (r ≡ some p)
          × (storage_ranking (heap p) < storage_ranking (heap sel))
          × IsFirstLeast p ps)

  better :
      (sel p : ℕ) (ps : List ℕ) (r : Option ℕ)
      → storage_ranking (heap p) < storage_ranking (heap sel)
      → Picks p ps r
      → Picks sel (p ∷ ps) r
  better sel p ps r h (inl (e, a)) = inr (p, e, h, ([], ps, refl, tt, a))
  better sel p ps r h (inr (q, e, k, (front, back, f, a, b))) =
      inr (q, e, omega arith, (p ∷ front, back, ap (◌∷◌ p) f, (k, a), b))

  no_better :
      (sel p : ℕ) (ps : List ℕ) (r : Option ℕ)
      → storage_ranking (heap sel) ≤ storage_ranking (heap p)
      → Picks sel ps r
      → Picks sel (p ∷ ps) r
  no_better sel p ps r h (inl (e, a)) = inl (e, (h, a))
  no_better sel p ps r h (inr (q, e, k, (front, back, f, a, b))) =
      inr (q, e, k, (p ∷ front, back, ap (◌∷◌ p) f, (omega arith, a), b))

  AtLeast-of_zero : (m : ℕ) (ps : List ℕ) → m ≡ 0 → AtLeast m ps
  AtLeast-of_zero m ps e = rw e (AtLeast-zero ps)

  select-Picks :
      (ps : List ℕ) (sel : ℕ)
      → Picks sel ps (select heap ps (storage_ranking (heap sel)) (some sel))
  unfolding select
  select-Picks [] sel = inl (refl, tt)
  select-Picks (p ∷ ps) sel =
      elim (Bool-cases (ltb (storage_ranking (heap p)) (storage_ranking (heap sel)))) [
        | inl l ↦ elim (Bool-cases (storage_ranking (heap p) == 0)) [
          | inl z ↦
              better sel p ps _ (ground arith)
                (inl (ground arith, AtLeast-of_zero _ ps (ground arith)))
          | inr n ↦
              rw (l, select) (rw (n, select) (better sel p ps _ (ground arith) (select-Picks ps p)))
        ]
        | inr g ↦ rw (g, select) (no_better sel p ps _ (ground arith) (select-Picks ps sel))
      ]

  select-IsFirstLeast :
      (p : ℕ) (ps : List ℕ)
      → (q : ℕ) × (select heap (p ∷ ps) 0 none ≡ some q) × IsFirstLeast q (p ∷ ps)
  unfolding select
  select-IsFirstLeast p ps = elim (Bool-cases (storage_ranking (heap p) == 0)) [
    | inl z ↦ (p, ground arith, ([], ps, refl, tt, AtLeast-of_zero _ ps (ground arith)))
    | inr n ↦ elim (select-Picks ps p) [
      | inl (e, a) ↦ (p, rw (n, select) e, ([], ps, refl, tt, a))
      | inr (q, e, k, (front, back, f, a, b)) ↦
          (q, rw (n, select) e, (p ∷ front, back, ap (◌∷◌ p) f, (k, a), b))
    ]
  ]

-- If there is any disk, praid_balancer_selectStorage returns the first of those with the least
-- ranking; with no disk it returns NULL.
pub select_storage_lem :
    (s : State)
    → ((s.ppd_storages.elements ≡ []) × (select_storage s ≡ none))
      ⊎ ((p : ℕ) × (select_storage s ≡ some p) × IsFirstLeast s.heap p s.ppd_storages.elements)
unfolding select_storage
select_storage_lem s = go s.ppd_storages.elements
  where
    go :
        (ps : List ℕ)
        → ((ps ≡ []) × (select s.heap ps 0 none ≡ none))
          ⊎ ((p : ℕ) × (select s.heap ps 0 none ≡ some p) × IsFirstLeast s.heap p ps)
    go [] = inl (refl, refl)
    go (p ∷ ps) = inr (select-IsFirstLeast s.heap p ps)
