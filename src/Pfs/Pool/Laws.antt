-- ===== src/Pfs/Pool/Laws.antt =====
-- Who gets a connection, and how many there are.
use grage.Prelude.{
  ℕ, ◌≤◌, ◌<◌, true, false, Option, none, some, List, [], ◌∷◌, ◌≡◌, ◌≢◌, refl, subst, ◌⊎◌, inl, inr,
  ◌==◌, ltb, ltb→lt, arith, Bool-cases, Option-cases,
}
use grage.Commons.LinkedList.{LinkedList}
use grage.Pfs.Pool.{
  State, Outcome, exits, crashes, returns, is_active_connection, set_active_connection,
  build_and_add_pooled_connection, add_built, first_inactive, get_from_list, get_pooled_connection,
}

-- Every connection of the list is active.
abbrev pub AreActive : State → List ℕ → Type 0
AreActive s [] = Unit {0}
AreActive s (p ∷ ps) = (is_active_connection s p ≡ true) × AreActive s ps

-- `p` is free: it is not active, or it was not allocated before.
abbrev pub IsFree : State → ℕ → Type 0
IsFree s p = (is_active_connection s p ≡ false) ⊎ (p ≡ s.next_pointer)

-- A call that hands out a connection hands out a free one, makes it active, and changes no other.
abbrev pub HandsOut : State → Outcome → Type 0
HandsOut s exits = Unit {0}
HandsOut s crashes = Unit {0}
HandsOut s (returns none s') = s' ≡ s
HandsOut s (returns (some p) s') =
    IsFree s p × (is_active_connection s' p ≡ true) × ((q : ℕ) → q ≢ p → s'.heap q ≡ s.heap q)

build-HandsOut : (socket : ℕ) (s : State) → HandsOut s (build_and_add_pooled_connection socket s)
unfolding build_and_add_pooled_connection
build-HandsOut socket s = elim (Bool-cases (socket == 0)) [
  | inl e ↦ rw e tt
  | inr e ↦ rw e (go s.pooled_connections)
]
  where
    go : (o : Option (LinkedList ℕ)) → HandsOut s (add_built socket s o)
    go none = tt
    go (some l) = (inr refl, ground arith, λ q k. ground arith)

-- Where the loop stops: at a connection that is not active, or at the end, with all active.
abbrev Stops : State → List ℕ → Option ℕ → Type 0
Stops s ps none = AreActive s ps
Stops s ps (some p) = is_active_connection s p ≡ false

first_inactive-Stops : (s : State) (ps : List ℕ) → Stops s ps (first_inactive s ps)
unfolding first_inactive
first_inactive-Stops s [] = tt
first_inactive-Stops s (p ∷ ps) = elim (Bool-cases (is_active_connection s p)) [
  | inl e ↦ rw e (with_head e (first_inactive s ps) (first_inactive-Stops s ps))
  | inr e ↦ rw e e
]
  where
    with_head : is_active_connection s p ≡ true → (o : Option ℕ) → Stops s ps o → Stops s (p ∷ ps) o
    with_head e none h = (e, h)
    with_head e (some q) h = h

some-Stops :
    (s : State) (ps : List ℕ) (p : ℕ)
    → first_inactive s ps ≡ some p
    → is_active_connection s p ≡ false
some-Stops s ps p f = subst (Stops s ps) f (first_inactive-Stops s ps)

none-Stops : (s : State) (ps : List ℕ) → first_inactive s ps ≡ none → AreActive s ps
none-Stops s ps f = subst (Stops s ps) f (first_inactive-Stops s ps)

list-HandsOut : (socket : ℕ) (s : State) (l : LinkedList ℕ) → HandsOut s (get_from_list socket s l)
unfolding get_from_list
list-HandsOut socket s l = elim (Bool-cases (l.size == 0)) [
  | inl e ↦ rw e (build-HandsOut socket s)
  | inr e ↦ elim (Option-cases (first_inactive s l.elements)) [
    | inl f ↦ elim (Bool-cases (ltb l.size s.pooled_connections_max_count)) [
      | inl g ↦ rw (e, f, g) (build-HandsOut socket s)
      | inr g ↦ rw (e, f, g) refl
    ]
    | inr (p, f) ↦ rw (e, f) (inl (some-Stops s l.elements p f), ground arith, λ q k. ground arith)
  ]
]

-- A call of pfs_pool_getPooledConnection that hands out a connection hands out one that was not
-- active or is new, makes it active, and changes no other; one that returns NULL changes nothing.
pub get_pooled_connection-HandsOut :
    (socket : ℕ) (s : State) → HandsOut s (get_pooled_connection socket s)
unfolding get_pooled_connection
get_pooled_connection-HandsOut socket s = go s.pooled_connections
  where
    go :
        (o : Option (LinkedList ℕ))
        → HandsOut s (elim o [
          | none ↦ build_and_add_pooled_connection socket s
          | some l ↦ get_from_list socket s l
        ])
    go none = build-HandsOut socket s
    go (some l) = list-HandsOut socket s l

-- What the loop saw decides a call on a pool that is not empty: a connection that is not active is
-- handed out; if all are active, a new one is built while there are fewer than the maximum, and
-- otherwise the call returns NULL.
pub get_from_list_lem :
    (socket : ℕ) (s : State) (l : LinkedList ℕ)
    → (l.size == 0) ≡ false
    → ((p : ℕ) × (is_active_connection s p ≡ false)
        × (get_from_list socket s l ≡ returns (some p) (set_active_connection s p)))
      ⊎ (AreActive s l.elements
          × (l.size < s.pooled_connections_max_count)
          × (get_from_list socket s l ≡ build_and_add_pooled_connection socket s))
      ⊎ (AreActive s l.elements
          × (s.pooled_connections_max_count ≤ l.size)
          × (get_from_list socket s l ≡ returns none s))
unfolding get_from_list
get_from_list_lem socket s l e = elim (Option-cases (first_inactive s l.elements)) [
  | inl f ↦ elim (Bool-cases (ltb l.size s.pooled_connections_max_count)) [
    | inl g ↦ inr (inl (none-Stops s l.elements f, ltb→lt _ _ g, rw (e, f, g) refl))
    | inr g ↦ inr (inr (none-Stops s l.elements f, ground (arith, g), rw (e, f, g) refl))
  ]
  | inr (p, f) ↦ inl (p, some-Stops s l.elements p f, rw (e, f) refl)
]
