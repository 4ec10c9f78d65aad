-- ===== src/Pfs/Cache/Overwrite.antt =====
-- The loop of pfs_endpoint_utils_putInCache: what a write to a cached sector does to the records.
use grage.Prelude.{
  ℕ, suc, true, false, none, some, List, [], ◌∷◌, ◌≡◌, ◌≢◌, refl, ap, sym, ◌∙◌, ◌⊎◌, inl, inr, ◌==◌,
  ==_iff, if◌then◌else◌, arith, length, Bool-cases,
}
use grage.Nipc.Message.{DiskSector}
use grage.Pfs.Cache.{CacheSectorRecord, overwrite_node}
use grage.Pfs.Cache.Lookup.{lookup, IsAbsent, AreDistinct, AreClean}

-- What a write to a record that is found does to the records.
abbrev pub Overwrites :
    (ℕ → List ℕ) → DiskSector → List CacheSectorRecord → List CacheSectorRecord → Type 0
Overwrites device d rs rs' =
    AreDistinct rs'
    × AreClean device rs'
    × (length rs' ≡ length rs)
    × ((n : ℕ) → d.sector_number ≢ n → lookup n rs' ≡ lookup n rs)
    × (lookup d.sector_number rs' ≡ some d.sector_content)
    × ((n : ℕ) → IsAbsent n rs → IsAbsent n rs')

pub overwrite_lem :
    (device : ℕ → List ℕ) (d : DiskSector) (rs : List CacheSectorRecord)
    → AreDistinct rs
    → AreClean device rs
    → (IsAbsent d.sector_number rs × (overwrite_node d rs ≡ none))
      ⊎ ((rs' : List CacheSectorRecord) × (overwrite_node d rs ≡ some rs')
          × Overwrites device d rs rs')
unfolding overwrite_node
overwrite_lem device d [] h c = inl (tt, refl)
overwrite_lem device d (r ∷ rs) h c =
    elim (Bool-cases (r.sector.sector_number == d.sector_number)) [
      | inl e ↦
          let p : r.sector.sector_number ≡ d.sector_number = (==_iff _ _).0 e in
          inr (
            record r {
              modificado = true;
              sector = record (r.sector) { sector_content = d.sector_content };
            }
                ∷ rs,
            rw e refl,
            (
              h,
              (inl refl, c.1),
              refl,
              (λ n i.
                  ap (λ b. if b then some d.sector_content else lookup n rs) (differs r n d p i)
                  ∙ sym (
                      ap (λ b. if b then some r.sector.sector_content else lookup n rs)
                        (differs r n d p i))),
              rw e refl,
              (λ n a. a),
            ),
          )
      | inr e ↦ later e (overwrite_lem device d rs h.1 c.1)
    ]
  where
    differs :
        (r : CacheSectorRecord) (n : ℕ) (d : DiskSector)
        → r.sector.sector_number ≡ d.sector_number
        → d.sector_number ≢ n
        → (r.sector.sector_number == n) ≡ false
    differs r n d p i = ground (arith, p, i)

    later :
        (r.sector.sector_number == d.sector_number) ≡ false
        → ((IsAbsent d.sector_number rs × (overwrite_node d rs ≡ none))
            ⊎ ((rs' : List CacheSectorRecord) × (overwrite_node d rs ≡ some rs')
                × Overwrites device d rs rs'))
        → (IsAbsent d.sector_number (r ∷ rs) × (overwrite_node d (r ∷ rs) ≡ none))
          ⊎ ((rs' : List CacheSectorRecord) × (overwrite_node d (r ∷ rs) ≡ some rs')
              × Overwrites device d (r ∷ rs) rs')
    later e (inl (a, o)) = inl (((λ k. ground (arith, e, k)), a), rw (e, o) refl)
    later e (inr (rs', o, (h', c', l, other, self, keep))) = inr (
      r ∷ rs',
      rw (e, o) refl,
      (
        (keep r.sector.sector_number h.0, h'),
        (c.0, c'),
        ap suc l,
        (λ n i.
            ap (λ x. if r.sector.sector_number == n then some r.sector.sector_content else x)
              (other n i)),
        rw e self,
        (λ n a. (a.0, keep n a.1)),
      ),
    )

pub overwrite_absent :
    (d : DiskSector) (rs : List CacheSectorRecord)
    → IsAbsent d.sector_number rs
    → overwrite_node d rs ≡ none
unfolding overwrite_node
overwrite_absent d [] a = refl
overwrite_absent d (r ∷ rs) a =
    let e : (r.sector.sector_number == d.sector_number) ≡ false = ground (arith, a.0) in
    rw (e, overwrite_absent d rs a.1) refl
