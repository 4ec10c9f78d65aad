-- ===== src/Pfs/Cache/Writes.antt =====
-- The cached writes of a sector.
use grage.Prelude.{
  ℕ, ◌%◌, true, none, some, List, ◌≡◌, ◌≢◌, refl, ap, subst, sym, ◌∙◌, ◌⊎◌, inl, inr, ◌==◌, ==_iff,
  if◌then◌else◌, arith, Bool-cases,
}
use mathlib.Core.Option.{none-ne-some}
use grage.Commons.LinkedList.{word32}
use grage.Nipc.Message.{DiskSector}
use grage.Pfs.Volume.{Volume}
use grage.Pfs.Cache.{
  CacheSectorRecord, Store, call_put_sector, overwrite_node, put_in_cache, is_fat_sector_reserved,
  call_cached_put_sector,
}
use grage.Pfs.Cache.Lookup.{lookup, IsAbsent, lookup_absent}
use grage.Pfs.Cache.Coherent.{
  AreClean-call_put_sector, seen, seen-call_put_sector, view, seen_absent,
}
use grage.Pfs.Cache.Overwrite.{Overwrites, overwrite_lem}
use grage.Pfs.Cache.Requests.{IsCache, written, Puts}

module _ (v : Volume) (max_count : ℕ) where
  overwrite_view :
      (s s' : Store) (d : DiskSector) (m : ℕ)
      → s'.device ≡ s.device
      → ((n : ℕ) → d.sector_number ≢ n → lookup n s'.cache.elements ≡ lookup n s.cache.elements)
      → lookup d.sector_number s'.cache.elements ≡ some d.sector_content
      → view s' m ≡ written (view s) d.sector_number d.sector_content m
  overwrite_view s s' d m b other self = elim (Bool-cases (m == d.sector_number)) [
    | inl e ↦
        let p : m ≡ d.sector_number = (==_iff _ _).0 e in
        ap (λ o. elim o [ none ↦ s'.device m | some y ↦ y ])
          (ap (λ k. lookup k s'.cache.elements) p ∙ self)
        ∙ ap (λ t. if t then d.sector_content else view s m) (sym e)
    | inr e ↦
        ap (λ o. elim o [ none ↦ s'.device m | some y ↦ y ]) (other m (λ p. ground (arith, e, p)))
        ∙ ap (λ (f : ℕ → List ℕ). elim (lookup m s.cache.elements) [ none ↦ f m | some y ↦ y ]) b
        ∙ ap (λ t. if t then d.sector_content else view s m) (sym e)
  ]

  device_view :
      (s : Store) (d : DiskSector) (m : ℕ)
      → IsAbsent d.sector_number s.cache.elements
      → seen (call_put_sector s.device d) s.cache.elements m
        ≡ written (view s) d.sector_number d.sector_content m
  device_view s d m a = elim (Bool-cases (m == d.sector_number)) [
    | inl e ↦
        let p : d.sector_number ≡ m = sym ((==_iff _ _).0 e) in
        seen_absent (call_put_sector s.device d) s.cache.elements m
          (subst (λ k. IsAbsent k s.cache.elements) p a)
        ∙ ap (λ t. if t then d.sector_content else s.device m) e
        ∙ ap (λ t. if t then d.sector_content else view s m) (sym e)
    | inr e ↦
        seen-call_put_sector s.device d s.cache.elements m (λ p. ground (arith, e, p))
        ∙ ap (λ t. if t then d.sector_content else view s m) (sym e)
  ]

  -- A cached write of a sector that is cached, or that is not of the table, is what is seen of that
  -- sector from then on, changes no other, and keeps the cache coherent.
  pub call_cached_put_sector_lem :
      (s : Store) (d : DiskSector) (c : List ℕ)
      → IsCache v s
      → (is_fat_sector_reserved v d.sector_number ≡ true
          → lookup d.sector_number s.cache.elements ≡ some c)
      → Puts v s d (call_cached_put_sector v max_count s d)
  unfolding call_cached_put_sector put_in_cache
  call_cached_put_sector_lem s d c (h, k) f =
      elim (Bool-cases (is_fat_sector_reserved v d.sector_number)) [
        | inr e ↦ (
          record s { device = call_put_sector s.device d },
          rw e refl,
          (
            (
              h.0,
              AreClean-call_put_sector s.device d s.cache.elements (k d.sector_number e) h.1,
              h.2,
            ),
            k,
          ),
          (λ m. device_view s d m (k d.sector_number e)),
        )
        | inl e ↦ found e (overwrite_lem s.device d s.cache.elements h.0 h.1)
      ]
    where
      found :
          is_fat_sector_reserved v d.sector_number ≡ true
          → (IsAbsent d.sector_number s.cache.elements × (overwrite_node d s.cache.elements ≡ none))
            ⊎ ((rs' : List CacheSectorRecord) × (overwrite_node d s.cache.elements ≡ some rs')
                × Overwrites s.device d s.cache.elements rs')
          → Puts v s d (call_cached_put_sector v max_count s d)
      found e (inl (a, o)) =
          absurd (none-ne-some c (sym (lookup_absent d.sector_number s.cache.elements a) ∙ f e))
      found e (inr (rs', o, (h', c', l, other, self, keep))) =
          let s' = record s { cache = record (s.cache) { elements = rs' } } in
          (
            s',
            rw (e, put_in_cache, o) refl,
            ((h', c', h.2 ∙ ap (λ x. x % word32) (sym l)), (λ n g. keep n (k n g))),
            (λ m. overwrite_view s s' d m refl other self),
          )
