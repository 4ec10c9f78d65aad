-- ===== src/Pfs/Cache/Flush.antt =====
-- What pfs_fat32_fatCacheFlush leaves on the device.
use grage.Prelude.{
  ℕ, true, false, Option, none, some, List, [], ◌∷◌, ◌≡◌, ◌≢◌, refl, ap, subst, sym, ◌∙◌, ◌⊎◌, inl,
  inr, ◌==◌, ==_iff, if◌then◌else◌, arith, Bool-cases,
}
use grage.Pfs.Cache.{CacheSectorRecord, Store, call_put_sector, flush_each, fat_cache_flush}
use grage.Pfs.Cache.Lookup.{lookup, IsAbsent, AreDistinct, AreClean}
use grage.Pfs.Cache.Coherent.{seen, view, IsCoherent, ShowsSame, seen_rest, seen_first}

-- No record is marked as modified.
abbrev pub AreUnmarked : List CacheSectorRecord → Type 0
AreUnmarked [] = Unit {0}
AreUnmarked (r ∷ rs) = (r.modificado ≡ false) × AreUnmarked rs

-- The device after one record was visited.
visited : CacheSectorRecord → (ℕ → List ℕ) → ℕ → List ℕ
visited r device = if r.modificado then call_put_sector device r.sector else device

visited_elsewhere :
    (r : CacheSectorRecord) (device : ℕ → List ℕ) (n : ℕ)
    → r.sector.sector_number ≢ n
    → visited r device n ≡ device n
unfolding visited
visited_elsewhere r device n i = elim (Bool-cases r.modificado) [
  | inl e ↦ rw e (ground (arith, i))
  | inr e ↦ rw e refl
]

visited_self :
    (r : CacheSectorRecord) (device : ℕ → List ℕ)
    → (r.modificado ≡ true) ⊎ (device r.sector.sector_number ≡ r.sector.sector_content)
    → visited r device r.sector.sector_number ≡ r.sector.sector_content
unfolding visited
visited_self r device (inl e) =
    rw (e, (==_iff r.sector.sector_number r.sector.sector_number).1 refl) refl
visited_self r device (inr e) = elim (Bool-cases r.modificado) [
  | inl m ↦ rw (m, (==_iff r.sector.sector_number r.sector.sector_number).1 refl) refl
  | inr m ↦ rw m e
]

AreClean-visited :
    (r : CacheSectorRecord) (device : ℕ → List ℕ) (rs : List CacheSectorRecord)
    → IsAbsent r.sector.sector_number rs
    → AreClean device rs
    → AreClean (visited r device) rs
AreClean-visited r device [] a c = tt
AreClean-visited r device (x ∷ rs) a (inl m, c) = (inl m, AreClean-visited r device rs a.1 c)
AreClean-visited r device (x ∷ rs) a (inr m, c) = (
  inr (visited_elsewhere r device x.sector.sector_number (λ p. a.0 (sym p)) ∙ m),
  AreClean-visited r device rs a.1 c,
)

-- A sector without a record stays as it is, and a flush writes what is seen.
flush_each_absent :
    (rs : List CacheSectorRecord) (device : ℕ → List ℕ) (n : ℕ)
    → IsAbsent n rs
    → (flush_each rs device).0 n ≡ device n
unfolding flush_each visited
flush_each_absent [] device n a = refl
flush_each_absent (r ∷ rs) device n a =
    flush_each_absent rs (visited r device) n a.1 ∙ visited_elsewhere r device n a.0

flush_each_lem :
    (rs : List CacheSectorRecord) (device : ℕ → List ℕ) (n : ℕ)
    → AreDistinct rs
    → AreClean device rs
    → (flush_each rs device).0 n ≡ seen device rs n
unfolding flush_each visited
flush_each_lem [] device n d c = refl
flush_each_lem (r ∷ rs) device n d c = elim (Bool-cases (r.sector.sector_number == n)) [
  | inl e ↦
      let p : r.sector.sector_number ≡ n = (==_iff _ _).0 e in
      flush_each_absent rs (visited r device) n (subst (λ k. IsAbsent k rs) p d.0)
      ∙ subst (λ k. visited r device k ≡ r.sector.sector_content) p (visited_self r device c.0)
      ∙ sym (seen_first device r rs n e)
  | inr e ↦
      flush_each_lem rs (visited r device) n d.1 (AreClean-visited r device rs d.0 c.1)
      ∙ ap (λ x. elim (lookup n rs) [ none ↦ x | some y ↦ y ])
          (visited_elsewhere r device n (λ p. ground (arith, p, e)))
      ∙ sym (seen_rest device r rs n e)
]

-- The records after a flush.
lookup-flush_each :
    (rs : List CacheSectorRecord) (device : ℕ → List ℕ) (n : ℕ)
    → lookup n (flush_each rs device).1 ≡ lookup n rs
unfolding flush_each visited
lookup-flush_each [] device n = refl
lookup-flush_each (r ∷ rs) device n =
    ap (λ x. if r.sector.sector_number == n then some r.sector.sector_content else x)
      (lookup-flush_each rs (visited r device) n)

flush_each_unmarked :
    (rs : List CacheSectorRecord) (device : ℕ → List ℕ) → AreUnmarked (flush_each rs device).1
unfolding flush_each visited
flush_each_unmarked [] device = tt
flush_each_unmarked (r ∷ rs) device = (refl, flush_each_unmarked rs (visited r device))

abbrev or_else : List ℕ → Option (List ℕ) → List ℕ
or_else x none = x
or_else x (some y) = y

flush_shows : (s : Store) (n : ℕ) → IsCoherent s → view (fat_cache_flush s) n ≡ view s n
unfolding fat_cache_flush
flush_shows s n h =
    ap (λ o. elim o [ none ↦ (flush_each s.cache.elements s.device).0 n | some y ↦ y ])
      (lookup-flush_each s.cache.elements s.device n)
    ∙ ap (λ x. elim (lookup n s.cache.elements) [ none ↦ x | some y ↦ y ])
        (flush_each_lem s.cache.elements s.device n h.0 h.1)
    ∙ twice (lookup n s.cache.elements)
  where
    twice : (o : Option (List ℕ)) → or_else (or_else (s.device n) o) o ≡ or_else (s.device n) o
    twice none = refl
    twice (some y) = refl

-- After a flush of a coherent cache the device has every sector as the file system sees it, what
-- is seen is unchanged, and no record is marked as modified.
pub fat_cache_flush_lem :
    (s : Store)
    → IsCoherent s
    → ((n : ℕ) → (fat_cache_flush s).device n ≡ view s n)
      × ShowsSame s (fat_cache_flush s)
      × AreUnmarked (fat_cache_flush s).cache.elements
unfolding fat_cache_flush
fat_cache_flush_lem s h = (
  (λ n. flush_each_lem s.cache.elements s.device n h.0 h.1),
  (λ n. flush_shows s n h),
  flush_each_unmarked s.cache.elements s.device,
)
