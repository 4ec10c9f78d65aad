-- ===== src/Pfs/Block/FileCache.antt =====
-- The requests for the sectors of a file, and the flush of its cache.
use grage.Prelude.{
  ℕ, zero, suc, ◌+◌, ◌-◌, ◌%◌, ◌<◌, false, Option, none, some, List, [], ◌∷◌, ◌++◌, map, ◌≡◌, ◌≢◌,
  refl, ap, sym, ◌∙◌, ◌⊎◌, inl, inr, ◌==◌, ==_iff, >>=-some, arith, length, length-map,
}
use grage.Commons.LinkedList.{word32, find, get_node_by_criteria}
use grage.Commons.LinkedList.Remove.{remove_node-head}
use grage.Nipc.Message.{DiskSector}
use grage.Pfs.Cache.{
  CacheSectorRecord, Store, touch, eq, call_get_sector, call_put_sector, registrar_acceso,
}
use grage.Pfs.Cache.Lookup.{
  lookup, IsAbsent, AreDistinct, AreDistinct-touch, AreClean-touch, IsAbsent-of_none, find-lookup,
}
use grage.Pfs.Cache.Coherent.{
  seen, view, IsCoherent, ShowsSame, put_sectors_lem, seen-touch, seen_absent, evict,
}
use grage.Pfs.Cache.Requests.{put_in_cache-absent}
use grage.Pfs.Block.{
  get_from_file_cache, get_missing_file_sector, call_cached_get_file_sector, file_flush_each,
  file_cache_flush, get_cached_each,
}

-- The contents of sectors in a row.
abbrev pub views : ℕ → ℕ → (ℕ → List ℕ) → List ℕ
views zero n f = []
views (suc k) n f = f n ++ views k (n + 1) f

pub views-same : (k n : ℕ) (f g : ℕ → List ℕ) → ((m : ℕ) → g m ≡ f m) → views k n g ≡ views k n f
views-same zero n f g h = refl
views-same (suc k) n f g h =
    ap (λ x. x ++ views k (n + 1) g) (h n) ∙ ap (λ x. f n ++ x) (views-same k (n + 1) f g h)

-- A flush writes every record and leaves none.
file_flush_each_lem :
    (rs : List CacheSectorRecord) (device : ℕ → List ℕ) (size n : ℕ)
    → AreDistinct rs
    → size ≡ length rs % word32
    → ((file_flush_each rs
            (record { device = device; cache = record { elements = rs; size = size } })).device
          n
        ≡ seen device rs n)
      × ((file_flush_each rs
            (record { device = device; cache = record { elements = rs; size = size } })).cache
          ≡ record { elements = []; size = 0 })
unfolding file_flush_each
file_flush_each_lem [] device size n d z = (refl, ap (λ k. record { elements = []; size = k }) z)
file_flush_each_lem (r ∷ rs) device size n d z =
    let e =
      remove_node-head eq r rs size
        ((==_iff r.sector.sector_number r.sector.sector_number).1 refl) in
    let (p, q) =
      file_flush_each_lem rs (call_put_sector device r.sector) ((size + word32 - 1) % word32) n d.1
        (omega (arith, z)) in
    (
      ap
            (λ l.
              (file_flush_each rs
                  (record { device = call_put_sector device r.sector; cache = l })).device
                n)
            e
          ∙ p
          ∙ evict device r rs n d.0,
      ap
            (λ l.
              (file_flush_each rs
                (record { device = call_put_sector device r.sector; cache = l })).cache)
            e
          ∙ q,
    )

-- After pfs_fat32_fileCacheFlush the device has every sector as it was seen, and the cache is empty.
pub file_cache_flush_lem :
    (s : Store)
    → IsCoherent s
    → ((n : ℕ) → (file_cache_flush s).device n ≡ view s n)
      × ((file_cache_flush s).cache ≡ record { elements = []; size = 0 })
unfolding file_cache_flush
file_cache_flush_lem s h = (
  (λ n. (file_flush_each_lem s.cache.elements s.device s.cache.size n h.0 h.2).0),
  (file_flush_each_lem s.cache.elements s.device s.cache.size 0 h.0 h.2).1,
)

accessed_file : Store → Store
accessed_file s = record s { cache = registrar_acceso s.cache }

accessed_file_lem :
    (s : Store) → IsCoherent s → IsCoherent (accessed_file s) × ShowsSame s (accessed_file s)
unfolding accessed_file
accessed_file_lem s h = (
  (
    AreDistinct-touch s.cache.elements h.0,
    AreClean-touch s.device s.cache.elements h.1,
    omega (arith, h.2, length-map s.cache.elements touch),
  ),
  (λ n. seen-touch s.device s.cache.elements n),
)

-- What a request for a sector of a file gives: the sector as it is seen, which is then cached.
abbrev pub GetsFile : Store → ℕ → Option (DiskSector × Store) → Type 0
GetsFile s n r =
    (s' : Store) × (r ≡ some (record { sector_number = n; sector_content = view s n }, s'))
    × IsCoherent s'
    × ShowsSame s s'
    × (lookup n s'.cache.elements ≡ some (view s n))

module _ (max_count : ℕ) (positive : 0 < max_count) where
  get_missing_file_sector_lem :
      (s : Store) (n : ℕ)
      → IsCoherent s
      → IsAbsent n s.cache.elements
      → GetsFile s n (get_missing_file_sector max_count s n)
  unfolding get_missing_file_sector
  get_missing_file_sector_lem s n h a =
      let (s', q, c, same, found, keep) =
        put_sectors_lem max_count positive s (call_get_sector s.device n) h a refl in
      let w = seen_absent s.device s.cache.elements n a in
      (
        s',
        >>=-some _ (put_in_cache-absent max_count s (call_get_sector s.device n) a ∙ q)
            (ap (λ x. some (record { sector_number = n; sector_content = x }, s')) (sym w)),
        c,
        same,
        found ∙ ap some (sym w),
      )

  asked_file :
      (s s' : Store) (n : ℕ) (o : Option DiskSector)
      → get_from_file_cache s n ≡ (o, s')
      → call_cached_get_file_sector max_count s n
        ≡ elim o [ none ↦ get_missing_file_sector max_count s' n | some d ↦ some (d, s') ]
  unfolding call_cached_get_file_sector
  asked_file s s' n o e =
      ap
        (λ (p : Option DiskSector × Store). elim p.0 [
          | none ↦ get_missing_file_sector max_count p.1 n
          | some d ↦ some (d, p.1)
        ])
        e

  GetsFile-same :
      (s s' : Store) (n : ℕ) (r : Option (DiskSector × Store))
      → ShowsSame s s'
      → GetsFile s' n r
      → GetsFile s n r
  GetsFile-same s s' n r same (t, q, c, same', found) = (
    t,
    q ∙ ap (λ x. some (record { sector_number = n; sector_content = x }, t)) (same n),
    c,
    (λ m. same' m ∙ same m),
    found ∙ ap some (same n),
  )

  -- A request for a sector of a file other than sector 0 gives the sector as it is seen, shows every
  -- sector as before, and keeps the cache coherent, with that sector in it.
  pub call_cached_get_file_sector_lem :
      (s : Store) (n : ℕ)
      → IsCoherent s
      → n ≢ 0
      → GetsFile s n (call_cached_get_file_sector max_count s n)
  unfolding get_from_file_cache get_node_by_criteria accessed_file
  call_cached_get_file_sector_lem s n h i =
      answer (accessed_file_lem s h) (find-lookup n (map touch s.cache.elements))
    where
      answer :
          IsCoherent (accessed_file s) × ShowsSame s (accessed_file s)
          → ((find (λ r. r.sector.sector_number == n) (map touch s.cache.elements) ≡ none)
              × (lookup n (map touch s.cache.elements) ≡ none))
            ⊎ ((r : CacheSectorRecord) × (find
                    (λ r. r.sector.sector_number == n)
                    (map touch s.cache.elements)
                  ≡ some r)
                × (lookup n (map touch s.cache.elements) ≡ some r.sector.sector_content)
                × (r.sector.sector_number ≡ n))
          → GetsFile s n (call_cached_get_file_sector max_count s n)
      answer (h', same) (inl (f, l)) =
          GetsFile-same s (accessed_file s) n (call_cached_get_file_sector max_count s n) same (
            rw (asked_file s (accessed_file s) n none (rw f refl)) (
              get_missing_file_sector_lem (accessed_file s) n h'
                (IsAbsent-of_none n (map touch s.cache.elements) l)))
      answer (h', same) (inr (r, f, l, p)) =
          let z : (r.sector.sector_number == 0) ≡ false = ground (arith, p, i) in
          let w : r.sector.sector_content ≡ view s n =
            sym (ap (λ o. elim o [ none ↦ s.device n | some y ↦ y ]) l) ∙ same n in
          let d : DiskSector = record {
            sector_number = n;
            sector_content = r.sector.sector_content;
          } in
          (
            accessed_file s,
            asked_file s (accessed_file s) n (some d) (
                  rw (f, z)
                    (ap
                      (λ k. (
                        some (record {
                          sector_number = k;
                          sector_content = r.sector.sector_content;
                        }),
                        accessed_file s,
                      ))
                      p))
                ∙ ap (λ y. some (record { sector_number = n; sector_content = y }, accessed_file s))
                    w,
            h',
            same,
            l ∙ ap some w,
          )

  -- The eight sectors of a block, as they are seen.
  pub get_cached_each_lem :
      (k n : ℕ) (s : Store)
      → IsCoherent s
      → n ≢ 0
      → (s' : Store) × (get_cached_each max_count k n s ≡ some (views k n (view s), s'))
        × IsCoherent s'
        × ShowsSame s s'
  unfolding get_cached_each
  get_cached_each_lem zero n s h i = (s, refl, h, (λ m. refl))
  get_cached_each_lem (suc k) n s h i =
      let (s1, q1, h1, same1, found) = call_cached_get_file_sector_lem s n h i in
      let (s2, q2, h2, same2) = get_cached_each_lem k (n + 1) s1 h1 (λ e. omega (arith, e)) in
      (
        s2,
        >>=-some _ q1 (
            >>=-some _ q2
              (ap (λ x. some (view s n ++ x, s2)) (views-same k (n + 1) (view s) (view s1) same1))),
        h2,
        (λ m. same2 m ∙ same1 m),
      )
