-- ===== src/Pfs/Cache/Requests.antt =====
-- The cached requests for a sector.
use grage.Prelude.{
  ℕ, ◌<◌, true, false, Option, none, some, List, map, ◌≡◌, ◌≢◌, refl, ap, sym, ◌∙◌, ◌⊎◌, inl, inr,
  ◌==◌, if◌then◌else◌, arith, length-map, Bool-cases,
}
use grage.Commons.LinkedList.{find, get_node_by_criteria}
use grage.Nipc.Message.{DiskSector}
use grage.Pfs.Volume.{Volume}
use grage.Pfs.Cache.{
  CacheSectorRecord, Store, touch, call_get_sector, put_sectors, put_in_cache,
  is_fat_sector_reserved, registrar_acceso, get_from_cache, get_missing, call_cached_get_sector,
}
use grage.Pfs.Cache.Lookup.{
  lookup, IsAbsent, IsAbsent-touch, AreDistinct-touch, AreClean-touch, IsAbsent-of_none,
  find-lookup,
}
use grage.Pfs.Cache.Coherent.{view, IsCoherent, ShowsSame, put_sectors_lem, seen-touch, seen_absent}
use grage.Pfs.Cache.Overwrite.{overwrite_absent}

-- Only sectors of the reserved area and the table are cached.
abbrev pub HoldsReserved : Volume → Store → Type 0
HoldsReserved v s = (n : ℕ) → is_fat_sector_reserved v n ≡ false → IsAbsent n s.cache.elements

abbrev pub IsCache : Volume → Store → Type 0
IsCache v s = IsCoherent s × HoldsReserved v s

-- A sector that is reserved is no sector that is not.
reserved_ne :
    (v : Volume) (m n : ℕ)
    → is_fat_sector_reserved v m ≡ true
    → is_fat_sector_reserved v n ≡ false
    → m ≢ n
reserved_ne v m n a b e = ground (arith, a, b, e)

-- The store when the cache was asked.
accessed : Store → Store
accessed s = record s { cache = registrar_acceso s.cache }

accessed_lem :
    (v : Volume) (s : Store) → IsCache v s → IsCache v (accessed s) × ShowsSame s (accessed s)
unfolding accessed
accessed_lem v s (h, k) = (
  (
    (
      AreDistinct-touch s.cache.elements h.0,
      AreClean-touch s.device s.cache.elements h.1,
      omega (arith, h.2, length-map s.cache.elements touch),
    ),
    (λ n e. IsAbsent-touch n s.cache.elements (k n e)),
  ),
  (λ n. seen-touch s.device s.cache.elements n),
)

-- The content of each sector after a write.
abbrev pub written : (ℕ → List ℕ) → ℕ → List ℕ → ℕ → List ℕ
written old n c m = if m == n then c else old m

-- What a write of a sector gives: every other sector is seen as before.
abbrev pub Puts : Volume → Store → DiskSector → Option Store → Type 0
Puts v s d r =
    (s' : Store) × (r ≡ some s')
    × IsCache v s'
    × ((m : ℕ) → view s' m ≡ written (view s) d.sector_number d.sector_content m)

-- What a request for a sector gives: the sector as the file system sees it.
abbrev pub Gets : Volume → Store → ℕ → Option (DiskSector × Store) → Type 0
Gets v s n r =
    (s' : Store) × (r ≡ some (record { sector_number = n; sector_content = view s n }, s'))
    × IsCache v s'
    × ShowsSame s s'
    × (is_fat_sector_reserved v n ≡ true → lookup n s'.cache.elements ≡ some (view s n))

pub put_in_cache-absent :
    (max_count : ℕ) (s : Store) (d : DiskSector)
    → IsAbsent d.sector_number s.cache.elements
    → put_in_cache max_count s d ≡ put_sectors max_count s d
unfolding put_in_cache
put_in_cache-absent max_count s d a =
    ap
      (λ (o : Option (List CacheSectorRecord)). elim o [
        | none ↦ put_sectors max_count s d
        | some rs ↦ some (record s { cache = record (s.cache) { elements = rs } })
      ])
      (overwrite_absent d s.cache.elements a)

module _ (v : Volume) (max_count : ℕ) (positive : 0 < max_count) where
  put_absent :
      (s : Store) (d : DiskSector)
      → IsCache v s
      → is_fat_sector_reserved v d.sector_number ≡ true
      → IsAbsent d.sector_number s.cache.elements
      → d.sector_content ≡ s.device d.sector_number
      → (s' : Store) × (put_in_cache max_count s d ≡ some s')
        × IsCache v s'
        × ShowsSame s s'
        × (lookup d.sector_number s'.cache.elements ≡ some d.sector_content)
  put_absent s d (h, k) r a e =
      let (s', q, c, same, found, keep) = put_sectors_lem max_count positive s d h a e in
      (
        s',
        put_in_cache-absent max_count s d a ∙ q,
        (c, (λ n f. keep n (reserved_ne v d.sector_number n r f) (k n f))),
        same,
        found,
      )

  get_missing_lem :
      (s : Store) (n : ℕ)
      → IsCache v s
      → (is_fat_sector_reserved v n ≡ true → IsAbsent n s.cache.elements)
      → Gets v s n (get_missing v max_count s n)
  unfolding get_missing
  get_missing_lem s n c a = elim (Bool-cases (is_fat_sector_reserved v n)) [
    | inl e ↦
        let (s', q, c', same, found) = put_absent s (call_get_sector s.device n) c e (a e) refl in
        let w = seen_absent s.device s.cache.elements n (a e) in
        (s', rw (w, e, q) refl, c', same, (λ e. found ∙ ap some (sym w)))
    | inr e ↦
        let w = seen_absent s.device s.cache.elements n (c.1 n e) in
        (s, rw (w, e) refl, c, (λ n. refl), (λ e'. cc))
  ]

  Gets-same :
      (s s' : Store) (n : ℕ) (r : Option (DiskSector × Store))
      → ShowsSame s s'
      → Gets v s' n r
      → Gets v s n r
  Gets-same s s' n r same (t, q, c, same', found) = (
    t,
    q ∙ ap (λ x. some (record { sector_number = n; sector_content = x }, t)) (same n),
    c,
    (λ m. same' m ∙ same m),
    (λ e. found e ∙ ap some (same n)),
  )

  asked :
      (s s' : Store) (n : ℕ) (o : Option DiskSector)
      → get_from_cache v s n ≡ (o, s')
      → call_cached_get_sector v max_count s n
        ≡ elim o [ none ↦ get_missing v max_count s' n | some d ↦ some (d, s') ]
  unfolding call_cached_get_sector
  asked s s' n o e =
      ap
        (λ (p : Option DiskSector × Store). elim p.0 [
          | none ↦ get_missing v max_count p.1 n
          | some d ↦ some (d, p.1)
        ])
        e

  -- What asking the cache of a table sector gives.
  get_from_cache_lem :
      (s : Store) (n : ℕ)
      → is_fat_sector_reserved v n ≡ true
      → n ≢ 0
      → ((get_from_cache v s n ≡ (none, accessed s)) × IsAbsent n (accessed s).cache.elements)
        ⊎ ((c : List ℕ) × (get_from_cache v s n
              ≡ (some (record { sector_number = n; sector_content = c }), accessed s))
            × (lookup n (accessed s).cache.elements ≡ some c))
  unfolding get_from_cache get_node_by_criteria accessed
  get_from_cache_lem s n e i = cases (find-lookup n (map touch s.cache.elements))
    where
      cases :
          ((find (λ r. r.sector.sector_number == n) (map touch s.cache.elements) ≡ none)
              × (lookup n (map touch s.cache.elements) ≡ none))
            ⊎ ((r : CacheSectorRecord) × (find
                    (λ r. r.sector.sector_number == n)
                    (map touch s.cache.elements)
                  ≡ some r)
                × (lookup n (map touch s.cache.elements) ≡ some r.sector.sector_content)
                × (r.sector.sector_number ≡ n))
          → ((get_from_cache v s n ≡ (none, accessed s)) × IsAbsent n (accessed s).cache.elements)
            ⊎ ((c : List ℕ) × (get_from_cache v s n
                  ≡ (some (record { sector_number = n; sector_content = c }), accessed s))
                × (lookup n (accessed s).cache.elements ≡ some c))
      cases (inl (f, l)) = inl (rw (e, f) refl, IsAbsent-of_none n (map touch s.cache.elements) l)
      cases (inr (r, f, l, p)) =
          let z : (r.sector.sector_number == 0) ≡ false = ground (arith, p, i) in
          inr (
            r.sector.sector_content,
            rw (e, f, z)
                (ap
                  (λ k. (
                    some (record { sector_number = k; sector_content = r.sector.sector_content }),
                    accessed s,
                  ))
                  p),
            l,
          )

  -- A cached request for a sector other than the first returns the sector as the file system sees
  -- it, leaves every sector as it was seen, and keeps the cache coherent; a sector of the table is
  -- then cached.
  pub call_cached_get_sector_lem :
      (s : Store) (n : ℕ)
      → IsCache v s
      → n ≢ 0
      → Gets v s n (call_cached_get_sector v max_count s n)
  unfolding get_from_cache
  call_cached_get_sector_lem s n c i = elim (Bool-cases (is_fat_sector_reserved v n)) [
    | inr e ↦ rw (asked s s n none (unreserved e)) (get_missing_lem s n c (λ e'. cc))
    | inl e ↦ answer (accessed_lem v s c) (get_from_cache_lem s n e i)
  ]
    where
      unreserved : is_fat_sector_reserved v n ≡ false → get_from_cache v s n ≡ (none, s)
      unreserved e = rw (e, get_from_cache) refl

      answer :
          IsCache v (accessed s) × ShowsSame s (accessed s)
          → ((get_from_cache v s n ≡ (none, accessed s)) × IsAbsent n (accessed s).cache.elements)
            ⊎ ((c : List ℕ) × (get_from_cache v s n
                  ≡ (some (record { sector_number = n; sector_content = c }), accessed s))
                × (lookup n (accessed s).cache.elements ≡ some c))
          → Gets v s n (call_cached_get_sector v max_count s n)
      answer (c', same) (inl (q, a)) =
          Gets-same s (accessed s) n (call_cached_get_sector v max_count s n) same
            (rw (asked s (accessed s) n none q) (get_missing_lem (accessed s) n c' (λ e. a)))
      answer (c', same) (inr (x, q, l)) =
          let w : x ≡ view s n =
            sym (ap (λ o. elim o [ none ↦ (accessed s).device n | some y ↦ y ]) l) ∙ same n in
          (
            accessed s,
            asked s (accessed s) n (some (record { sector_number = n; sector_content = x })) q
                ∙ ap (λ y. some (record { sector_number = n; sector_content = y }, accessed s)) w,
            c',
            same,
            (λ e. l ∙ ap some w),
          )
