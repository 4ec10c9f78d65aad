-- ===== src/Pfs/Cache/Coherent.antt =====
-- The sectors that the file system sees: the cached ones, and the others on the device.
use grage.Prelude.{
  ℕ, ◌+◌, ◌-◌, ◌%◌, ◌<◌, true, false, Option, none, some, List, [], ◌∷◌, map, ◌≡◌, ◌≢◌, refl, ap,
  subst, sym, ◌∙◌, inl, inr, ◌==◌, ==_iff, if◌then◌else◌, leb, arith, length, length-map,
  Bool-cases,
}
use grage.Commons.LinkedList.{IsSized, word32, add_node}
use grage.Commons.LinkedList.Link.{insert-always_first}
use grage.Commons.LinkedList.Remove.{remove_node-head}
use grage.Nipc.Message.{DiskSector}
use grage.Pfs.Cache.{
  CacheSectorRecord, Store, touch, eq, call_put_sector, make_room, add_sector, put_sectors,
}
use grage.Pfs.Cache.Lookup.{
  lookup, IsAbsent, AreDistinct, AreClean, lookup-touch, IsAbsent-touch, AreDistinct-touch,
  AreClean-touch, lookup_absent, victim-cons,
}

-- The content of a sector for a file system with these records and this device.
abbrev pub seen : (ℕ → List ℕ) → List CacheSectorRecord → ℕ → List ℕ
seen device rs n = elim (lookup n rs) [ none ↦ device n | some c ↦ c ]

abbrev pub view : Store → ℕ → List ℕ
view s n = seen s.device s.cache.elements n

-- The cache has one record for a sector, which is as the device has it unless it is marked as
-- modified, and its size is right.
abbrev pub IsCoherent : Store → Type 0
IsCoherent s = AreDistinct s.cache.elements × AreClean s.device s.cache.elements × IsSized s.cache

-- A store that shows the same sectors.
abbrev pub ShowsSame : Store → Store → Type 0
ShowsSame s s' = (n : ℕ) → view s' n ≡ view s n

-- A write to a sector without a record leaves the records clean.
pub AreClean-call_put_sector :
    (device : ℕ → List ℕ) (d : DiskSector) (rs : List CacheSectorRecord)
    → IsAbsent d.sector_number rs
    → AreClean device rs
    → AreClean (call_put_sector device d) rs
AreClean-call_put_sector device d [] a c = tt
AreClean-call_put_sector device d (r ∷ rs) a (inl m, c) =
    (inl m, AreClean-call_put_sector device d rs a.1 c)
AreClean-call_put_sector device d (r ∷ rs) a (inr m, c) =
    (inr (ground (arith, a.0, m)), AreClean-call_put_sector device d rs a.1 c)

-- The first record shows its own sector, and any other sector is shown by the others.
pub seen_first :
    (device : ℕ → List ℕ) (r : CacheSectorRecord) (rs : List CacheSectorRecord) (n : ℕ)
    → (r.sector.sector_number == n) ≡ true
    → seen device (r ∷ rs) n ≡ r.sector.sector_content
seen_first device r rs n e =
    ap
      (λ b. elim (if b then some r.sector.sector_content else lookup n rs) [
        | none ↦ device n
        | some c ↦ c
      ])
      e

pub seen_rest :
    (device : ℕ → List ℕ) (r : CacheSectorRecord) (rs : List CacheSectorRecord) (n : ℕ)
    → (r.sector.sector_number == n) ≡ false
    → seen device (r ∷ rs) n ≡ seen device rs n
seen_rest device r rs n e =
    ap
      (λ b. elim (if b then some r.sector.sector_content else lookup n rs) [
        | none ↦ device n
        | some c ↦ c
      ])
      e

pub seen_absent :
    (device : ℕ → List ℕ) (rs : List CacheSectorRecord) (n : ℕ)
    → IsAbsent n rs
    → seen device rs n ≡ device n
seen_absent device rs n a = ap (λ o. elim o [ none ↦ device n | some c ↦ c ]) (lookup_absent n rs a)

pub seen-touch :
    (device : ℕ → List ℕ) (rs : List CacheSectorRecord) (n : ℕ)
    → seen device (map touch rs) n ≡ seen device rs n
seen-touch device rs n = ap (λ o. elim o [ none ↦ device n | some c ↦ c ]) (lookup-touch n rs)

-- A sector that a write is not for is as it was.
pub seen-call_put_sector :
    (device : ℕ → List ℕ) (d : DiskSector) (rs : List CacheSectorRecord) (n : ℕ)
    → n ≢ d.sector_number
    → seen (call_put_sector device d) rs n ≡ seen device rs n
seen-call_put_sector device d rs n h =
    let e : call_put_sector device d n ≡ device n = ground (arith, h) in
    ap (λ x. elim (lookup n rs) [ none ↦ x | some c ↦ c ]) e

-- The first record goes back to the device.
pub evict :
    (device : ℕ → List ℕ) (r : CacheSectorRecord) (rs : List CacheSectorRecord) (n : ℕ)
    → IsAbsent r.sector.sector_number rs
    → seen (call_put_sector device r.sector) rs n ≡ seen device (r ∷ rs) n
evict device r rs n a = elim (Bool-cases (r.sector.sector_number == n)) [
  | inl e ↦
      let p : r.sector.sector_number ≡ n = (==_iff r.sector.sector_number n).0 e in
      let q : call_put_sector device r.sector n ≡ r.sector.sector_content =
        rw ((==_iff n r.sector.sector_number).1 (sym p)) refl in
      seen_absent (call_put_sector device r.sector) rs n (subst (λ k. IsAbsent k rs) p a)
      ∙ q
      ∙ sym (seen_first device r rs n e)
  | inr e ↦
      seen-call_put_sector device r.sector rs n (λ p. ground (arith, e, p))
      ∙ sym (seen_rest device r rs n e)
]

-- A record with what the device has shows no change.
fetched :
    (device : ℕ → List ℕ) (r : CacheSectorRecord) (rs : List CacheSectorRecord) (n : ℕ)
    → IsAbsent r.sector.sector_number rs
    → r.sector.sector_content ≡ device r.sector.sector_number
    → seen device (r ∷ rs) n ≡ seen device rs n
fetched device r rs n a h = elim (Bool-cases (r.sector.sector_number == n)) [
  | inl e ↦
      let p : r.sector.sector_number ≡ n = (==_iff r.sector.sector_number n).0 e in
      seen_first device r rs n e
      ∙ h
      ∙ ap device p
      ∙ sym (seen_absent device rs n (subst (λ k. IsAbsent k rs) p a))
  | inr e ↦ seen_rest device r rs n e
]

-- What the cache and the device are, and that they show what they did.
module _ (max_count : ℕ) (positive : 0 < max_count) where
  -- A cache that has no room for one more sector makes room by writing its first sector.
  make_room_lem :
      (device : ℕ → List ℕ) (rs : List CacheSectorRecord) (size : ℕ)
      → AreDistinct rs
      → AreClean device rs
      → size ≡ length rs % word32
      → (s' : Store) × (make_room max_count
            (record { device = device; cache = record { elements = rs; size = size } })
          ≡ some s')
        × IsCoherent s'
        × ((n : ℕ) → view s' n ≡ seen device rs n)
        × ((n : ℕ) → IsAbsent n rs → IsAbsent n s'.cache.elements)
  unfolding make_room
  make_room_lem device [] size d c z =
      let e : leb max_count size ≡ false = ground arith in
      (
        record { device = device; cache = record { elements = []; size = size } },
        rw e refl,
        (tt, tt, z),
        (λ n. refl),
        (λ n a. a),
      )
  make_room_lem device (r ∷ rs) size d c z = elim (Bool-cases (leb max_count size)) [
    | inr e ↦ (
      record { device = device; cache = record { elements = r ∷ rs; size = size } },
      rw e refl,
      (d, c, z),
      (λ n. refl),
      (λ n a. a),
    )
    | inl e ↦ (
      record {
        device = call_put_sector device r.sector;
        cache = record { elements = rs; size = (size + word32 - 1) % word32 };
      },
      rw (e, victim-cons r rs, remove_node-head eq r rs size ((==_iff _ _).1 refl)) refl,
      (d.1, AreClean-call_put_sector device r.sector rs d.0 c.1, omega (arith, z)),
      (λ n. evict device r rs n d.0),
      (λ n a. a.1),
    )
  ]

  -- The sector that was added is found, and the others are as before.
  add_sector_lem :
      (s : Store) (d : DiskSector)
      → IsCoherent s
      → IsAbsent d.sector_number s.cache.elements
      → d.sector_content ≡ s.device d.sector_number
      → IsCoherent (add_sector s d)
        × ShowsSame s (add_sector s d)
        × (lookup d.sector_number (add_sector s d).cache.elements ≡ some d.sector_content)
  unfolding add_sector add_node
  add_sector_lem s d h a e =
      let r : CacheSectorRecord = record { estado = 0; modificado = false; sector = d } in
      rw (insert-always_first r s.cache.elements) (
        (
          (
            IsAbsent-touch d.sector_number s.cache.elements a,
            AreDistinct-touch s.cache.elements h.0,
          ),
          (inr (sym e), AreClean-touch s.device s.cache.elements h.1),
          omega (arith, h.2, length-map s.cache.elements touch),
        ),
        (λ n.
            seen-touch s.device (r ∷ s.cache.elements) n
            ∙ fetched s.device r s.cache.elements n a e),
        rw ((==_iff d.sector_number d.sector_number).1 refl) refl,
      )

  add_sector-IsAbsent :
      (s : Store) (d : DiskSector) (n : ℕ)
      → d.sector_number ≢ n
      → IsAbsent n s.cache.elements
      → IsAbsent n (add_sector s d).cache.elements
  unfolding add_sector add_node
  add_sector-IsAbsent s d n i b =
      let r : CacheSectorRecord = record { estado = 0; modificado = false; sector = d } in
      rw (insert-always_first r s.cache.elements) (i, IsAbsent-touch n s.cache.elements b)

  -- A sector that is not cached is added with what the device has.
  pub put_sectors_lem :
      (s : Store) (d : DiskSector)
      → IsCoherent s
      → IsAbsent d.sector_number s.cache.elements
      → d.sector_content ≡ s.device d.sector_number
      → (s' : Store) × (put_sectors max_count s d ≡ some s')
        × IsCoherent s'
        × ShowsSame s s'
        × (lookup d.sector_number s'.cache.elements ≡ some d.sector_content)
        × ((n : ℕ)
            → d.sector_number ≢ n
            → IsAbsent n s.cache.elements
            → IsAbsent n s'.cache.elements)
  unfolding put_sectors
  put_sectors_lem s d h a e =
      let (m, q, c, same, keep) =
        make_room_lem s.device s.cache.elements s.cache.size h.0 h.1 h.2 in
      let a' = keep d.sector_number a in
      let e' : d.sector_content ≡ m.device d.sector_number =
        e
        ∙ sym (seen_absent s.device s.cache.elements d.sector_number a)
        ∙ sym (same d.sector_number)
        ∙ seen_absent m.device m.cache.elements d.sector_number a' in
      let (c', same', found) = add_sector_lem m d c a' e' in
      (
        add_sector m d,
        ap (λ (o : Option Store). elim o [ none ↦ none | some s' ↦ some (add_sector s' d) ]) q,
        c',
        (λ n. same' n ∙ same n),
        found,
        (λ n i b. add_sector-IsAbsent m d n i (keep n b)),
      )
