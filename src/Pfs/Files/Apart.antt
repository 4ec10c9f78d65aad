-- ===== src/Pfs/Files/Apart.antt =====
-- Writing a cluster of data leaves the table as it was.
use grage.Prelude.{
  ℕ, zero, suc, ◌+◌, ◌*◌, ◌<◌, ◌≤◌, ◌≡◌, refl, ap, sym, ◌∙◌, ◌⊎◌, inl, inr, false, none, some, List,
  [], ◌∷◌, ◌==◌, Bool-cases, leb→le, length, length-take, length-drop, take, drop, arith,
}
use grage.Pfs.Volume.{
  Volume, get_fat_entry_sector, get_fat_entry_offset, get_first_sector_of_cluster,
}
use grage.Pfs.Cache.{CacheSectorRecord, Store, call_put_sector, is_fat_sector_reserved}
use grage.Pfs.Cache.Lookup.{IsAbsent, AreClean, lookup}
use grage.Pfs.Cache.Coherent.{view, seen_absent}
use grage.Pfs.Block.{Block, put_sectors_each, call_put_block}
use grage.Pfs.Block.Roundtrip.{rounds_lem, put_each_outside}
use grage.Pfs.Fat.{read_entry}
use grage.Pfs.Fat.Entry.{IsFat, IsEntry, IsTable, entry_at, sector_is}
use grage.Pfs.Mknod.{Disk, Caches}
use grage.Pfs.Read.{fat_store}
use grage.Pfs.Read.Content.{IsData, data_seen}
use grage.Pfs.Write.{put_block}

-- The sectors that are written have 512 bytes.
pub put_each_length :
    (k n o : ℕ) (c : List ℕ) (device : ℕ → List ℕ) (m : ℕ)
    → o + k * 512 ≤ length c
    → length (device m) ≡ 512
    → length (put_sectors_each k n o c device m) ≡ 512
unfolding put_sectors_each
put_each_length zero n o c device m h l = l
put_each_length (suc k) n o c device m h l =
    let part = take 512 (drop o c) in
    let p : length part ≡ 512 = omega (arith, length-take 512 (drop o c), length-drop o c) in
    put_each_length k (n + 1) (o + 512) c
      (call_put_sector device (record { sector_number = n; sector_content = part })) m (omega arith)
      (elim (Bool-cases (m == n)) [ inl e ↦ rw e p | inr e ↦ rw e l ])

-- Records stay clean for a device that agrees where there are records.
AreClean-agrees :
    (f g : ℕ → List ℕ) (rs : List CacheSectorRecord)
    → ((n : ℕ) → IsAbsent n rs ⊎ (g n ≡ f n))
    → AreClean f rs
    → AreClean g rs
AreClean-agrees f g [] h a = tt
AreClean-agrees f g (r ∷ rs) h (x, a) = (
  elim (h r.sector.sector_number) [
    | inl y ↦ absurd (y.0 refl)
    | inr y ↦ elim x [ inl e ↦ inl e | inr e ↦ inr (y ∙ e) ]
  ],
  AreClean-agrees f g rs (λ n. elim (h n) [ inl y ↦ inl y.1 | inr y ↦ inr y ]) a,
)

-- A device with other sectors behind the table, of 512 bytes, shows the same table.
module _ (v : Volume) (s : Store) (device : ℕ → List ℕ) where
  abbrev other : Store
  other = record s { device = device }

  view-agrees : (n : ℕ) → device n ≡ s.device n → view other n ≡ view s n
  view-agrees n e = ap (λ x. elim (lookup n s.cache.elements) [ none ↦ x | some c ↦ c ]) e

  IsTable-agrees :
      IsTable v s
      → ((n : ℕ) → n ≤ v.rsv + v.fat_size → device n ≡ s.device n)
      → ((n : ℕ) → v.rsv + v.fat_size < n → length (device n) ≡ 512)
      → IsTable v other
  IsTable-agrees t same long = (
    (
      (
        t.0.0.0,
        AreClean-agrees s.device device s.cache.elements
            (λ n. elim (Bool-cases (is_fat_sector_reserved v n)) [
              | inl e ↦ inr (same n (leb→le n (v.rsv + v.fat_size) e))
              | inr e ↦ inl (t.0.1 n e)
            ])
            t.0.0.1,
        t.0.0.2,
      ),
      t.0.1,
    ),
    (λ n. elim (Bool-cases (is_fat_sector_reserved v n)) [
      | inl e ↦ ap length (view-agrees n (same n (leb→le n (v.rsv + v.fat_size) e))) ∙ t.1 n
      | inr e ↦
          ap length (seen_absent device s.cache.elements n (t.0.1 n e)) ∙ long n (ground (arith, e))
    ]),
  )

-- The disk with a block written to its device.
abbrev pub with_block : Volume → Disk → Block → Disk
with_block v d b = record d {
  sectors = put_sectors_each 8 (get_first_sector_of_cluster v b.id) 0 b.content d.sectors;
}

pub IsTable-with_block :
    (v : Volume) (d : Disk) (b : Block)
    → IsTable v (fat_store d)
    → IsData v b.id
    → length b.content ≡ 4096
    → IsTable v (fat_store (with_block v d b))
IsTable-with_block v d b t a l =
    let n = get_first_sector_of_cluster v b.id in
    IsTable-agrees v (fat_store d) (with_block v d b).sectors t
      (λ m h. put_each_outside 8 n 0 b.content d.sectors m (inl (omega (arith, h, a.0))))
      (λ m h.
        put_each_length 8 n 0 b.content d.sectors m (omega (arith, l))
          (sym (ap length (data_seen v (fat_store d) m t h)) ∙ t.1 m))

-- With the cache of files off, a block of data that is written leaves the cached sectors and every
-- entry of the table as they were.
pub put_block-apart :
    (k : Caches) (v : Volume) (d : Disk) (b : Block)
    → k.habilitada ≡ false
    → IsFat v
    → IsTable v (fat_store d)
    → IsData v b.id
    → length b.content ≡ 4096
    → (d' : Disk) × (put_block k v d b ≡ some d')
      × IsTable v (fat_store d')
      × ((x : ℕ) → IsEntry v x → entry_at v (fat_store d') x ≡ entry_at v (fat_store d) x)
unfolding put_block call_put_block
put_block-apart k v d b u f t a l =
    let n = get_first_sector_of_cluster v b.id in
    let device = (with_block v d b).sectors in
    (
      with_block v d b,
      rw (u, rounds_lem n a.1) refl,
      IsTable-with_block v d b t a l,
      (λ x e.
          ap (λ c. read_entry c (get_fat_entry_offset v x))
            (view-agrees v (fat_store d) device (get_fat_entry_sector v x) (
              put_each_outside 8 n 0 b.content d.sectors (get_fat_entry_sector v x)
                (inl (omega (arith, sector_is v x f e, a.0)))))),
    )
