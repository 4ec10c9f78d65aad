-- ===== src/Pfs/Mknod/Slots.antt =====
-- Where pfs_fat32_mknod puts the entries of a new file.
use grage.Prelude.{
  ℕ, zero, suc, ◌+◌, ◌-◌, ◌*◌, ◌^◌, ◌<◌, ◌≤◌, ◌≡◌, ◌≢◌, refl, ap, sym, ◌∙◌, Bool, true, false, not,
  none, some, List, ◌==◌, ◌&&◌, ◌⊎◌, inl, inr, Bool-cases, if◌then◌else◌, ◌>>=◌, >>=-some, leb,
  le→leb, ltb, length, arith,
}
use grage.Splice.{spliced, length-spliced}
use grage.Ppd.Persistence.{copy_to}
use grage.Pfs.Volume.{Volume, DirEntry, get_first_cluster, get_first_sector_of_cluster}
use grage.Pfs.Block.{Block, call_get_block, call_put_block}
use grage.Pfs.Block.Roundtrip.{call_get_block-call_put_block}
use grage.Pfs.Dates.{Tm}
use grage.Pfs.LongName.{LongDirEntry}
use grage.Pfs.Fat.Entry.{copied}
use grage.Pfs.Seek.{bpc}
use grage.Pfs.Mknod.{
  Disk, Caches, FileName, file_store, with_file_store, get_block, is_free_entry, search, long_bytes,
  short_bytes, new_long_entry, new_short_entry, put_without_file, write_entries, mknod,
}

-- The entries number `i` and `i + 1` of a block are the first two in a row that are free, from entry
-- number `j` on.
abbrev pub IsFirstPair : List ℕ → ℕ → ℕ → Type 0
IsFirstPair content j i =
    (i + 1 < 128)
    × (is_free_entry content (i * 32) ≡ true)
    × (is_free_entry content (i * 32 + 32) ≡ true)
    × ((m : ℕ)
        → j ≤ m
        → m < i
        → (is_free_entry content (m * 32) && is_free_entry content (m * 32 + 32)) ≡ false)

not_both : (c : Bool) → c ≡ false → c ≡ true → ⊥
not_both c p q = cc

-- The search ends behind the first two free entries of a block that has some.
pub search_lem :
    (fuel : ℕ) (k : Caches) (v : Volume) (d : Disk) (n : ℕ) (b : Block) (j i : ℕ)
    → bpc v ≡ 4096
    → j ≤ i
    → i < fuel + j
    → IsFirstPair b.content j i
    → search fuel k v d n b (j * 32) ≡ some (n, b, i * 32 + 64, d)
unfolding search
search_lem zero k v d n b j i w h u p = absurd (omega arith)
search_lem (suc fuel) k v d n b j i w h u (l, f1, f2, before) =
    let room : leb (j * 32 + 32) 4096 ≡ true = le→leb (j * 32 + 32) 4096 (omega arith) in
    let room2 : leb (j * 32 + 64) 4096 ≡ true = le→leb (j * 32 + 64) 4096 (omega arith) in
    elim (Bool-cases (ltb j i)) [
      | inr e ↦
          let s : j ≡ i = ground (arith, e, h) in
          let a1 : is_free_entry b.content (j * 32) ≡ true =
            ap (λ m. is_free_entry b.content (m * 32)) s ∙ f1 in
          let a2 : is_free_entry b.content (j * 32 + 32) ≡ true =
            ap (λ m. is_free_entry b.content (m * 32 + 32)) s ∙ f2 in
          rw (room, a1, room2, a2) (ap (λ m. some (n, b, m * 32 + 64, d)) s)
      | inl e ↦
          let s : j < i = ground (arith, e) in
          elim (Bool-cases (is_free_entry b.content (j * 32))) [
            | inl a ↦
                let a2 : is_free_entry b.content (j * 32 + 32) ≡ false =
                  sym (ap (λ c. c && is_free_entry b.content (j * 32 + 32)) a)
                  ∙ before j (omega arith) s in
                let far : j + 1 ≢ i = λ q. not_both (is_free_entry b.content (j * 32 + 32)) a2 (
                  ap (λ o. is_free_entry b.content o)
                    (let r : j * 32 + 32 ≡ i * 32 = omega (arith, q) in r)
                  ∙ f1) in
                let o : j * 32 + 64 ≡ (j + 2) * 32 = omega arith in
                rw (room, a, room2, a2)
                  (ap (λ m. search fuel k v d n b m) o
                    ∙ search_lem fuel k v d n b (j + 2) i w (ground (arith, far, s)) (omega arith)
                        (l, f1, f2, λ m c c'. before m (omega arith) c'))
            | inr a ↦
                let z : leb (bpc v) (j * 32 + 32) ≡ false = ground (arith, w, l, s) in
                let o : j * 32 + 32 ≡ (j + 1) * 32 = omega arith in
                rw (room, a, z)
                  (ap (λ m. search fuel k v d n b m) o
                    ∙ search_lem fuel k v d n b (j + 1) i w (omega arith) (omega arith)
                        (l, f1, f2, λ m c c'. before m (omega arith) c'))
          ]
    ]

-- The block of a directory with the entries of a new file in place of its entries `i` and `i + 1`.
abbrev pub with_entries : Block → ℕ → LongDirEntry → DirEntry → Block
with_entries b i long_entry short_entry = record b {
  content =
      spliced (spliced b.content (i * 32) (long_bytes long_entry)) (i * 32 + 32)
        (short_bytes short_entry);
}

write_entries_lem :
    (k : Caches) (v : Volume) (d : Disk) (b : Block) (i : ℕ) (long_entry : LongDirEntry)
    (short_entry : DirEntry)
    → k.habilitada ≡ false
    → get_first_sector_of_cluster v b.id + 8 < 2 ^ 32
    → length b.content ≡ 4096
    → i + 1 < 128
    → (d' : Disk) × (write_entries k v d b (i * 32 + 64) long_entry short_entry ≡ some d')
      × (call_get_block k.habilitada v k.file_max_count (file_store d') b.id
          ≡ some (with_entries b i long_entry short_entry, file_store d'))
      × ((m : ℕ)
          → (m < get_first_sector_of_cluster v b.id) ⊎ (get_first_sector_of_cluster v b.id + 8 ≤ m)
          → d'.sectors m ≡ d.sectors m)
unfolding write_entries put_without_file
write_entries_lem k v d b i long_entry short_entry u h l r =
    let c0 = b.content in
    let c1 = spliced c0 (i * 32) (long_bytes long_entry) in
    let l1 : length c1 ≡ 4096 =
      length-spliced c0 (i * 32) (long_bytes long_entry) (omega (arith, l)) ∙ l in
    let c2 = spliced c1 (i * 32 + 32) (short_bytes short_entry) in
    let l2 : length c2 ≡ 4096 =
      length-spliced c1 (i * 32 + 32) (short_bytes short_entry) (omega (arith, l1)) ∙ l1 in
    let o1 : i * 32 + 64 - 64 ≡ i * 32 = omega arith in
    let o2 : i * 32 + 64 - 32 ≡ i * 32 + 32 = omega arith in
    let off : (k.habilitada && not (b.id == v.root)) ≡ false =
      ap (λ c. c && not (b.id == v.root)) u in
    let (s', q, g, same) =
      call_get_block-call_put_block k.habilitada v k.file_max_count (file_store d)
        (record b { content = c2 }) off h l2 in
    (
      with_file_store d s',
      >>=-some _
          (ap (λ o. copy_to c0 o (long_bytes long_entry)) o1
            ∙ copied c0 (long_bytes long_entry) (i * 32) (omega (arith, l)))
          (>>=-some _
            (ap (λ o. copy_to c1 o (short_bytes short_entry)) o2
              ∙ copied c1 (short_bytes short_entry) (i * 32 + 32) (omega (arith, l1)))
            (ap
                (λ c.
                  if c
                  then none
                  else (call_put_block k.habilitada v k.file_max_count (file_store d)
                        (record b { content = c2 })
                      >>= (λ s. some (with_file_store d s))))
                off
              ∙ >>=-some _ q refl)),
      g,
      same,
    )

-- With the cache of files off, and for a name that the long entry can be filled with, pfs_fat32_mknod
-- writes the two entries of the file over the first two free entries in a row of the first block of
-- the directory, if that has such entries: the block reads back with them, and no sector outside of
-- it changes.
pub mknod_lem :
    (fuel : ℕ) (k : Caches) (v : Volume) (d : Disk) (is_root : Bool) (source : ℕ)
    (destination : DirEntry) (f : FileName) (t : Tm) (long_entry : LongDirEntry)
    (short_entry : DirEntry) (b : Block) (i : ℕ) (le : LongDirEntry)
    → k.habilitada ≡ false
    → bpc v ≡ 4096
    → call_get_block k.habilitada v k.file_max_count
        (file_store d)
        (if is_root then source else get_first_cluster destination)
      ≡ some (b, file_store d)
    → length b.content ≡ 4096
    → get_first_sector_of_cluster v b.id + 8 < 2 ^ 32
    → i < fuel
    → IsFirstPair b.content 0 i
    → new_long_entry long_entry f ≡ some le
    → (d' : Disk) × (mknod fuel k v d is_root source destination f t long_entry short_entry
        ≡ some d')
      × (call_get_block k.habilitada v k.file_max_count (file_store d') b.id
          ≡ some (with_entries b i le (new_short_entry short_entry f t), file_store d'))
      × ((m : ℕ)
          → (m < get_first_sector_of_cluster v b.id) ⊎ (get_first_sector_of_cluster v b.id + 8 ≤ m)
          → d'.sectors m ≡ d.sectors m)
unfolding mknod get_block
mknod_lem fuel k v d is_root source destination f t long_entry short_entry b i le u w g l h p a
      filled =
    let n = if is_root then source else get_first_cluster destination in
    let (d', q, r, same) =
      write_entries_lem k v d b i le (new_short_entry short_entry f t) u h l a.0 in
    (
      d',
      >>=-some _ (>>=-some _ g refl) (
          >>=-some _ (search_lem fuel k v d n b 0 i w (omega arith) (omega arith) a)
            (>>=-some _ filled q)),
      r,
      same,
    )
