-- ===== src/Pfs/Seek.antt =====
-- The place of an offset in a file, pfs_fat32_utils_seek, pfs_fat32_utils_seekWrite and the walks of
-- pfs_fat32_utils_getBlockFromNthClusterRead and pfs_fat32_utils_getBlockFromNthClusterWrite, of
-- grage-pfs/app/src/core/pfs-fat-utils.c, with its numbers of clusters and kilobytes.
use grage.Prelude.{
  ℕ, zero, suc, ◌+◌, ◌-◌, ◌*◌, ◌/◌, ◌%◌, ◌^◌, ◌<◌, ◌≤◌, ◌≡◌, ◌≢◌, refl, ap, ◌∙◌, Bool, true, false,
  Option, none, some, List, [], ◌∷◌, ◌==◌, ◌||◌, if◌then◌else◌, ◌>>=◌, >>=-some, ltb, length,
  get_elem?, arith,
}
use grage.Pfs.Volume.{Volume, DirEntry, get_first_cluster}
use grage.Pfs.LongName.{LongDirEntry}
use grage.Pfs.Cache.{Store}
use grage.Pfs.Cache.Coherent.{ShowsSame}
use grage.Pfs.Fat.{get_next_cluster_in_chain}
use grage.Pfs.Fat.Entry.{IsFat, IsTable, entry_at, entry_at-same, get_next_cluster_in_chain_lem}
use grage.Pfs.Fat.Chain.{IsChain, AreEntries, IsChain-same}

-- off_t
pub data ℤ : Type 0 where
  pos : ℕ → ℤ
  negsuc : ℕ → ℤ

-- The fields of FatFile but the cache, of which a disk below has the records, and those that no
-- function reads. `dir_type` is 0 for the root directory.
pub record FatFile : Type 0 where
  pub source : ℕ
  pub source_offset : ℕ
  pub next_cluster : ℕ
  pub short_entry : DirEntry
  pub long_entry : LongDirEntry
  pub dir_entry_offset : ℕ
  pub dir_type : ℕ
  pub eoc : ℕ
  pub file_cluster_number : ℕ
  pub file_cluster_offset : ℕ
  pub file_absolute_cluster_number_read : ℕ
  pub file_absolute_cluster_number_write : ℕ

-- The bytes of a cluster, a field of 16 bits.
abbrev pub bpc : Volume → ℕ
bpc v = (v.bps * v.spc) % 2 ^ 16

-- What both seeks do with an offset that they accept.
unfoldable pub place_at : Volume → FatFile → ℕ → FatFile
place_at v f offset = record f {
  file_cluster_number = (offset / bpc v + (if offset % bpc v == 0 then 0 else 1)) % 2 ^ 32;
  file_cluster_offset = (offset % bpc v) % 2 ^ 16;
}

-- pfs_fat32_utils_seek: whether it succeeds, and the file.
unfoldable pub seek : Volume → FatFile → ℤ → ℕ → Bool × FatFile
seek v f (negsuc n) fsize = (false, f)
seek v f (pos offset) fsize =
    if ltb fsize offset || (f.short_entry.attr == 16)
    then (false, f)
    else (true, place_at v f offset)

-- pfs_fat32_utils_seekWrite
unfoldable pub seek_write : Volume → FatFile → ℤ → ℕ → Bool × FatFile
seek_write v f (negsuc n) fsize = (false, f)
seek_write v f (pos offset) fsize =
    if f.short_entry.attr == 16 then (false, f) else (true, place_at v f offset)

-- The loop of pfs_fat32_utils_getBlockFromNthClusterRead, for the clusters that it still passes.
unfoldable pub walk_chain : ℕ → ℕ → Volume → Store → ℕ → Option (ℕ × Store)
walk_chain max_count zero v s c = some (c, s)
walk_chain max_count (suc k) v s c = do
  (c', s') ← get_next_cluster_in_chain max_count v s c
  walk_chain max_count k v s' c'

-- The walk of both functions. The count of 16 bits never reaches a larger number, so that the loop
-- does not end.
unfoldable pub nth_cluster : ℕ → Volume → Store → FatFile → Option (ℕ × Store)
nth_cluster max_count v s f =
    if ltb 65535 f.file_cluster_number
    then none
    else walk_chain max_count (f.file_cluster_number - 1) v s (get_first_cluster f.short_entry)

-- pfs_fat32_utils_getBlockFromNthClusterRead, up to the request for the block of the cluster
unfoldable pub nth_cluster_read : ℕ → Volume → Store → FatFile → Option (FatFile × Store)
nth_cluster_read max_count v s f = do
  (c, s') ← nth_cluster max_count v s f
  some (record f { file_absolute_cluster_number_read = c }, s')

-- pfs_fat32_utils_getBlockFromNthClusterWrite, up to the request for the block of the cluster
unfoldable pub nth_cluster_write : ℕ → Volume → Store → FatFile → Option (FatFile × Store)
nth_cluster_write max_count v s f = do
  (c, s') ← nth_cluster max_count v s f
  some (record f { file_absolute_cluster_number_write = c }, s')

-- The number of clusters that lie before an offset, as the walk counts them.
abbrev pub clusters_before : Volume → ℕ → ℕ
clusters_before v offset = if offset % bpc v == 0 then offset / bpc v - 1 else offset / bpc v

-- The steps of the walk, and that its count reaches them.
steps :
    (q : ℕ) (b : Bool)
    → (if b then q - 1 else q) < 65535
    → ((q + (if b then 0 else 1)) % 2 ^ 32 - 1 ≡ (if b then q - 1 else q))
      × (ltb 65535 ((q + (if b then 0 else 1)) % 2 ^ 32) ≡ false)
steps q true h = (omega arith, ground arith)
steps q false h = (omega arith, ground arith)

module _ (max_count : ℕ) (positive : 0 < max_count) where
  walk_chain_lem :
      (v : Volume) (s : Store) (k c : ℕ) (ds : List ℕ)
      → IsFat v
      → IsTable v s
      → AreEntries v (c ∷ ds)
      → IsChain (entry_at v s) c ds
      → k ≤ length ds
      → (x : ℕ) × (s' : Store) × (walk_chain max_count k v s c ≡ some (x, s'))
        × (get_elem? (c ∷ ds) k ≡ some x)
        × IsTable v s'
        × ShowsSame s s'
  unfolding walk_chain
  walk_chain_lem v s zero c ds f t e h b = (c, s, refl, refl, t, (λ m. refl))
  walk_chain_lem v s (suc k) c [] f t e h b = absurd (omega arith)
  walk_chain_lem v s (suc k) c (d ∷ ds) f t e (n, p, h) b =
      let (s1, q, t1, same) = get_next_cluster_in_chain_lem max_count positive v f s c t e.0 in
      let (x, s2, q2, g, t2, same2) =
        walk_chain_lem v s1 k d ds f t1 e.1
          (IsChain-same (entry_at v s) (entry_at v s1) d ds (λ y. entry_at-same v s s1 y same) h)
          (omega arith) in
      (
        x,
        s2,
        >>=-some _ q (ap (λ y. walk_chain max_count k v s1 y) p ∙ q2),
        g,
        t2,
        (λ m. same2 m ∙ same m),
      )

  -- After a seek to an offset of a file the walk ends in the cluster of its chain that has the
  -- offset, except where the offset is the first of a cluster other than the first one: there it ends
  -- in the cluster before.
  pub nth_cluster_read-seek :
      (v : Volume) (s : Store) (file : FatFile) (offset fsize : ℕ) (ds : List ℕ)
      → IsFat v
      → IsTable v s
      → AreEntries v (get_first_cluster file.short_entry ∷ ds)
      → IsChain (entry_at v s) (get_first_cluster file.short_entry) ds
      → offset ≤ fsize
      → file.short_entry.attr ≢ 16
      → clusters_before v offset ≤ length ds
      → length ds < 65535
      → (x : ℕ) × (s' : Store) × ((seek v file (pos offset) fsize).0 ≡ true)
        × (nth_cluster_read max_count v s (seek v file (pos offset) fsize).1
            ≡ some (record (place_at v file offset) { file_absolute_cluster_number_read = x }, s'))
        × (get_elem? (get_first_cluster file.short_entry ∷ ds) (clusters_before v offset) ≡ some x)
        × IsTable v s'
        × ShowsSame s s'
  unfolding seek nth_cluster_read nth_cluster place_at
  nth_cluster_read-seek v s file offset fsize ds f t e h b a w l =
      let (x, s', q, g, t', same) =
        walk_chain_lem v s (clusters_before v offset) (get_first_cluster file.short_entry) ds f t e
          h w in
      let u : (ltb fsize offset || (file.short_entry.attr == 16)) ≡ false = ground (arith, b, a) in
      let (i, j) = steps (offset / bpc v) (offset % bpc v == 0) (omega (arith, w, l)) in
      let m : nth_cluster max_count v s (place_at v file offset) ≡ some (x, s') = rw (j, i) q in
      (x, s', rw u refl, rw u (>>=-some _ m refl), g, t', same)
