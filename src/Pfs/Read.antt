-- ===== src/Pfs/Read.antt =====
-- pfs_fat32_read of grage-pfs/app/src/core/pfs-fat32.c. The block that it leaves unset behind the end
-- of a file is an argument. The loop has fuel for its rounds.
pub mod Content
pub mod Whole
use grage.Prelude.{
  ℕ, zero, suc, ◌+◌, ◌-◌, ◌*◌, Bool, true, false, Option, none, some, List, ◌++◌, ◌==◌,
  if◌then◌else◌, ◌>>=◌, leb, take, drop,
}
use grage.Pfs.Volume.{Volume}
use grage.Pfs.Cache.{Store}
use grage.Pfs.Fat.{is_eoc}
use grage.Pfs.Block.{Block}
use grage.Pfs.Seek.{FatFile, bpc, nth_cluster_read}
use grage.Pfs.Mknod.{Disk, Caches, get_block, get_next}

-- The sectors of the table, as a disk has them.
abbrev pub fat_store : Disk → Store
fat_store d = record { device = d.sectors; cache = d.fat_cache }

-- The block where a read starts.
unfoldable pub first_block :
    Caches → Volume → Disk → FatFile → Block → Option (Block × FatFile × Disk)
first_block k v d f unset =
    let fresh = (do
      (f1, s) ← nth_cluster_read k.fat_max_count v (fat_store d) f
      (b, d1) ←
          get_block k v (record d { sectors = s.device; fat_cache = s.cache })
            f1.file_absolute_cluster_number_read
      some (b, f1, d1)) in
    let continued = (do
      (c, d1) ← get_next k v d f.file_absolute_cluster_number_read
      let beyond = some (unset, f, d1)
      let inside = (do (b, d2) ← get_block k v d1 c; some (b, f, d2))
      if is_eoc c then beyond else inside) in
    if f.file_absolute_cluster_number_read == 0 then fresh else continued

-- The loop: what was read, the cluster where it ends, or `none` where it returns at the end of the
-- file, and the disk.
unfoldable pub read_loop :
    ℕ → Caches → Volume → Disk → ℕ → List ℕ → ℕ → Option (List ℕ × Option ℕ × Disk)
read_loop zero k v d current buf left = none
read_loop (suc fuel) k v d current buf left =
    let onward = (do
      (c, d1) ← get_next k v d current
      (b, d2) ← get_block k v d1 c
      let n = if leb left (bpc v) then left else bpc v
      read_loop fuel k v d2 c (buf ++ take n b.content) (left - n)) in
    if left == 0
    then some (buf, some current, d)
    else (if is_eoc current then some (buf, none, d) else onward)

-- pfs_fat32_read: what was read, the file and the disk.
unfoldable pub read :
    ℕ → Caches → Volume → Disk → FatFile → ℕ → Block → Option (List ℕ × FatFile × Disk)
read fuel k v d f size unset = do
  (b, f1, d1) ← first_block k v d f unset
  let offset = f1.file_cluster_offset
  let inside = some (take size (drop offset b.content), f1, d1)
  let across = (do
    (buf, end, d2) ←
        read_loop fuel k v d1 f1.file_absolute_cluster_number_read
          (take (bpc v - offset) (drop offset b.content)) (size - (bpc v - offset))
    some (
      buf,
      elim end [ none ↦ f1 | some c ↦ record f1 { file_absolute_cluster_number_read = c } ],
      d2,
    ))
  if leb (offset + size) (bpc v) then inside else across
