-- ===== src/Pfs/Write.antt =====
-- pfs_fat32_write of grage-pfs/app/src/core/pfs-fat32.c. The number of the cluster that it leaves
-- unset in the first write of a file is an argument. A write outside of a block is `none`, and the
-- loop has fuel for its rounds.
pub mod Place
use grage.Prelude.{
  ℕ, zero, suc, ◌+◌, ◌-◌, ◌*◌, Bool, true, false, Option, none, some, List, ◌==◌, ◌||◌,
  if◌then◌else◌, ◌>>=◌, leb, take, drop,
}
use grage.Ppd.Persistence.{copy_to}
use grage.Pfs.Volume.{Volume}
use grage.Pfs.Fat.{is_eoc}
use grage.Pfs.Block.{Block, call_put_block}
use grage.Pfs.Seek.{FatFile, bpc, nth_cluster_write}
use grage.Pfs.Mknod.{Disk, Caches, file_store, with_file_store, get_block, get_next}
use grage.Pfs.Read.{fat_store}

-- pfs_fat32_utils_callPutBlock, on a disk
unfoldable pub put_block : Caches → Volume → Disk → Block → Option Disk
put_block k v d b = do
  s ← call_put_block k.habilitada v k.file_max_count (file_store d) b
  some (with_file_store d s)

-- The block where a write starts, and the number of its cluster, which is not set in the first write.
unfoldable pub write_block :
    Caches → Volume → Disk → FatFile → ℕ → Option (Block × ℕ × FatFile × Disk)
write_block k v d f unset =
    let fresh = (do
      (f1, s) ← nth_cluster_write k.fat_max_count v (fat_store d) f
      (b, d1) ←
          get_block k v (record d { sectors = s.device; fat_cache = s.cache })
            f1.file_absolute_cluster_number_write
      some (b, unset, f1, d1)) in
    let continued = (do
      (c, d1) ← get_next k v d f.file_absolute_cluster_number_write
      (b, d2) ← get_block k v d1 c
      some (b, c, f, d2)) in
    if f.file_absolute_cluster_number_write == 0 then fresh else continued

-- The loop, for the bytes that are left.
unfoldable pub write_loop : ℕ → Caches → Volume → Disk → ℕ → Block → List ℕ → ℕ → Option Disk
write_loop zero k v d current block rest left = none
write_loop (suc fuel) k v d current block rest left =
    let n = if leb left (bpc v) || is_eoc current then left else bpc v in
    let onward = (do
      c ← copy_to block.content 0 (take n rest)
      d1 ← put_block k v d (record block { content = c })
      let stays =
          write_loop fuel k v d1 current (record block { content = c }) (drop n rest) (left - n)
      let moves = (do
        (x, d2) ← get_next k v d1 block.id
        (b, d3) ← get_block k v d2 x
        write_loop fuel k v d3 x b (drop n rest) (left - n))
      if left - n == 0 then stays else moves) in
    if left == 0 then some d else onward

-- pfs_fat32_write, of `size` bytes: the number of bytes that it returns, the file and the disk.
unfoldable pub write :
    ℕ → Caches → Volume → Disk → FatFile → List ℕ → ℕ → ℕ → Option (ℕ × FatFile × Disk)
write fuel k v d f buf size unset = do
  (b, current, f1, d1) ← write_block k v d f unset
  let offset = f1.file_cluster_offset
  let n = bpc v - offset
  let inside = (do
    c ← copy_to b.content offset (take size buf)
    d2 ← put_block k v d1 (record b { content = c })
    some (size, f1, d2))
  let across = (do
    c ← copy_to b.content offset (take n buf)
    d2 ← put_block k v d1 (record b { content = c })
    d3 ← write_loop fuel k v d2 current (record b { content = c }) (drop n buf) (size - n)
    some (size, f1, d3))
  if leb (size + offset) (bpc v) then inside else across
