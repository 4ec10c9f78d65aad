-- ===== src/Pfs/Fat.antt =====
-- grage-pfs/app/src/core/pfs-fat-utils.c and pfs-fat32.c: the chains of clusters in the file
-- allocation table, through the cache of its sectors. A function is `none` where the code writes
-- outside of a sector, or waits for a lock that nobody gives back.
pub mod Entry
pub mod Chain
pub mod Unlink
pub mod Allocate
use grage.Prelude.{
  ℕ, zero, suc, ◌+◌, ◌-◌, ◌*◌, ◌/◌, ◌%◌, ◌^◌, Bool, true, false, Option, none, some, List, ◌==◌,
  ◌&&◌, if◌then◌else◌, ◌>>=◌, leb, ltb, take, drop,
}
use grage.Nipc.Wire.Bytes.{le_bytes, of_le}
use grage.Ppd.Persistence.{copy_to}
use grage.Pfs.Volume.{Volume, get_fat_entry_sector, get_fat_entry_offset}
use grage.Pfs.Cache.{Store, call_cached_get_sector, call_cached_put_sector}

-- FAT_32_FAT_EOC, FAT_32_ISEOC and FAT_32_ISFREE
abbrev pub fat_eoc : ℕ
fat_eoc = 268435448

abbrev pub is_eoc : ℕ → Bool
is_eoc entry = leb 268435448 (entry % 2 ^ 28)

abbrev pub is_free : ℕ → Bool
is_free entry = (entry % 2 ^ 28) == 0

-- The 32-bit word at an offset of a sector.
abbrev pub read_entry : List ℕ → ℕ → ℕ
read_entry content offset = of_le (take 4 (drop offset content))

module _ (max_count : ℕ) where
  -- pfs_fat32_utils_getNextClusterInChain
  unfoldable pub get_next_cluster_in_chain : Volume → Store → ℕ → Option (ℕ × Store)
  get_next_cluster_in_chain v s cluster = do
    (d, s') ← call_cached_get_sector v max_count s (get_fat_entry_sector v cluster)
    some (read_entry d.sector_content (get_fat_entry_offset v cluster), s')

  -- The request, the `memcpy` of a word into the sector and the write that the next functions share.
  unfoldable pub put_entry : Volume → Store → ℕ → ℕ → ℕ → Option Store
  put_entry v s sector offset value = do
    (d, s') ← call_cached_get_sector v max_count s sector
    c ← copy_to d.sector_content offset (le_bytes 4 value)
    call_cached_put_sector v max_count s' (record d { sector_content = c })

  -- pfs_fat32_utils_markEndOfChain
  unfoldable pub mark_end_of_chain : Volume → Store → ℕ → Option Store
  mark_end_of_chain v s cluster =
      put_entry v s (get_fat_entry_sector v cluster) (get_fat_entry_offset v cluster + 4) fat_eoc

  -- pfs_fat32_utils_expandChain, where the offset is of 16 bits
  unfoldable pub expand_chain : Volume → Store → ℕ → ℕ → Option Store
  expand_chain v s last free =
      put_entry v s (get_fat_entry_sector v last) (get_fat_entry_offset v last % 2 ^ 16) free

  -- The loop of pfs_fat32_utils_findEOC, as many times as the fuel says.
  unfoldable pub find_eoc : ℕ → Volume → Store → ℕ → Option (ℕ × Store)
  find_eoc zero v s first_cluster = none
  find_eoc (suc fuel) v s first_cluster = do
    (d, s') ← call_cached_get_sector v max_count s (get_fat_entry_sector v first_cluster)
    let entry = read_entry d.sector_content (get_fat_entry_offset v first_cluster)
    let rest = find_eoc fuel v s' entry
    if is_eoc entry then some (first_cluster, s') else rest

  -- pfs_fat32_unlink_FatEntryChain, of a file whose `nextCluster` is given: whether there is more to
  -- free, the `nextCluster` left, the volume and the sectors.
  unfoldable pub unlink_fat_entry_chain : Volume → Store → ℕ → Option (Bool × ℕ × Volume × Store)
  unlink_fat_entry_chain v s cluster = do
    (next_cluster, s1) ← get_next_cluster_in_chain v s cluster
    (d, s2) ← call_cached_get_sector v max_count s1 (get_fat_entry_sector v cluster)
    let offset = get_fat_entry_offset v cluster
    let entry = read_entry d.sector_content offset
    c ← copy_to d.sector_content offset (le_bytes 4 0)
    s3 ← call_cached_put_sector v max_count s2 (record d { sector_content = c })
    let v' = record v { free_cluster_count = (v.free_cluster_count + 1) % 2 ^ 32 }
    if is_eoc entry then some (false, cluster, v', s3) else some (true, next_cluster, v', s3)

  -- The loop of pfs_fat32_unlink, as many times as the fuel says.
  unfoldable pub unlink_chain : ℕ → Volume → Store → ℕ → Option (Volume × Store)
  unlink_chain zero v s cluster = none
  unlink_chain (suc fuel) v s cluster = do
    (more, next_cluster, v', s') ← unlink_fat_entry_chain v s cluster
    let rest = unlink_chain fuel v' s' next_cluster
    if more then rest else some (v', s')
