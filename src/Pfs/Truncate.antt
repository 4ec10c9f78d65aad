-- ===== src/Pfs/Truncate.antt =====
-- pfs_fat32_truncate of grage-pfs/app/src/core/pfs-fat32.c, and pfs_fat32_utils_extendFileTruncate,
-- pfs_fat32_utils_extendFileWrite and pfs_fat32_utils_updateFilesize of pfs-fat-utils.c. Sizes are
-- not negative. The number of a block that an extension leaves unset is an argument, and the loops
-- along the chain have fuel.
pub mod Tail
use grage.Prelude.{
  ℕ, zero, suc, ◌+◌, ◌-◌, ◌*◌, ◌/◌, ◌%◌, ◌^◌, true, false, Option, none, some, List, [], ◌∷◌, ◌++◌,
  ◌==◌, if◌then◌else◌, ◌>>=◌, leb, ltb, take, drop, replicate,
}
use grage.Nipc.Wire.Bytes.{le_bytes}
use grage.Ppd.Persistence.{copy_to, copy_from}
use grage.Pfs.Volume.{Volume, get_fat_entry_sector, get_fat_entry_offset, set_first_cluster}
use grage.Pfs.Cache.{call_cached_get_sector, call_cached_put_sector}
use grage.Pfs.Fat.{is_eoc, read_entry, mark_end_of_chain, find_eoc}
use grage.Pfs.Fat.Allocate.{assign_cluster, allocate_new_cluster}
use grage.Pfs.Dates.{Tm, fill_time}
use grage.Pfs.Seek.{FatFile, bpc}
use grage.Pfs.Mknod.{Disk, Caches, get_block, get_next, short_bytes, put_without_file}
use grage.Pfs.Read.{fat_store}
use grage.Pfs.Write.{put_block}
use grage.Pfs.Files.{Mount, with_fat_store, table, with_table, is_long, short_entry_place}

-- The request for a block, the copy of the short entry of a file into it, and the write.
unfoldable pub store_short_entry : Caches → Volume → Disk → FatFile → ℕ → ℕ → Option Disk
store_short_entry k v d f block_id offset = do
  (b, d1) ← get_block k v d block_id
  c ← copy_to b.content offset (short_bytes f.short_entry)
  put_block k v d1 (record b { content = c })

-- pfs_fat32_utils_updateFilesize
unfoldable pub update_filesize : Caches → Volume → Disk → FatFile → ℕ → Option (FatFile × Disk)
update_filesize k v d f newsize = do
  let f1 = record f { short_entry = record f.short_entry { file_size = newsize } }
  (block_id, offset, d1) ← short_entry_place k v d f1
  d2 ← store_short_entry k v d1 f1 block_id offset
  some (f1, d2)

-- The first cluster of a file that has none, and how many clusters are then reserved.
unfoldable pub first_assigned : Caches → Mount → FatFile → Option (ℕ × FatFile × Mount)
first_assigned k m f =
    let assigned = (do
      (c, t) ← assign_cluster k.fat_max_count (table m)
      some (
        1,
        record f { short_entry = set_first_cluster f.short_entry c; next_cluster = c },
        with_table m t,
      )) in
    if f.next_cluster == 0 then assigned else some (0, f, m)

-- The last cluster of a file, which the file remembers.
unfoldable pub last_cluster : ℕ → Caches → Mount → FatFile → Option (FatFile × Mount)
last_cluster fuel k m f =
    let found = (do
      (c, s) ← find_eoc k.fat_max_count fuel m.volume (fat_store m.disk) f.next_cluster
      some (record f { eoc = c }, record m { disk = with_fat_store m.disk s })) in
    if f.eoc == 0 then found else some (f, m)

-- The loop that reserves clusters, for as many as are left.
unfoldable pub reserve : ℕ → Caches → Mount → FatFile → Option (FatFile × Mount)
reserve zero k m f = some (f, m)
reserve (suc left) k m f = do
  (c, t) ← allocate_new_cluster k.fat_max_count f.eoc (table m)
  reserve left k (with_table m t) (record f { eoc = c })

-- The clusters that both extensions reserve for a size.
abbrev pub cluster_amount : Volume → ℕ → ℕ
cluster_amount v size = (size / bpc v + (if size % bpc v == 0 then 0 else 1)) % 2 ^ 32

-- The place where both extensions write the short entry: the cluster is unset without a long entry.
unfoldable pub extended_place : Caches → Volume → Disk → FatFile → ℕ → Option (ℕ × ℕ × Disk)
extended_place k v d f unset = do
  (b, d1) ← get_block k v d f.source
  let behind = (do (c, d2) ← get_next k v d1 f.source; some (c, 0, d2))
  if is_long f.long_entry.ldir_attr
      then (if leb (bpc v) (f.source_offset + 32)
          then behind
          else some (b.id, f.source_offset + 32, d1))
      else some (unset, f.source_offset, d1)

-- Both extensions, by `amount` bytes, with the size that they give the file.
unfoldable pub extend_file : ℕ → ℕ → Caches → Mount → FatFile → ℕ → ℕ → Option (FatFile × Mount)
extend_file fuel unset k m f amount size = do
  (count, f1, m1) ← first_assigned k m f
  (f2, m2) ← last_cluster fuel k m1 f1
  (f3, m3) ← reserve (cluster_amount m.volume amount - count) k m2 f2
  let f4 = record f3 { short_entry = record f3.short_entry { file_size = size } }
  (block_id, offset, d4) ← extended_place k m3.volume m3.disk f4 unset
  d5 ← store_short_entry k m3.volume d4 f4 block_id offset
  some (f4, record m3 { disk = d5 })

-- pfs_fat32_utils_extendFileTruncate
unfoldable pub extend_file_truncate :
    ℕ → ℕ → Caches → Mount → FatFile → ℕ → Option (FatFile × Mount)
extend_file_truncate fuel unset k m f newsize =
    extend_file fuel unset k m f newsize (newsize % 2 ^ 32)

-- pfs_fat32_utils_extendFileWrite
unfoldable pub extend_file_write : ℕ → ℕ → Caches → Mount → FatFile → ℕ → Option (FatFile × Mount)
extend_file_write fuel unset k m f newsize =
    extend_file fuel unset k m f newsize ((f.short_entry.file_size + newsize) % 2 ^ 32)

-- The bytes of a short entry with a new size, which has no cluster if it is 0.
abbrev pub resized : List ℕ → ℕ → List ℕ
resized entry newsize =
    if newsize == 0
    then take 20 entry ++ (0 ∷ 0 ∷ (take 4 (drop 22 entry) ++ (0 ∷ 0 ∷ le_bytes 4 newsize)))
    else take 28 entry ++ le_bytes 4 newsize

-- The place of the short entry as pfs_fat32_truncate finds it: in the next cluster it keeps the
-- offset.
unfoldable pub truncated_place : Caches → Volume → Disk → FatFile → Option (ℕ × ℕ × Disk)
truncated_place k v d f =
    let behind = (do (c, d') ← get_next k v d f.source; some (c, f.source_offset, d')) in
    if is_long f.long_entry.ldir_attr
    then (if leb (bpc v) (f.source_offset + 32)
        then behind
        else some (f.source, f.source_offset + 32, d))
    else some (f.source, f.source_offset, d)

-- The entry on the disk with the new size.
unfoldable pub resize_entry : Caches → Volume → Disk → FatFile → ℕ → Option Disk
resize_entry k v d f newsize = do
  (block_id, offset, d1) ← truncated_place k v d f
  (b, d2) ← get_block k v d1 block_id
  entry ← copy_from b.content offset 32
  c ← copy_to b.content offset (resized entry newsize)
  put_without_file k v d2 (record b { content = c })

-- The loop to the cluster where the file ends, with the clusters that it has passed.
unfoldable pub walk_to : ℕ → Caches → Volume → Disk → ℕ → ℕ → ℕ → Option (ℕ × Disk)
walk_to zero k v d count newsize current = none
walk_to (suc fuel) k v d count newsize current =
    let onward = (do (c, d') ← get_next k v d current; walk_to fuel k v d' (count + 1) newsize c) in
    if ltb ((count * bpc v) % 2 ^ 32) newsize then onward else some (current, d)

-- The zeros that are written behind the end of the file in its last cluster.
unfoldable pub clear_rest : Caches → Volume → Disk → ℕ → ℕ → Option Disk
clear_rest k v d current offset = do
  (b, d1) ← get_block k v d current
  c ← copy_to b.content (if offset == 0 then offset else offset + 1) (replicate (bpc v - offset) 0)
  put_block k v d1 (record b { content = c })

abbrev pub count_free : Volume → Volume
count_free v = record v { free_cluster_count = (v.free_cluster_count + 1) % 2 ^ 32 }

-- The entry of a cluster, which is then free.
unfoldable pub release_entry : ℕ → Volume → Disk → ℕ → Option (ℕ × Disk)
release_entry max_count v d cluster = do
  (e, s1) ← call_cached_get_sector v max_count (fat_store d) (get_fat_entry_sector v cluster)
  let offset = get_fat_entry_offset v cluster
  c ← copy_to e.sector_content offset (le_bytes 4 0)
  s2 ← call_cached_put_sector v max_count s1 (record e { sector_content = c })
  some (read_entry e.sector_content offset, with_fat_store d s2)

-- The loop that clears and frees the clusters from one on.
unfoldable pub free_tail : ℕ → Caches → Volume → Disk → ℕ → Option (Volume × Disk)
free_tail zero k v d next_cluster = none
free_tail (suc fuel) k v d next_cluster =
    let onward = (do
      (b, d1) ← get_block k v d next_cluster
      c ← copy_to b.content 0 (replicate (bpc v) 0)
      d2 ← put_block k v d1 (record b { content = c })
      (entry, d3) ← release_entry k.fat_max_count v d2 next_cluster
      free_tail fuel k (count_free v) d3 entry) in
    if is_eoc next_cluster then some (v, d) else onward

-- What pfs_fat32_truncate does to the clusters of a file from the one on where it ends.
unfoldable pub cut_chain : ℕ → Caches → Volume → Disk → ℕ → ℕ → Option (Volume × Disk)
cut_chain fuel k v d current offset = do
  d1 ← clear_rest k v d current offset
  let v1 = if offset == 0 then count_free v else v
  (next_cluster, d2) ← get_next k v1 d1 current
  s ← mark_end_of_chain k.fat_max_count v1 (fat_store d2) current
  free_tail fuel k v1 (with_fat_store d2 s) next_cluster

-- The part of pfs_fat32_truncate for a size that is not above the old one.
unfoldable pub shrink : ℕ → Caches → Mount → FatFile → ℕ → Option Mount
shrink fuel k m f newsize = do
  d1 ← resize_entry k m.volume m.disk f newsize
  (current, d2) ← walk_to fuel k m.volume d1 0 newsize f.next_cluster
  (v, d3) ← cut_chain fuel k m.volume d2 current (newsize % bpc m.volume)
  some (record m { volume = v; disk = d3 })

-- The file with the date of a change.
abbrev pub dated : FatFile → Tm → FatFile
dated f t =
    let (date, time) = fill_time t in
    record f {
      short_entry = record f.short_entry { wrt_date = date; wrt_time = time; lst_acc_date = date };
    }

-- pfs_fat32_truncate: what it returns, the file and the volume.
unfoldable pub truncate : ℕ → ℕ → Caches → Mount → FatFile → ℕ → Tm → Option (ℕ × FatFile × Mount)
truncate fuel unset k m f newsize t =
    let f1 = dated f t in
    let larger = (do (f2, m') ← extend_file_truncate fuel unset k m f1 newsize; some (0, f2, m')) in
    let smaller = (do m' ← shrink fuel k m f1 newsize; some (0, f1, m')) in
    if f.next_cluster == m.volume.root
    then some (255, f, m)
    else (if ltb f.short_entry.file_size newsize then larger else smaller)
