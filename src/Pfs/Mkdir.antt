-- ===== src/Pfs/Mkdir.antt =====
-- pfs_fat32_mkdir of grage-pfs/app/src/core/pfs-fat32.c: a new directory in a directory, with the
-- search for free entries that it shares with a new file. The entries are arguments as they are
-- before they are filled.
use grage.Prelude.{ℕ, ◌-◌, Option, none, some, ◌==◌, if◌then◌else◌, ◌>>=◌}
use grage.Ppd.Persistence.{copy_to}
use grage.Pfs.Volume.{Volume, DirEntry, get_first_cluster, set_first_cluster}
use grage.Pfs.Fat.Allocate.{assign_cluster}
use grage.Pfs.Dates.{Tm}
use grage.Pfs.LongName.{LongDirEntry}
use grage.Pfs.ShortName.{fill_dot_entry, fill_dot_dot_entry}
use grage.Pfs.Seek.{FatFile}
use grage.Pfs.Mknod.{
  Disk, Caches, FileName, get_block, search, long_bytes, short_bytes, new_long_entry,
  new_short_entry,
}
use grage.Pfs.Write.{put_block}
use grage.Pfs.Files.{Mount, table, with_table}

-- The short entry of a new directory, which has a cluster and the attribute of a directory.
abbrev pub directory_entry : DirEntry → FileName → Tm → ℕ → DirEntry
directory_entry e n t cluster = record (set_first_cluster (new_short_entry e n t) cluster) {
  attr = 16;
}

-- The first cluster of the directory that is made into.
abbrev pub first_cluster_of : FatFile → ℕ
first_cluster_of f = if f.dir_type == 0 then f.source else get_first_cluster f.short_entry

-- The two entries of the directory in the block of its parent.
unfoldable pub put_entries :
    Caches → Volume → Disk → ℕ → FatFile → LongDirEntry → DirEntry → Option Disk
put_entries k v d fuel destination long_entry short_entry = do
  (b, d1) ← get_block k v d (first_cluster_of destination)
  (n, b', offset, d2) ← search fuel k v d1 (first_cluster_of destination) b 0
  c1 ← copy_to b'.content (offset - 64) (long_bytes long_entry)
  c2 ← copy_to c1 (offset - 32) (short_bytes short_entry)
  put_block k v d2 (record b' { content = c2 })

-- The entries `.` and `..` in its own first block.
unfoldable pub put_dots : Caches → Volume → Disk → FatFile → DirEntry → ℕ → DirEntry → Option Disk
put_dots k v d destination short_entry new_cluster unset = do
  (b, d1) ← get_block k v d new_cluster
  let parent = if destination.dir_type == 0 then none else some destination.short_entry
  c1 ← copy_to b.content 0 (short_bytes (fill_dot_entry unset short_entry))
  c2 ← copy_to c1 32 (short_bytes (fill_dot_dot_entry unset parent))
  put_block k v d1 (record b { content = c2 })

-- pfs_fat32_mkdir
unfoldable pub mkdir :
    ℕ → Caches → Mount → FatFile → FileName → Tm → LongDirEntry → DirEntry → Option Mount
mkdir fuel k m destination n t long_entry short_entry = do
  (new_cluster, s) ← assign_cluster k.fat_max_count (table m)
  let m1 = with_table m s
  let e = directory_entry short_entry n t new_cluster
  l ← new_long_entry long_entry n
  d1 ← put_entries k m1.volume m1.disk fuel destination l e
  d2 ← put_dots k m1.volume d1 destination e new_cluster short_entry
  some (record m1 { disk = d2 })
