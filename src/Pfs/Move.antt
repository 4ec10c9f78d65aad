-- ===== src/Pfs/Move.antt =====
-- pfs_fat32_moveFile of grage-pfs/app/src/core/pfs-fat32.c: a file gets entries in another directory,
-- and loses those that it had. Each of the two directories has its cache. The search for free entries
-- is that for a new file, from the third entry on; the number that it leaves unset is an argument, as
-- are the bytes behind the variable that the removal copies and the parts of a name.
pub mod Split
use grage.Prelude.{ℕ, ◌+◌, ◌-◌, ◌%◌, ◌^◌, Option, some, List, ◌==◌, if◌then◌else◌, ◌>>=◌, leb}
use grage.Commons.LinkedList.{LinkedList}
use grage.Ppd.Persistence.{copy_to}
use grage.Pfs.Volume.{Volume}
use grage.Pfs.Cache.{CacheSectorRecord}
use grage.Pfs.Block.{Block}
use grage.Pfs.LongName.{load_long_entry_filename}
use grage.Pfs.ShortName.{load_entry_filename}
use grage.Pfs.Seek.{FatFile}
use grage.Pfs.Mknod.{
  Disk, Caches, FileName, get_block, get_next, put_without_file, short_bytes, long_bytes, search,
}
use grage.Pfs.Files.{is_long}
use grage.Pfs.Unlink.{unlink_dir_entry}

-- The file with a new name in both of its entries.
unfoldable pub with_name : FatFile → FileName → Option FatFile
with_name f n = do
  l ← load_long_entry_filename f.long_entry n.utf16 n.utf16_length
  some (record f {
    short_entry = load_entry_filename n.toupper f.short_entry n.name n.name_length n.extension;
    long_entry = l;
  })

-- The disk with the cache of another directory.
abbrev pub with_cache : Disk → LinkedList CacheSectorRecord → Disk
with_cache d l = record d { file_cache = l }

-- The entries in the block, of which the second one is written to the block behind the old directory
-- if the first one ends a sector or lies behind the first sector: the block that is to be written.
unfoldable pub place_entries :
    Caches
    → Volume
    → Disk
    → LinkedList CacheSectorRecord
    → FatFile
    → Block
    → ℕ
    → Option (Block × LinkedList CacheSectorRecord × Disk)
place_entries k v d old f block offset =
    let long = (do
      c1 ← copy_to block.content ((offset - 64) % 2 ^ 16) (long_bytes f.long_entry)
      let beyond = (do
        (n, d1) ← get_next k v d f.source
        (b, d2) ← get_block k v (with_cache d1 old) n
        c2 ← copy_to b.content 0 (short_bytes f.short_entry)
        some (record b { content = c2 }, d2.file_cache, with_cache d2 d.file_cache))
      let inside = (do
        c2 ← copy_to c1 ((offset - 32) % 2 ^ 16) (short_bytes f.short_entry)
        some (record block { content = c2 }, old, d))
      if leb v.bps ((offset - 64) % 2 ^ 16 + 32) then beyond else inside) in
    let short = (do
      c ← copy_to block.content ((offset - 64) % 2 ^ 16) (short_bytes f.short_entry)
      some (record block { content = c }, old, d)) in
    if is_long f.long_entry.ldir_attr then long else short

-- pfs_fat32_moveFile, from the new directory that it opens on: `old` is the cache of the file.
unfoldable pub move_file :
    ℕ
    → List ℕ
    → ℕ
    → Caches
    → Volume
    → Disk
    → LinkedList CacheSectorRecord
    → FatFile
    → FatFile
    → FileName
    → Option Disk
move_file fuel tail unset k v d old f directory n = do
  (b, d1) ← get_block k v d directory.next_cluster
  (block_number, b1, offset, d2) ← search fuel k v d1 unset b 64
  let again = get_block k v d2 directory.next_cluster
  (b2, d3) ← if block_number == directory.next_cluster then some (b1, d2) else again
  f1 ← with_name f n
  (b3, old1, d4) ← place_entries k v d3 old f1 b2 offset
  d5 ← put_without_file k v d4 b3
  (b4, d6) ← get_block k v (with_cache d5 old1) f1.source
  unlink_dir_entry tail k v d6 f1 b4
