-- ===== src/Pfs/Unlink.antt =====
-- pfs_fat32_unlink, pfs_fat32_rmdir, pfs_fat32_unlink_dirEntry and pfs_fat32_rename of
-- grage-pfs/app/src/core/pfs-fat32.c. The copy of 32 bytes from a variable of one byte takes 31 bytes
-- that follow the variable, which are an argument; so are the parts of a new name that the C library
-- finds. The block that one branch leaves unset is not read by it.
pub mod Removed
pub mod Empty
pub mod Renamed
use grage.Prelude.{
  ℕ, zero, suc, ◌+◌, ◌-◌, Bool, true, false, Option, none, some, List, ◌∷◌, ◌==◌, if◌then◌else◌,
  ◌>>=◌, leb, ltb, get_or,
}
use grage.Ppd.Persistence.{copy_to, copy_from}
use grage.Pfs.Volume.{Volume}
use grage.Pfs.Fat.{unlink_fat_entry_chain, unlink_chain}
use grage.Pfs.Block.{Block}
use grage.Pfs.Seek.{FatFile, bpc}
use grage.Pfs.LongName.{load_long_entry_filename}
use grage.Pfs.ShortName.{load_entry_filename}
use grage.Pfs.Mknod.{
  Disk, Caches, FileName, get_block, get_next, put_without_file, short_bytes, long_bytes,
}
use grage.Pfs.Read.{fat_store}
use grage.Pfs.Files.{Mount, with_fat_store, is_long, attr_at}

-- The first byte of an entry of 32 bytes at an offset.
abbrev pub ord_at : List ℕ → ℕ → Option ℕ
ord_at content offset = do entry ← copy_from content offset 32; some (get_or entry 0 0)

-- What an entry that is removed is filled with, by the first byte of the entry behind it.
abbrev pub phantom : List ℕ → ℕ → List ℕ
phantom tail following = (if following == 0 then 0 else 229) ∷ tail

-- The next block of a directory, where pfs_fat32_unlink_dirEntry needs it.
unfoldable pub following_block : Caches → Volume → Disk → Block → Option (Block × Disk)
following_block k v d block = do (c, d1) ← get_next k v d block.id; get_block k v d1 c

-- The entries lie in two blocks: both are written.
unfoldable pub unlink_across : List ℕ → Caches → Volume → Disk → Block → Option Disk
unlink_across tail k v d block = do
  (aux, d1) ← following_block k v d block
  following ← ord_at aux.content 32
  c ←
      copy_to block.content (if following == 0 then v.bps - 32 else bpc v - 32)
        (phantom tail following)
  a ← copy_to aux.content 0 (phantom tail following)
  d2 ← put_without_file k v d1 (record block { content = c })
  put_without_file k v d2 (record aux { content = a })

-- The first byte of the entry behind those that are removed: in the block, or, from `limit` on, in
-- the next one.
unfoldable pub following_ord : Caches → Volume → Disk → Block → ℕ → ℕ → Option (ℕ × Disk)
following_ord k v d block offset limit =
    let inside = (do o ← ord_at block.content offset; some (o, d)) in
    let beyond = (do
      (aux, d1) ← following_block k v d block
      o ← ord_at aux.content 0
      some (o, d1)) in
    if ltb offset limit then inside else beyond

-- The entries lie in the block, the short one at `offset` behind a long one or alone.
unfoldable pub unlink_pair : List ℕ → Caches → Volume → Disk → Block → ℕ → Option Disk
unlink_pair tail k v d block offset = do
  (following, d1) ← following_ord k v d block (offset + 64) (bpc v)
  c1 ← copy_to block.content offset (phantom tail following)
  c2 ← copy_to c1 (offset + 32) (phantom tail following)
  put_without_file k v d1 (record block { content = c2 })

unfoldable pub unlink_single : List ℕ → Caches → Volume → Disk → Block → ℕ → Option Disk
unlink_single tail k v d block offset = do
  (following, d1) ← following_ord k v d block (offset + 32) v.bps
  c ← copy_to block.content offset (phantom tail following)
  put_without_file k v d1 (record block { content = c })

-- pfs_fat32_unlink_dirEntry
unfoldable pub unlink_dir_entry : List ℕ → Caches → Volume → Disk → FatFile → Block → Option Disk
unlink_dir_entry tail k v d f block = do
  let offset = f.source_offset
  entry ← copy_from block.content offset 32
  if is_long (get_or entry 11 0)
      then (if ltb (offset + 32) (bpc v)
          then unlink_pair tail k v d block offset
          else unlink_across tail k v d block)
      else unlink_single tail k v d block offset

-- pfs_fat32_unlink
unfoldable pub unlink : ℕ → List ℕ → Caches → Mount → FatFile → Option Mount
unlink fuel tail k m f = do
  (b, d1) ← get_block k m.volume m.disk f.source
  d2 ← unlink_dir_entry tail k m.volume d1 f b
  (v, s) ← unlink_chain k.fat_max_count fuel m.volume (fat_store d2) f.next_cluster
  some (record m { volume = v; disk = with_fat_store d2 s })

-- pfs_fat32_rmdir
unfoldable pub rmdir : List ℕ → Caches → Mount → FatFile → Option Mount
rmdir tail k m f = do
  (b, d1) ← get_block k m.volume m.disk f.source
  d2 ← unlink_dir_entry tail k m.volume d1 f b
  (more, next_cluster, v, s) ←
      unlink_fat_entry_chain k.fat_max_count m.volume (fat_store d2) f.next_cluster
  some (record m { volume = v; disk = with_fat_store d2 s })

-- The file with a new name in its entries.
unfoldable pub renamed : FatFile → FileName → Option FatFile
renamed f n = do
  l ←
      if is_long f.long_entry.ldir_attr
      then load_long_entry_filename f.long_entry n.utf16 n.utf16_length
      else some f.long_entry
  some (record f {
    short_entry = load_entry_filename n.toupper f.short_entry n.name n.name_length n.extension;
    long_entry = l;
  })

-- Both entries written to the block of a directory, or the short one to the next block.
unfoldable pub rename_pair : Caches → Volume → Disk → FatFile → Block → Option Disk
rename_pair k v d f block = do
  c1 ← copy_to block.content f.source_offset (long_bytes f.long_entry)
  let across = (do
    (aux, d1) ← following_block k v d block
    a ← copy_to aux.content 0 (short_bytes f.short_entry)
    d2 ← put_without_file k v d1 (record aux { content = a })
    put_without_file k v d2 (record block { content = c1 }))
  let inside = (do
    c2 ← copy_to c1 (f.source_offset + 32) (short_bytes f.short_entry)
    put_without_file k v d (record block { content = c2 }))
  if leb (bpc v) (f.source_offset + 32) then across else inside

unfoldable pub rename_single : Caches → Volume → Disk → FatFile → Block → Option Disk
rename_single k v d f block = do
  c ← copy_to block.content f.source_offset (short_bytes f.short_entry)
  put_without_file k v d (record block { content = c })

-- pfs_fat32_rename
unfoldable pub rename : Caches → Volume → Disk → FatFile → FileName → Option (FatFile × Disk)
rename k v d f n = do
  (b, d1) ← get_block k v d f.source
  f1 ← renamed f n
  let pair = (do d2 ← rename_pair k v d1 f1 b; some (f1, d2))
  let single = (do d2 ← rename_single k v d1 f1 b; some (f1, d2))
  if is_long f.long_entry.ldir_attr then pair else single
