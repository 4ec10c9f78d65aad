-- ===== src/Pfs/Mknod.antt =====
-- pfs_fat32_mknod of grage-pfs/app/src/core/pfs-fat32.c: a new file in a directory. It takes the
-- date of the C library, the characters of the name and the two entries as they are before they are
-- filled. It is `none` where the code reads or writes outside of a block, does not end, or takes the
-- cache of no file.
pub mod Slots
use grage.Prelude.{
  ℕ, zero, suc, ◌+◌, ◌-◌, ◌*◌, Bool, true, false, not, Option, none, some, List, [], ◌∷◌, ◌++◌,
  ◌==◌, ◌&&◌, ◌||◌, if◌then◌else◌, ◌>>=◌, leb, ltb, get_or,
}
use grage.Commons.LinkedList.{LinkedList}
use grage.Nipc.Wire.Bytes.{le_bytes}
use grage.Ppd.Persistence.{copy_to}
use grage.Pfs.Volume.{Volume, DirEntry, get_first_cluster}
use grage.Pfs.Cache.{CacheSectorRecord, Store}
use grage.Pfs.Fat.{is_eoc, get_next_cluster_in_chain}
use grage.Pfs.Block.{Block, call_get_block, call_put_block}
use grage.Pfs.Dates.{Tm, fill_time}
use grage.Pfs.LongName.{LongDirEntry, load_long_entry_filename}
use grage.Pfs.ShortName.{load_entry_filename}
use grage.Pfs.Seek.{bpc}

-- The device, the cache of the table and the cache of the directory.
pub record Disk : Type 0 where
  pub sectors : ℕ → List ℕ
  pub fat_cache : LinkedList CacheSectorRecord
  pub file_cache : LinkedList CacheSectorRecord

-- The sizes of the two caches, and whether the cache of files is on.
pub record Caches : Type 0 where
  pub fat_max_count : ℕ
  pub file_max_count : ℕ
  pub habilitada : Bool

abbrev pub file_store : Disk → Store
file_store d = record { device = d.sectors; cache = d.file_cache }

abbrev pub with_file_store : Disk → Store → Disk
with_file_store d s = record d { sectors = s.device; file_cache = s.cache }

-- The request for a block, and that for the next cluster, on a disk.
unfoldable pub get_block : Caches → Volume → Disk → ℕ → Option (Block × Disk)
get_block k v d n = do
  (b, s) ← call_get_block k.habilitada v k.file_max_count (file_store d) n
  some (b, with_file_store d s)

unfoldable pub get_next : Caches → Volume → Disk → ℕ → Option (ℕ × Disk)
get_next k v d n = do
  (c, s) ←
      get_next_cluster_in_chain k.fat_max_count v
        (record { device = d.sectors; cache = d.fat_cache }) n
  some (c, record d { sectors = s.device; fat_cache = s.cache })

-- FAT_32_DIRENT_ISFREE, of the first byte of an entry
abbrev pub is_free_entry : List ℕ → ℕ → Bool
is_free_entry content offset = (get_or content offset 1 == 229) || (get_or content offset 1 == 0)

-- The loops that look for 64 free bytes, with fuel for their rounds: the number of the block that they
-- come to, the block, and the offset behind those bytes.
unfoldable pub search : ℕ → Caches → Volume → Disk → ℕ → Block → ℕ → Option (ℕ × Block × ℕ × Disk)
search zero k v d block_number block offset = none
search (suc fuel) k v d block_number block offset =
    let onward = search fuel k v d block_number block (offset + 32) in
    let again = search fuel k v d block_number block (offset + 64) in
    let next_block = (do
      (n, d1) ← get_next k v d block_number
      let stays = search fuel k v d1 n block (offset + 32)
      let moves = (do (b, d2) ← get_block k v d1 n; search fuel k v d2 n b 0)
      if is_eoc n then stays else moves) in
    if leb (offset + 32) 4096
    then (if is_free_entry block.content offset
        then (if leb (offset + 64) 4096
            then (if is_free_entry block.content (offset + 32)
                then some (block_number, block, offset + 64, d)
                else again)
            else none)
        else (if leb (bpc v) (offset + 32) then next_block else onward))
    else none

-- The bytes of an array, and those of an array of 16-bit words.
abbrev pub listed : ℕ → ℕ → (ℕ → ℕ) → List ℕ
listed zero i f = []
listed (suc n) i f = (f i) ∷ listed n (i + 1) f

abbrev pub listed16 : ℕ → ℕ → (ℕ → ℕ) → List ℕ
listed16 zero i f = []
listed16 (suc n) i f = le_bytes 2 (f i) ++ listed16 n (i + 1) f

-- The 32 bytes of each kind of entry.
abbrev pub short_bytes : DirEntry → List ℕ
short_bytes e =
    listed 11 0 e.dir_name
    ++ (e.attr
        ∷ e.nt_res
        ∷ e.crt_time_tenth
        ∷ (le_bytes 2 e.crt_time
            ++ (le_bytes 2 e.crt_date
                ++ (le_bytes 2 e.lst_acc_date
                    ++ (le_bytes 2 e.fst_clus_hi
                        ++ (le_bytes 2 e.wrt_time
                            ++ (le_bytes 2 e.wrt_date
                                ++ (le_bytes 2 e.fst_clus_lo ++ le_bytes 4 e.file_size))))))))

abbrev pub long_bytes : LongDirEntry → List ℕ
long_bytes e =
    e.ldir_ord
    ∷ (listed16 5 0 e.ldir_name1
        ++ (e.ldir_attr
            ∷ e.ldir_type
            ∷ e.ldir_chksum
            ∷ (listed16 6 0 e.ldir_name2
                ++ (le_bytes 2 e.ldir_fst_clus_lo ++ listed16 2 0 e.ldir_name3))))

-- What the code takes from the name of the file: `toupper`, the name and the extension that `strtok`
-- finds, and the characters of UTF-16.
pub record FileName : Type 0 where
  pub toupper : ℕ → ℕ
  pub name : ℕ → ℕ
  pub name_length : ℕ
  pub extension : Option (ℕ → ℕ)
  pub utf16 : ℕ → ℕ
  pub utf16_length : ℕ

-- The entries that pfs_fat32_mknod fills.
unfoldable pub new_long_entry : LongDirEntry → FileName → Option LongDirEntry
new_long_entry e f = do
  l ← load_long_entry_filename (record e { ldir_ord = 65 }) f.utf16 f.utf16_length
  some (record l { ldir_attr = 15 })

unfoldable pub new_short_entry : DirEntry → FileName → Tm → DirEntry
new_short_entry e f t =
    let (date, time) = fill_time t in
    record (load_entry_filename f.toupper e f.name f.name_length f.extension) {
      wrt_date = date;
      wrt_time = time;
      crt_date = date;
      crt_time = time;
      lst_acc_date = date;
      crt_time_tenth = 0;
      attr = 0;
      file_size = 0;
      fst_clus_hi = 0;
      fst_clus_lo = 0;
    }

-- pfs_fat32_utils_callPutBlock without a file: with the cache on it takes the cache of no file.
unfoldable pub put_without_file : Caches → Volume → Disk → Block → Option Disk
put_without_file k v d block = if k.habilitada && not (block.id == v.root) then none else (do
  s ← call_put_block k.habilitada v k.file_max_count (file_store d) block
  some (with_file_store d s))

-- The two copies into the block, and the block written.
unfoldable pub write_entries :
    Caches → Volume → Disk → Block → ℕ → LongDirEntry → DirEntry → Option Disk
write_entries k v d block offset long_entry short_entry = do
  c1 ← copy_to block.content (offset - 64) (long_bytes long_entry)
  c2 ← copy_to c1 (offset - 32) (short_bytes short_entry)
  put_without_file k v d (record block { content = c2 })

-- pfs_fat32_mknod, in the root directory, whose cluster is `source`, or in another one
unfoldable pub mknod :
    ℕ
    → Caches
    → Volume
    → Disk
    → Bool
    → ℕ
    → DirEntry
    → FileName
    → Tm
    → LongDirEntry
    → DirEntry
    → Option Disk
mknod fuel k v d is_root source destination f t long_entry short_entry = do
  let block_number = if is_root then source else get_first_cluster destination
  (b, d1) ← get_block k v d block_number
  (n, b', offset, d2) ← search fuel k v d1 block_number b 0
  l ← new_long_entry long_entry f
  write_entries k v d2 b' offset l (new_short_entry short_entry f t)
