-- ===== src/Pfs/Directory.antt =====
-- pfs_fat32_readDirectory of grage-pfs/app/src/core/pfs-fat32.c, and pfs_fat32_isDirectoryEmpty,
-- pfs_fat32_utils_toDirent, pfs_fat_utils_getFileName and pfs_fat32_utils_fileStat of
-- pfs-fat-utils.c. The conversion to UTF-8 of the ICU library is an argument. A read outside of a
-- block is `none`, and the loops have fuel.
pub mod Empty
pub mod Entries
use grage.Prelude.{
  ℕ, zero, suc, ◌+◌, ◌-◌, ◌*◌, ◌/◌, ◌%◌, Bool, true, false, Option, none, some, List, [], ◌∷◌, ◌==◌,
  if◌then◌else◌, ◌>>=◌, leb, take, drop, get_or,
}
use grage.Nipc.Wire.Bytes.{of_le}
use grage.Ppd.Persistence.{copy_from}
use grage.Pfs.Volume.{Volume, DirEntry, get_first_cluster}
use grage.Pfs.Fat.{is_eoc}
use grage.Pfs.Block.{Block}
use grage.Pfs.Dates.{Tm, get_time}
use grage.Pfs.LongName.{LongDirEntry, get_name_length, extract_name}
use grage.Pfs.ShortName.{get_short_name}
use grage.Pfs.Seek.{FatFile, bpc}
use grage.Pfs.Mknod.{Disk, Caches, get_block, get_next, listed}
use grage.Pfs.Files.{is_long}

-- The 16-bit word at an offset.
abbrev word_at : List ℕ → ℕ → ℕ
word_at bytes i = of_le (take 2 (drop i bytes))

-- The entries that 32 bytes stand for.
abbrev pub short_of : List ℕ → DirEntry
short_of bytes = record {
  dir_name = λ i. get_or bytes i 0;
  attr = get_or bytes 11 0;
  nt_res = get_or bytes 12 0;
  crt_time_tenth = get_or bytes 13 0;
  crt_time = word_at bytes 14;
  crt_date = word_at bytes 16;
  lst_acc_date = word_at bytes 18;
  fst_clus_hi = word_at bytes 20;
  wrt_time = word_at bytes 22;
  wrt_date = word_at bytes 24;
  fst_clus_lo = word_at bytes 26;
  file_size = of_le (take 4 (drop 28 bytes));
}

abbrev pub long_of : List ℕ → LongDirEntry
long_of bytes = record {
  ldir_ord = get_or bytes 0 0;
  ldir_attr = get_or bytes 11 0;
  ldir_type = get_or bytes 12 0;
  ldir_chksum = get_or bytes 13 0;
  ldir_fst_clus_lo = word_at bytes 26;
  ldir_name1 = λ i. word_at bytes (1 + 2 * i);
  ldir_name2 = λ i. word_at bytes (14 + 2 * i);
  ldir_name3 = λ i. word_at bytes (28 + 2 * i);
}

-- The bytes of an array up to the first zero.
unfoldable pub c_string : List ℕ → List ℕ
c_string [] = []
c_string (c ∷ cs) = if c == 0 then [] else c ∷ c_string cs

-- unicode_utf16_to_utf8_inbuffer: what its array holds after it. The conversion is that of the ICU
-- library, by the room that it is told of; whether it failed is not looked at.
unfoldable pub unicode_utf16_to_utf8_inbuffer : (ℕ → List ℕ → List ℕ) → List ℕ → ℕ → List ℕ
unicode_utf16_to_utf8_inbuffer utf8 src size = utf8 (size + 1) src

-- pfs_fat_utils_getFileName, whose array has 13 words; a word that is not set is read nowhere.
unfoldable pub get_file_name : (ℕ → List ℕ → List ℕ) → LongDirEntry → Option (List ℕ)
get_file_name utf8 l = do
  let length = get_name_length l
  name ← extract_name 13 l (λ i. 0) length
  some (c_string (unicode_utf16_to_utf8_inbuffer utf8 (listed (length - 1) 0 name) (length - 1)))

-- struct dirent: its name, its number, and whether its type is that of a directory
pub record Dirent : Type 0 where
  pub d_name : List ℕ
  pub d_ino : ℕ
  pub is_directory : Bool

-- pfs_fat32_utils_toDirent
unfoldable pub to_dirent : (ℕ → List ℕ → List ℕ) → DirEntry → Option LongDirEntry → Option Dirent
to_dirent utf8 d l = do
  name ← elim l [ none ↦ some (c_string (get_short_name d)) | some e ↦ get_file_name utf8 e ]
  some (record { d_name = name; d_ino = get_first_cluster d; is_directory = d.attr == 16 })

-- The loop of pfs_fat32_isDirectoryEmpty.
unfoldable pub empty_from : ℕ → Caches → Volume → Disk → Block → ℕ → Option (Bool × Disk)
empty_from zero k v d block offset = none
empty_from (suc fuel) k v d block offset = do
  entry ← copy_from block.content offset 32
  let offset' = offset + (if is_long (get_or entry 11 0) then 64 else 32)
  let onward = empty_from fuel k v d block offset'
  let next_block = (do
    (c, d1) ← get_next k v d block.id
    (b, d2) ← get_block k v d1 c
    empty_from fuel k v d2 b 0)
  if get_or entry 0 0 == 229
      then (if leb (bpc v) offset' then next_block else onward)
      else some (get_or entry 0 0 == 0, d)

-- pfs_fat32_isDirectoryEmpty
unfoldable pub is_directory_empty : ℕ → Caches → Volume → Disk → FatFile → Option (Bool × Disk)
is_directory_empty fuel k v d f = do
  (b, d1) ← get_block k v d f.next_cluster
  empty_from fuel k v d1 b 64

-- The loop of pfs_fat32_readDirectory, which stays in its block: the entry that is in use, or `none`
-- where it fails at the end of the chain.
unfoldable pub next_used :
    ℕ → Caches → Volume → Disk → Block → FatFile → Option (Option (List ℕ) × FatFile × Disk)
next_used zero k v d block f = none
next_used (suc fuel) k v d block f = do
  entry ← copy_from block.content f.dir_entry_offset 32
  let f1 = record f { dir_entry_offset = f.dir_entry_offset + 32 }
  let again = next_used fuel k v d block f1
  let stays = if get_or entry 0 0 == 229 then again else some (some entry, f1, d)
  let moves = (do
    (c, d1) ← get_next k v d f.next_cluster
    let f2 = record f { next_cluster = c; dir_entry_offset = 0 }
    let more = next_used fuel k v d1 block f2
    if get_or entry 0 0 == 229 then more else some (some entry, f2, d1))
  if leb (bpc v) (f.dir_entry_offset + 32)
      then (if is_eoc f.next_cluster then some (none, f1, d) else moves)
      else stays

-- The block where pfs_fat32_readDirectory starts.
unfoldable pub directory_block : Caches → Volume → Disk → FatFile → Option (Block × FatFile × Disk)
directory_block k v d f =
    let moves = (do
      (c, d1) ← get_next k v d f.next_cluster
      (b, d2) ← get_block k v d1 c
      some (b, record f { next_cluster = c; dir_entry_offset = 0 }, d2)) in
    let stays = (do
      (b, d1) ← get_block k v d (if f.dir_type == 0 then f.source else f.next_cluster)
      some (b, f, d1)) in
    if leb (bpc v) f.dir_entry_offset then moves else stays

-- What pfs_fat32_readDirectory makes of the entry that it found.
unfoldable pub dirent_of :
    (ℕ → List ℕ → List ℕ) → Block → List ℕ → FatFile → Option (Option Dirent × FatFile)
dirent_of utf8 block entry f =
    let long = (do
      short_entry ← copy_from block.content f.dir_entry_offset 32
      e ← to_dirent utf8 (short_of short_entry) (some (long_of entry))
      some (some e, record f { dir_entry_offset = f.dir_entry_offset + 32 })) in
    let short = (do
      short_entry ←
          if leb 32 f.dir_entry_offset
          then copy_from block.content (f.dir_entry_offset - 32) 32
          else none
      e ← to_dirent utf8 (short_of short_entry) none
      some (some e, f)) in
    if is_long (get_or entry 11 0)
    then long
    else (if get_or entry 0 0 == 0 then some (none, f) else short)

-- pfs_fat32_readDirectory: the entry, or `none` where it fails, the directory and the disk.
unfoldable pub read_directory :
    ℕ
    → (ℕ → List ℕ → List ℕ)
    → Caches
    → Volume
    → Disk
    → FatFile
    → Option (Option Dirent × FatFile × Disk)
read_directory fuel utf8 k v d f = do
  (b, f1, d1) ← directory_block k v d f
  (found, f2, d2) ← next_used fuel k v d1 b f1
  let at_end = some (none, f2, d2)
  elim found [
    | none ↦ at_end
    | some entry ↦ do (e, f3) ← dirent_of utf8 b entry f2; some (e, f3, d2)
  ]

-- struct stat: the fields that are set from the volume and the file; the three times are one.
pub record Stat : Type 0 where
  pub st_ino : ℕ
  pub is_dir : Bool
  pub st_size : ℕ
  pub st_blocks : ℕ
  pub st_blksize : ℕ
  pub time : Option Tm

-- pfs_fat32_utils_fileStat, where a time of zero is `none`
unfoldable pub file_stat : Volume → FatFile → Stat
file_stat v f =
    let e = f.short_entry in
    if f.dir_type == 0
    then record {
      st_ino = v.root;
      is_dir = true;
      st_size = 0;
      st_blocks = 0;
      st_blksize = bpc v;
      time = none;
    }
    else record {
      st_ino = get_first_cluster e;
      is_dir = e.attr == 16;
      st_size = e.file_size;
      st_blocks = e.file_size / v.bps + (if e.file_size % v.bps == 0 then 0 else 1);
      st_blksize = bpc v;
      time = some (get_time (e.wrt_date, e.wrt_time));
    }
