-- ===== src/Pfs/Open.antt =====
-- pfs_fat32_open of grage-pfs/app/src/core/pfs-fat32.c: a file by its path. The conversion to UTF-8 of
-- the ICU library is an argument, and the search in a directory has fuel. The list of open files,
-- which no other function reads, is left out.
pub mod Found
pub mod Created
use grage.Prelude.{
  ℕ, zero, suc, ◌+◌, ◌-◌, ◌%◌, ◌^◌, Bool, true, false, Option, none, some, List, [], ◌∷◌, ◌==◌,
  ◌||◌, if◌then◌else◌, ◌>>=◌, leb, ltb, get_or,
}
use grage.Ppd.Persistence.{copy_from}
use grage.Commons.Strings.{string_equals, tokenize}
use grage.Pfs.Volume.{Volume, DirEntry, get_first_cluster}
use grage.Pfs.Fat.{is_eoc}
use grage.Pfs.Block.{Block}
use grage.Pfs.LongName.{LongDirEntry}
use grage.Pfs.ShortName.{get_short_name}
use grage.Pfs.Seek.{FatFile, bpc}
use grage.Pfs.Mknod.{Disk, Caches, get_block, get_next}
use grage.Pfs.Files.{is_long}
use grage.Pfs.Directory.{short_of, long_of, c_string, get_file_name}

-- A file as `calloc` leaves it.
abbrev pub empty_file : FatFile
empty_file = record {
  source = 0;
  source_offset = 0;
  next_cluster = 0;
  short_entry = short_of [];
  long_entry = long_of [];
  dir_entry_offset = 0;
  dir_type = 0;
  eoc = 0;
  file_cluster_number = 0;
  file_cluster_offset = 0;
  file_absolute_cluster_number_read = 0;
  file_absolute_cluster_number_write = 0;
}

-- A file that is opened has a cache of its own.
abbrev pub fresh_cache : Disk → Disk
fresh_cache d = record d { file_cache = record { elements = []; size = 0 } }

-- pfs_fat32_utils_openRootDirectory
unfoldable pub open_root_directory : Caches → Volume → Disk → Option (FatFile × Disk)
open_root_directory k v d = do
  (c, d1) ← get_next k v (fresh_cache d) v.root
  some (record empty_file { source = v.root; next_cluster = if is_eoc c then 0 else c }, d1)

-- Where a search stands: its block and offset, and the last entries that it read.
pub record Search : Type 0 where
  pub block : Block
  pub offset : ℕ
  pub long_entry : LongDirEntry
  pub short_entry : DirEntry

-- What a round reads at an offset inside a cluster: the name, and where the search stands then.
unfoldable pub read_name : (ℕ → List ℕ → List ℕ) → Search → List ℕ → Option (List ℕ × Search)
read_name utf8 s entry =
    let long = (do
      name ← get_file_name utf8 (long_of entry)
      some (name, record s { long_entry = long_of entry; offset = s.offset + 64 })) in
    let short = some (
      c_string (get_short_name (short_of entry)),
      record s { long_entry = long_of entry; short_entry = short_of entry; offset = s.offset + 32 },
    ) in
    if is_long (get_or entry 11 0) then long else short

-- The loop that looks for a name: where it ends, or `none` at the end of the directory. A round that
-- goes to the next block keeps the last name, which is not the one looked for.
unfoldable pub search_name :
    ℕ
    → (ℕ → List ℕ → List ℕ)
    → Caches
    → Volume
    → Disk
    → List ℕ
    → Search
    → Option (Option Search × Disk)
search_name zero utf8 k v d token s = none
search_name (suc fuel) utf8 k v d token s =
    let inside = (do
      entry ← copy_from s.block.content s.offset 32
      (name, s') ← read_name utf8 s entry
      let onward = search_name fuel utf8 k v d token s'
      if get_or entry 0 0 == 0
          then some (none, d)
          else (if string_equals token name then some (some s', d) else onward)) in
    let next_block = (do
      (c, d1) ← get_next k v d s.block.id
      (b, d2) ← get_block k v d1 c
      search_name fuel utf8 k v d2 token (record s { block = b; offset = 0 })) in
    if ltb s.offset (bpc v) then inside else next_block

-- The short entry of the name that was found, and the offset of its entries.
unfoldable pub found_entry : Caches → Volume → Disk → Search → Option (Search × Disk)
found_entry k v d s =
    let beyond = (do
      (c, d1) ← get_next k v d s.block.id
      (b, d2) ← get_block k v d1 c
      entry ← copy_from b.content 0 32
      some (record s { short_entry = short_of entry; offset = s.offset - 64 }, d2)) in
    let pair = (do
      entry ← copy_from s.block.content (s.offset - 32) 32
      some (record s { short_entry = short_of entry; offset = s.offset - 64 }, d)) in
    if leb (bpc v) s.offset
    then beyond
    else (if is_long s.long_entry.ldir_attr then pair else some (s, d))

-- The loop over the names of a path, from the directory in cluster `next`: the file with the place
-- of its entries, or `none` where a name is not found.
unfoldable pub open_each :
    ℕ
    → (ℕ → List ℕ → List ℕ)
    → Caches
    → Volume
    → Disk
    → List (List ℕ)
    → ℕ
    → Search
    → FatFile
    → Option (Option (FatFile × ℕ) × Disk)
open_each fuel utf8 k v d [] next s f = some (some (f, s.offset), d)
open_each fuel utf8 k v d (t ∷ []) next s f = do
  (found, d1) ← search_name fuel utf8 k v d t (record s { offset = 0 })
  let missing = some (none, d1)
  elim found [
    | none ↦ missing
    | some s1 ↦ do
      (s2, d2) ← found_entry k v d1 s1
      some (
        some (
          record f { long_entry = s2.long_entry; short_entry = s2.short_entry; source = next },
          s2.offset,
        ),
        d2,
      )
  ]
open_each fuel utf8 k v d (t ∷ u ∷ ts) next s f = do
  (found, d1) ← search_name fuel utf8 k v d t (record s { offset = 0 })
  let missing = some (none, d1)
  elim found [
    | none ↦ missing
    | some s1 ↦ do
      (s2, d2) ← found_entry k v d1 s1
      let f1 = record f { long_entry = s2.long_entry; short_entry = s2.short_entry; source = next }
      let next' = get_first_cluster s2.short_entry
      (b, d3) ← get_block k v d2 next'
      open_each fuel utf8 k v d3 (u ∷ ts) next' (record s2 { block = b }) f1
  ]

-- The file that is opened, from the offset where the last search ended.
abbrev pub opened : FatFile → ℕ → FatFile
opened f offset = record f {
  source_offset =
      if is_long f.long_entry.ldir_attr then offset else (offset + 2 ^ 32 - 32) % 2 ^ 32;
  next_cluster = get_first_cluster f.short_entry;
  dir_entry_offset = 0;
  dir_type = 1;
  eoc = 0;
}

-- pfs_fat32_utils_openNonRootDirectory; a path without names is an iterator over NULL.
unfoldable pub open_non_root_directory :
    ℕ → (ℕ → List ℕ → List ℕ) → Caches → Volume → Disk → List ℕ → Option (Option FatFile × Disk)
open_non_root_directory fuel utf8 k v d path = do
  (b, d1) ← get_block k v (fresh_cache d) v.root
  names ← tokenize path 47
  let s : Search = record {
    block = b;
    offset = 0;
    long_entry = long_of [];
    short_entry = short_of [];
  }
  (found, d2) ← open_each fuel utf8 k v d1 names v.root s empty_file
  let missing = some (none, d2)
  elim found [ none ↦ missing | some (f, offset) ↦ some (some (opened f offset), d2) ]

-- pfs_fat32_open, of a path with a character at least, or with two zeros
unfoldable pub open_path :
    ℕ → (ℕ → List ℕ → List ℕ) → Caches → Volume → Disk → List ℕ → Option (Option FatFile × Disk)
open_path fuel utf8 k v d path =
    let root = (do (f, d1) ← open_root_directory k v d; some (some f, d1)) in
    if string_equals (47 ∷ []) path || (get_or path 1 0 == 0)
    then root
    else open_non_root_directory fuel utf8 k v d path
