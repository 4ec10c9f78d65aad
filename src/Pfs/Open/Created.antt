-- ===== src/Pfs/Open/Created.antt =====
-- A file that pfs_fat32_mknod made is one that pfs_fat32_open finds.
use grage.Prelude.{
  ℕ, ◌+◌, ◌^◌, ◌<◌, ◌≤◌, ◌≡◌, ◌≢◌, Option, none, some, List, [], if◌then◌else◌, length, get_or,
}
use grage.Splice.{spliced}
use grage.Pfs.Volume.{Volume, DirEntry}
use grage.Pfs.Cache.{Store}
use grage.Pfs.Block.{Block}
use grage.Pfs.LongName.{with_chars, LongDirEntry}
use grage.Pfs.ShortName.{get_short_name}
use grage.Pfs.Mknod.{FileName, long_bytes, short_bytes, listed}
use grage.Pfs.Files.{is_long}
use grage.Pfs.Directory.{short_of, long_of, c_string, get_file_name}

-- The name and the step that the search takes from an entry.
abbrev name_in : (ℕ → List ℕ → List ℕ) → List ℕ → Option (List ℕ)
name_in utf8 e =
    if is_long (get_or e 11 0)
    then get_file_name utf8 (long_of e)
    else some (c_string (get_short_name (short_of e)))

abbrev step_in : List ℕ → ℕ
step_in e = if is_long (get_or e 11 0) then 64 else 32

-- A new long entry for a name that it has room for.
abbrev named_entry : LongDirEntry → FileName → LongDirEntry
named_entry e f = record (with_chars (record e { ldir_ord = 65 }) f.utf16 f.utf16_length) {
  ldir_attr = 15;
}

-- The content of a block with two entries, where these stand.
module _ (c : List ℕ) (o : ℕ) (l : LongDirEntry) (s : DirEntry) (fits : o + 64 ≤ length c) where
  abbrev both : List ℕ
  both = spliced (spliced c o (long_bytes l)) (o + 32) (short_bytes s)

-- The characters of a name as a new long entry takes them, and the name that is looked for.
abbrev pub IsNameOf : (ℕ → List ℕ → List ℕ) → FileName → List ℕ → Type 0
IsNameOf utf8 f name =
    (f.utf16_length < 13)
    × ((j : ℕ) → j < f.utf16_length → f.utf16 j ≢ 0)
    × ((j : ℕ) → j < f.utf16_length → f.utf16 j < 2 ^ 16)
    × (c_string (utf8 (f.utf16_length + 1) (listed f.utf16_length 0 f.utf16)) ≡ name)

content_in : Option (Block × Store) → List ℕ
content_in none = []
content_in (some (b, s)) = b.content
