-- ===== src/Pfs/Open/Found.antt =====
-- Which entries pfs_fat32_open takes for a name in the root directory.
use grage.Prelude.{
  ℕ, zero, suc, ◌+◌, ◌≤◌, ◌≡◌, refl, true, false, Option, some, List, [], ◌∷◌, ◌==◌, if◌then◌else◌,
  none, ==_iff, get_or, take, drop,
}
use grage.Commons.Strings.{string_equals}
use grage.Pfs.Volume.{Volume, DirEntry, get_first_cluster}
use grage.Pfs.Block.{Block}
use grage.Pfs.Seek.{FatFile, bpc}
use grage.Pfs.Mknod.{Disk, Caches}
use grage.Pfs.Files.{is_long}
use grage.Pfs.Directory.{short_of, long_of, get_file_name, c_string}
use grage.Pfs.ShortName.{get_short_name}
use grage.Pfs.Open.{Search, empty_file}

-- The 32 bytes at an offset, and the name and the step of the search there.
abbrev pub entry_at : List ℕ → ℕ → List ℕ
entry_at content o = take 32 (drop o content)

abbrev pub name_at : (ℕ → List ℕ → List ℕ) → List ℕ → ℕ → Option (List ℕ)
name_at utf8 content o =
    if is_long (get_or (entry_at content o) 11 0)
    then get_file_name utf8 (long_of (entry_at content o))
    else some (c_string (get_short_name (short_of (entry_at content o))))

-- A name that was read, and is another one.
abbrev pub IsOther : List ℕ → Option (List ℕ) → Type 0
IsOther token none = ⊥
IsOther token (some x) = string_equals token x ≡ false

pub string_equals_self : (s : List ℕ) → string_equals s s ≡ true
string_equals_self [] = refl
string_equals_self (x ∷ xs) = rw ((==_iff x x).1 refl, string_equals_self xs) refl

abbrev pub step_at : List ℕ → ℕ → ℕ
step_at content o = if is_long (get_or (entry_at content o) 11 0) then 64 else 32

-- From an offset, `n` rounds of the search pass other names of the block and come to `o'`.
abbrev pub Passes : (ℕ → List ℕ → List ℕ) → List ℕ → List ℕ → ℕ → ℕ → ℕ → Type 0
Passes utf8 token content zero o o' = o ≡ o'
Passes utf8 token content (suc n) o o' =
    (o + 32 ≤ 4096)
    × ((get_or (entry_at content o) 0 0 == 0) ≡ false)
    × IsOther token (name_at utf8 content o)
    × Passes utf8 token content n (o + step_at content o) o'

-- A long entry with the name stands at the offset.
abbrev pub IsNamed : (ℕ → List ℕ → List ℕ) → List ℕ → List ℕ → ℕ → Type 0
IsNamed utf8 token content o =
    (o + 64 ≤ 4096)
    × ((get_or (entry_at content o) 0 0 == 0) ≡ false)
    × (is_long (get_or (entry_at content o) 11 0) ≡ true)
    × (get_file_name utf8 (long_of (entry_at content o)) ≡ some token)

module _ (utf8 : ℕ → List ℕ → List ℕ) (k : Caches) (v : Volume) (d : Disk) (token : List ℕ)
    (w : bpc v ≡ 4096) where
  -- What the search ends with, but for the short entry that it read last.
  abbrev Ends : Block → ℕ → Option (Option Search × Disk) → Type 0
  Ends b o r =
      (e : DirEntry) × (r
        ≡ some (
          some (record {
            block = b;
            offset = o + 64;
            long_entry = long_of (entry_at b.content o);
            short_entry = e;
          }),
          d,
        ))

-- The file that is opened for long entries at an offset of the root directory.
abbrev pub file_at : Volume → List ℕ → ℕ → DirEntry → FatFile
file_at v content o e = record empty_file {
  source = v.root;
  source_offset = o;
  long_entry = long_of (entry_at content o);
  short_entry = e;
  next_cluster = get_first_cluster e;
  dir_type = 1;
}
