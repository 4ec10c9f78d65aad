-- ===== src/Pfs/Tests/Names.antt =====
-- A date, and the name `abc.txt` in a short and in a long entry.
use grage.Prelude.{
  ℕ, none, some, List, [], ◌∷◌, ◌++◌, take, ◌≡◌, ◌+◌, ◌-◌, ◌<◌, ◌≢◌, if◌then◌else◌, ltb, arith,
}
use grage.Pfs.Dates.{Tm}
use grage.Pfs.LongName.{LongDirEntry, fetch_char}
use grage.Pfs.Directory.{get_file_name}
use grage.Pfs.Directory.Entries.{get_file_name-overruns}

abbrev pub noon : Tm
noon = record { sec = 31; min = 59; hour = 12; mday = 15; mon = 11; year = 111 }

abbrev pub letters : ℕ → ℕ
letters i = 97 + i

abbrev pub long_entry : LongDirEntry
long_entry = record {
  ldir_ord = 0;
  ldir_attr = 0;
  ldir_type = 0;
  ldir_chksum = 0;
  ldir_fst_clus_lo = 0;
  ldir_name1 = λ i. 7;
  ldir_name2 = λ i. 7;
  ldir_name3 = λ i. 7;
}

abbrev pub toupper : ℕ → ℕ
toupper c = if ltb 96 c then c - 32 else c

letters_no_space : (i : ℕ) → i < 3 → toupper (letters i) ≢ 32
letters_no_space i b e = ground (arith, e)

-- The room of the library's conversion, for characters of one byte.
abbrev ascii : ℕ → List ℕ → List ℕ
ascii room l = take room (l ++ (0 ∷ []))

get_file_name-overruns_example :
    (((j : ℕ) → j < 13 → fetch_char long_entry j ≢ 0) → get_file_name ascii long_entry ≡ none)
    × ((j : ℕ)
        → j < 13
        → fetch_char long_entry j ≡ 0
        → (name : List ℕ) × (get_file_name ascii long_entry ≡ some name))
get_file_name-overruns_example = get_file_name-overruns ascii long_entry
