-- ===== src/Pfs/Paths.antt =====
-- pfs_fat32_utils_getDirNameFromPath and pfs_fat32_utils_getFileNameFromPath of
-- grage-pfs/app/src/core/pfs-fat-utils.c: a path is cut at its last slash. A path without a slash, of
-- which both take the NULL that `strrchr` returns, is `none`.
use grage.Prelude.{
  ℕ, suc, true, Option, none, some, List, [], ◌∷◌, ◌++◌, ◌==◌, ◌≡◌, ◌≢◌, refl, if◌then◌else◌, ◌>>=◌,
  ne→==, ◌<◌, leb, le→leb, length, >>=-some, arith,
}

-- What stands before the last slash, and behind it.
unfoldable pub cut_path : List ℕ → Option (List ℕ × List ℕ)
cut_path [] = none
cut_path (c ∷ cs) =
    let here : Option (List ℕ × List ℕ) = if c == 47 then some ([], cs) else none in
    elim (cut_path cs) [ none ↦ here | some (before, behind) ↦ some (c ∷ before, behind) ]

-- pfs_fat32_utils_getDirNameFromPath, which leaves an empty string and a zero behind it where the
-- last slash is the first character. It copies the path to an array of `room` characters first;
-- `none` is a write behind its end.
unfoldable pub get_dir_name_from_path : ℕ → List ℕ → Option (List ℕ)
get_dir_name_from_path room path =
    let before = (do (dir, name) ← cut_path path; some dir) in
    if leb (suc (length path)) room then before else none

-- pfs_fat32_utils_getFileNameFromPath, into an array of `room` characters
unfoldable pub get_file_name_from_path : ℕ → List ℕ → Option (List ℕ)
get_file_name_from_path room path = do
  (before, behind) ← cut_path path
  if leb (suc (length behind)) room then some behind else none

abbrev pub NoSlash : List ℕ → Type 0
NoSlash [] = Unit {0}
NoSlash (c ∷ cs) = (c ≢ 47) × NoSlash cs

cut_path-none : (name : List ℕ) → NoSlash name → cut_path name ≡ none
unfolding cut_path
cut_path-none [] h = refl
cut_path-none (c ∷ cs) (z, h) = rw (cut_path-none cs h, ne→== c 47 z) refl

cut_path-append :
    (dir name : List ℕ) → NoSlash name → cut_path (dir ++ (47 ∷ name)) ≡ some (dir, name)
unfolding cut_path
cut_path-append [] name h = rw (cut_path-none name h) refl
cut_path-append (c ∷ cs) name h = rw (cut_path-append cs name h) refl

-- A directory, a slash and a name without a slash are the path whose directory and name are these,
-- if the path and the name fit their arrays with the zero behind them.
pub from_path_lem :
    (dir name : List ℕ) (dir_room room : ℕ)
    → NoSlash name
    → length (dir ++ (47 ∷ name)) < dir_room
    → length name < room
    → (get_dir_name_from_path dir_room (dir ++ (47 ∷ name)) ≡ some dir)
      × (get_file_name_from_path room (dir ++ (47 ∷ name)) ≡ some name)
unfolding get_dir_name_from_path get_file_name_from_path
from_path_lem dir name dir_room room h d r =
    let long : leb (suc (length (dir ++ (47 ∷ name)))) dir_room ≡ true =
      le→leb (suc (length (dir ++ (47 ∷ name)))) dir_room (omega arith) in
    let short : leb (suc (length name)) room ≡ true =
      le→leb (suc (length name)) room (omega arith) in
    (
      rw long (>>=-some _ (cut_path-append dir name h) refl),
      >>=-some _ (cut_path-append dir name h) (rw short refl),
    )
