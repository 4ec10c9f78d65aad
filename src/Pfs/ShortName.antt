-- ===== src/Pfs/ShortName.antt =====
-- The name in a directory entry, pfs_fat32_utils_loadEntryFilename and
-- pfs_fat32_utils_getShortName of grage-pfs/app/src/core/pfs-fat-utils.c, and the entries of a new
-- directory, pfs_fat32_utils_fillDotEntry and pfs_fat32_utils_fillDotDotEntry. `toupper` and what
-- `strtok` finds, the name and the extension of a file name, are arguments.
use grage.Prelude.{
  ℕ, zero, suc, ◌+◌, ◌-◌, ◌<◌, ◌≤◌, ◌≡◌, ◌≢◌, refl, ap, sym, ◌∙◌, true, Option, none, some, List,
  [], ◌∷◌, ◌++◌, ◌==◌, ne→==, if◌then◌else◌, ltb, lt→ltb, arith,
}
use grage.Pfs.Volume.{DirEntry, get_first_cluster}

-- The first eight characters that pfs_fat32_utils_loadEntryFilename writes.
unfoldable pub base_name : (ℕ → ℕ) → (ℕ → ℕ) → ℕ → ℕ → ℕ
base_name toupper name length i =
    if length == 8
    then toupper (name i)
    else (if ltb length 8
        then (if ltb i length then toupper (name i) else 32)
        else (if ltb i 6 then toupper (name i) else (if i == 6 then 126 else 49)))

-- The three characters behind them.
unfoldable pub extension_name : (ℕ → ℕ) → Option (ℕ → ℕ) → ℕ → ℕ
extension_name toupper none i = 32
extension_name toupper (some extension) i = toupper (extension i)

-- pfs_fat32_utils_loadEntryFilename, for a name of `length` characters
unfoldable pub load_entry_filename : (ℕ → ℕ) → DirEntry → (ℕ → ℕ) → ℕ → Option (ℕ → ℕ) → DirEntry
load_entry_filename toupper de name length extension = record de {
  dir_name = λ i.
      if ltb i 8
      then base_name toupper name length i
      else (if ltb i 11 then extension_name toupper extension (i - 8) else de.dir_name i);
}

-- The loop of pfs_fat32_utils_getShortName, for `k` indices from `i` on.
unfoldable pub short_base : ℕ → ℕ → (ℕ → ℕ) → List ℕ
short_base zero i name = []
short_base (suc k) i name =
    let rest = short_base k (i + 1) name in if name i == 32 then [] else name i ∷ rest

-- pfs_fat32_utils_getShortName: the bytes that it writes.
unfoldable pub get_short_name : DirEntry → List ℕ
get_short_name d =
    short_base 8 0 d.dir_name
    ++ (if d.dir_name 8 == 32
        then 0 ∷ []
        else 46
          ∷ (if d.dir_name 0 == 46
              then []
              else d.dir_name 8 ∷ d.dir_name 9 ∷ d.dir_name 10 ∷ 0 ∷ []))

-- pfs_fat32_utils_fillDotEntry
unfoldable pub fill_dot_entry : DirEntry → DirEntry → DirEntry
fill_dot_entry dot actual = record dot {
  crt_date = actual.crt_date;
  crt_time = actual.crt_time;
  wrt_date = actual.wrt_date;
  wrt_time = actual.wrt_time;
  lst_acc_date = actual.lst_acc_date;
  crt_time_tenth = actual.crt_time_tenth;
  fst_clus_hi = actual.fst_clus_hi;
  fst_clus_lo = actual.fst_clus_lo;
  file_size = actual.file_size;
  attr = actual.attr;
  dir_name = λ i. if i == 0 then 46 else (if ltb i 11 then 32 else dot.dir_name i);
}

-- The name that pfs_fat32_utils_fillDotDotEntry writes.
abbrev pub dot_dot : DirEntry → ℕ → ℕ
dot_dot d i = if ltb i 2 then 46 else (if ltb i 11 then 32 else d.dir_name i)

-- pfs_fat32_utils_fillDotDotEntry, where `none` is NULL
unfoldable pub fill_dot_dot_entry : DirEntry → Option DirEntry → DirEntry
fill_dot_dot_entry dotdot (some parent) = record dotdot {
  crt_date = parent.crt_date;
  crt_time = parent.crt_time;
  wrt_date = parent.wrt_date;
  wrt_time = parent.wrt_time;
  lst_acc_date = parent.lst_acc_date;
  crt_time_tenth = parent.crt_time_tenth;
  fst_clus_hi = parent.fst_clus_hi;
  fst_clus_lo = parent.fst_clus_lo;
  file_size = parent.file_size;
  attr = parent.attr;
  dir_name = dot_dot dotdot;
}
fill_dot_dot_entry dotdot none = record dotdot {
  crt_date = 0;
  crt_time = 0;
  wrt_date = 0;
  wrt_time = 0;
  lst_acc_date = 0;
  crt_time_tenth = 0;
  fst_clus_hi = 0;
  fst_clus_lo = 0;
  file_size = 0;
  attr = 16;
  dir_name = dot_dot dotdot;
}

-- The two entries of a new directory have the names `.` and `..`, and lead to the clusters of the
-- directory and of its parent, or to cluster 0 if the parent is the root.
pub fill_entries_lem :
    (dot dotdot actual parent : DirEntry)
    → (get_short_name (fill_dot_entry dot actual) ≡ 46 ∷ 0 ∷ [])
      × (get_first_cluster (fill_dot_entry dot actual) ≡ get_first_cluster actual)
      × (get_short_name (fill_dot_dot_entry dotdot (some parent)) ≡ 46 ∷ 46 ∷ 0 ∷ [])
      × (get_first_cluster (fill_dot_dot_entry dotdot (some parent)) ≡ get_first_cluster parent)
      × (get_short_name (fill_dot_dot_entry dotdot none) ≡ 46 ∷ 46 ∷ 0 ∷ [])
      × (get_first_cluster (fill_dot_dot_entry dotdot none) ≡ 0)
unfolding get_short_name short_base fill_dot_entry fill_dot_dot_entry get_first_cluster
fill_entries_lem dot dotdot actual parent = (refl, refl, refl, refl, refl, refl)

-- The characters of a name in upper case.
abbrev pub upper : (ℕ → ℕ) → ℕ → ℕ → (ℕ → ℕ) → List ℕ
upper toupper zero i name = []
upper toupper (suc k) i name = toupper (name i) ∷ upper toupper k (i + 1) name

short_base_lem :
    (toupper name stored : ℕ → ℕ) (m n i : ℕ)
    → n ≤ m
    → ((j : ℕ) → j < i + n → stored j ≡ toupper (name j))
    → ((j : ℕ) → j < i + n → toupper (name j) ≢ 32)
    → ((n < m) → stored (i + n) ≡ 32)
    → short_base m i stored ≡ upper toupper n i name
unfolding short_base
short_base_lem toupper name stored zero zero i h e u z = refl
short_base_lem toupper name stored zero (suc n) i h e u z = absurd (omega arith)
short_base_lem toupper name stored (suc m) zero i h e u z =
    let o : i + 0 ≡ i = omega arith in
    let w : stored i ≡ 32 = ap stored (sym o) ∙ z (omega arith) in rw (w) refl
short_base_lem toupper name stored (suc m) (suc n) i h e u z =
    let w : stored i ≡ toupper (name i) = e i (omega arith) in
    let o : i + 1 + n ≡ i + suc n = omega arith in
    rw (w, ne→== (toupper (name i)) 32 (u i (omega arith)))
      (ap (◌∷◌ (toupper (name i))) (
        short_base_lem toupper name stored m n (i + 1) (omega arith) (λ j b. e j (omega arith))
          (λ j b. u j (omega arith)) (λ b. ap stored o ∙ z (omega arith))))

base_name_lem :
    (toupper name : ℕ → ℕ) (length i : ℕ)
    → length ≤ 8
    → ((i < length) → base_name toupper name length i ≡ toupper (name i))
      × ((length < 8) → (i ≡ length) → base_name toupper name length i ≡ 32)
unfolding base_name
base_name_lem toupper name length i h = (λ a. ground arith, λ a b. ground arith)

-- A file name of one to eight characters, none of which is a space, and with no extension or one of
-- three characters, is what is read from the entry that it was written to, in upper case.
pub get_short_name-load_entry_filename :
    (toupper : ℕ → ℕ) (de : DirEntry) (name extension : ℕ → ℕ) (length : ℕ)
    → 0 < length
    → length ≤ 8
    → ((i : ℕ) → i < length → toupper (name i) ≢ 32)
    → toupper (name 0) ≢ 46
    → toupper (extension 0) ≢ 32
    → (get_short_name (load_entry_filename toupper de name length none)
        ≡ upper toupper length 0 name ++ (0 ∷ []))
      × (get_short_name (load_entry_filename toupper de name length (some extension))
          ≡ upper toupper length 0 name
            ++ (46
                ∷ toupper (extension 0)
                ∷ toupper (extension 1)
                ∷ toupper (extension 2)
                ∷ 0
                ∷ []))
unfolding get_short_name load_entry_filename extension_name
get_short_name-load_entry_filename toupper de name extension length p h spaces dot e = (
  ap (λ x. x ++ (0 ∷ [])) (stored none),
  rw
      (
        ne→== (toupper (extension 0)) 32 e,
        (base_name_lem toupper name length 0 h).0 p,
        ne→== (toupper (name 0)) 46 dot,
      )
      (ap
        (λ x.
          x
          ++ (46 ∷ toupper (extension 0) ∷ toupper (extension 1) ∷ toupper (extension 2) ∷ 0 ∷ []))
        (stored (some extension))),
)
  where
    stored :
        (x : Option (ℕ → ℕ))
        → short_base 8 0 (load_entry_filename toupper de name length x).dir_name
          ≡ upper toupper length 0 name
    stored x =
        short_base_lem toupper name (load_entry_filename toupper de name length x).dir_name 8 length
          0 h
          (λ j b.
            let t : ltb j 8 ≡ true = lt→ltb j 8 (omega arith) in
            rw t ((base_name_lem toupper name length j h).0 (omega arith)))
          (λ j b. spaces j (omega arith))
          (λ b.
            let t : ltb (0 + length) 8 ≡ true = lt→ltb (0 + length) 8 (omega arith) in
            rw t ((base_name_lem toupper name length (0 + length) h).1 b (omega arith)))
