-- ===== src/Pfs/LongName.antt =====
-- The name in a long directory entry, pfs_fat32_utils_loadLongEntryFilename,
-- pfs_fat32_utils_fetchChar, pfs_fat32_utils_getNameLength and pfs_fat32_utils_extractName of
-- grage-pfs/app/src/core/pfs-fat-utils.c. An array is a function of the index. The conversion from
-- UTF-8 is not modelled: the functions take the characters that it gives.
use grage.Prelude.{
  Option, none, some, ℕ, zero, suc, ◌+◌, ◌-◌, ◌%◌, ◌<◌, ◌≤◌, ◌≡◌, ◌≢◌, refl, ap, sym, ◌∙◌, true,
  false, ◌==◌, ==_iff, ne→==, Bool-cases, inl, inr, if◌then◌else◌, ltb, leb, arith,
}

-- LongDirEntry
pub record LongDirEntry : Type 0 where
  pub ldir_ord : ℕ
  pub ldir_attr : ℕ
  pub ldir_type : ℕ
  pub ldir_chksum : ℕ
  pub ldir_fst_clus_lo : ℕ
  pub ldir_name1 : ℕ → ℕ
  pub ldir_name2 : ℕ → ℕ
  pub ldir_name3 : ℕ → ℕ

abbrev pub write_at : (ℕ → ℕ) → ℕ → ℕ → ℕ → ℕ
write_at a j c i = if i == j then c else a i

-- pfs_fat32_utils_fetchChar
unfoldable pub fetch_char : LongDirEntry → ℕ → ℕ
fetch_char d n =
    let i = n % 13 in
    if leb i 4
    then d.ldir_name1 i
    else (if leb i 10 then d.ldir_name2 (i - 5) else d.ldir_name3 (i - 11))

-- The body of both loops of pfs_fat32_utils_loadLongEntryFilename, for index `i` and a character.
unfoldable pub load_char : LongDirEntry → ℕ → ℕ → LongDirEntry
load_char d i c =
    let j = i % 13 in
    if leb j 4
    then record d { ldir_name1 = write_at d.ldir_name1 j c }
    else (if leb j 10
        then record d { ldir_name2 = write_at d.ldir_name2 (j - 5) c }
        else record d { ldir_name3 = write_at d.ldir_name3 (j - 11) c })

-- One of those loops, for `k` indices from `i` on.
unfoldable pub load_chars : ℕ → ℕ → (ℕ → ℕ) → LongDirEntry → LongDirEntry
load_chars zero i name d = d
load_chars (suc k) i name d = load_chars k (i + 1) name (load_char d i (name i))

-- Both loops, for a name of `length` characters.
unfoldable pub with_chars : LongDirEntry → (ℕ → ℕ) → ℕ → LongDirEntry
with_chars d utf16name length =
    load_chars (13 - length) length (λ i. 0) (load_chars length 0 utf16name d)

-- pfs_fat32_utils_loadLongEntryFilename, for a name of `length` characters of one byte: the library
-- is told of room for twice as many and ends them with a zero, in an array of 13. `none` is a write
-- behind its end.
unfoldable pub load_long_entry_filename : LongDirEntry → (ℕ → ℕ) → ℕ → Option LongDirEntry
load_long_entry_filename d utf16name length =
    if leb (length + 1) 13 then some (with_chars d utf16name length) else none

-- The loop of pfs_fat32_utils_getNameLength, for the `k` indices from `i` on.
unfoldable pub name_length_from : ℕ → ℕ → LongDirEntry → ℕ
name_length_from zero i d = i + 1
name_length_from (suc k) i d =
    let rest = name_length_from k (i + 1) d in if fetch_char d i == 0 then i + 1 else rest

-- pfs_fat32_utils_getNameLength
unfoldable pub get_name_length : LongDirEntry → ℕ
get_name_length d = name_length_from 13 0 d

-- What the array of pfs_fat32_utils_extractName holds after it.
abbrev pub extracted : LongDirEntry → (ℕ → ℕ) → ℕ → ℕ → ℕ
extracted d dest length i =
    if i == length - 1 then 0 else (if ltb i (length - 1) then fetch_char d i else dest i)

-- pfs_fat32_utils_extractName, into an array of `room` words; `none` is a write behind its end.
unfoldable pub extract_name : ℕ → LongDirEntry → (ℕ → ℕ) → ℕ → Option (ℕ → ℕ)
extract_name room d dest length = if leb length room then some (extracted d dest length) else none

fetch_char-load_char :
    (d : LongDirEntry) (i k c : ℕ)
    → i < 13
    → k < 13
    → fetch_char (load_char d i c) k ≡ (if k == i then c else fetch_char d k)
unfolding fetch_char load_char
fetch_char-load_char d i k c h h' = ground arith

fetch_char-load_chars :
    (n i : ℕ) (name : ℕ → ℕ) (d : LongDirEntry) (k : ℕ)
    → i + n ≤ 13
    → k < 13
    → ((k < i) → fetch_char (load_chars n i name d) k ≡ fetch_char d k)
      × ((i + n ≤ k) → fetch_char (load_chars n i name d) k ≡ fetch_char d k)
      × ((i ≤ k) → (k < i + n) → fetch_char (load_chars n i name d) k ≡ name k)
unfolding load_chars
fetch_char-load_chars zero i name d k h h' = (λ a. refl, λ a. refl, λ a b. absurd (omega arith))
fetch_char-load_chars (suc n) i name d k h h' =
    let (p, q, r) =
      fetch_char-load_chars n (i + 1) name (load_char d i (name i)) k (omega arith) h' in
    let w = fetch_char-load_char d i k (name i) (omega arith) h' in
    let kept : k ≢ i → fetch_char (load_char d i (name i)) k ≡ fetch_char d k =
      λ e. w ∙ ap (λ b. if b then name i else fetch_char d k) (ne→== k i e) in
    (
      λ a. p (omega arith) ∙ kept (λ e. omega (arith, e)),
      λ a. q (omega arith) ∙ kept (λ e. omega (arith, e)),
      λ a b. elim (Bool-cases (k == i)) [
        | inl e ↦
            let t = (==_iff k i).0 e in
            p (omega (arith, t))
            ∙ w
            ∙ ap (λ b. if b then name i else fetch_char d k) e
            ∙ ap name (sym t)
        | inr e ↦ r (ground (arith, a, e)) (omega arith)
      ],
    )

-- The characters of the name, and zeros behind them.
pub fetch_char-with_chars :
    (d : LongDirEntry) (name : ℕ → ℕ) (length k : ℕ)
    → length ≤ 13
    → k < 13
    → ((k < length) → fetch_char (with_chars d name length) k ≡ name k)
      × ((length ≤ k) → fetch_char (with_chars d name length) k ≡ 0)
unfolding with_chars
fetch_char-with_chars d name length k h h' =
    let (p, q, r) = fetch_char-load_chars length 0 name d k (omega arith) h' in
    let (p', q', r') =
      fetch_char-load_chars (13 - length) length (λ i. 0) (load_chars length 0 name d) k
        (omega arith) h' in
    (λ a. p' a ∙ r (omega arith) (omega arith), λ a. r' a (omega arith))

-- The length is found at the first zero, or behind the last character.
pub name_length_from_lem :
    (k i length : ℕ) (d : LongDirEntry)
    → i + k ≡ 13
    → i ≤ length
    → length ≤ 13
    → ((j : ℕ) → j < length → fetch_char d j ≢ 0)
    → ((length < 13) → fetch_char d length ≡ 0)
    → name_length_from k i d ≡ length + 1
unfolding name_length_from
name_length_from_lem zero i length d e l h used null = omega arith
name_length_from_lem (suc k) i length d e l h used null = elim (Bool-cases (fetch_char d i == 0)) [
  | inl z ↦ let t : length ≤ i = ground (arith, z, used i) in rw z (omega arith)
  | inr z ↦
      let t : i < length = ground (arith, z, null, ap (fetch_char d)) in
      rw z (name_length_from_lem k (i + 1) length d (omega arith) (omega arith) h used null)
]

-- A name of at most 12 characters, none of which is zero, reads back as it was written, with a zero
-- behind it.
pub extract_name-with_chars :
    (d : LongDirEntry) (name dest : ℕ → ℕ) (length : ℕ)
    → length < 13
    → ((j : ℕ) → j < length → name j ≢ 0)
    → let d' = with_chars d name length in
      (a : ℕ → ℕ) × (get_name_length d' ≡ length + 1)
      × (extract_name 13 d' dest (get_name_length d') ≡ some a)
      × ((i : ℕ) → i < length → a i ≡ name i)
      × (a length ≡ 0)
unfolding get_name_length extract_name
extract_name-with_chars d name dest length h used =
    let d' = with_chars d name length in
    let e : get_name_length d' ≡ length + 1 =
      name_length_from_lem 13 0 length d' (omega arith) (omega arith) (omega arith)
        (λ j b z.
          used j b
            (sym ((fetch_char-with_chars d name length j (omega arith) (omega arith)).0 b) ∙ z))
        (λ b. (fetch_char-with_chars d name length length (omega arith) b).1 (omega arith)) in
    let n : length + 1 - 1 ≡ length = omega arith in
    let fits : leb (length + 1) 13 ≡ true = ground (arith, h) in
    (
      extracted d' dest (length + 1),
      e,
      ap (extract_name 13 d' dest) e ∙ rw fits refl,
      (λ i b.
          let c = (fetch_char-with_chars d name length i (omega arith) (omega arith)).0 b in
          let u : (i == length) ≡ false = ground (arith, b) in
          let w : ltb i length ≡ true = ground (arith, b) in rw (n, u, w) c),
      rw (n, (==_iff length length).1 refl) refl,
    )

-- An entry has the order and the attribute of another.
abbrev pub Keeps : LongDirEntry → LongDirEntry → Type 0
Keeps d' d = (d'.ldir_ord ≡ d.ldir_ord) × (d'.ldir_attr ≡ d.ldir_attr)

load_char-Keeps : (d : LongDirEntry) (i c : ℕ) → Keeps (load_char d i c) d
unfolding load_char
load_char-Keeps d i c = (ground arith, ground arith)

load_chars-Keeps : (k i : ℕ) (name : ℕ → ℕ) (d : LongDirEntry) → Keeps (load_chars k i name d) d
unfolding load_chars
load_chars-Keeps zero i name d = (refl, refl)
load_chars-Keeps (suc k) i name d =
    let (a, b) = load_chars-Keeps k (i + 1) name (load_char d i (name i)) in
    let (a', b') = load_char-Keeps d i (name i) in (a ∙ a', b ∙ b')

pub with_chars-Keeps :
    (d : LongDirEntry) (name : ℕ → ℕ) (length : ℕ) → Keeps (with_chars d name length) d
unfolding with_chars
with_chars-Keeps d name length =
    let (a, b) = load_chars-Keeps (13 - length) length (λ i. 0) (load_chars length 0 name d) in
    let (a', b') = load_chars-Keeps length 0 name d in (a ∙ a', b ∙ b')
