-- ===== src/Pfs/Directory/Entries.antt =====
-- The entries of a directory as bytes: what is read from the bytes that were written.
use grage.Prelude.{
  ℕ, zero, suc, ◌+◌, ◌-◌, ◌^◌, ◌<◌, ◌≤◌, ◌≡◌, ◌≢◌, refl, ap, sym, ◌∙◌, List, ◌==◌, ltb, leb, le→leb,
  none, some, Bool-cases, inl, inr, ◌>>=◌, >>=-some, false, true, arith,
}
use grage.Nipc.Wire.Bytes.{of_le-le_bytes}
use grage.Pfs.LongName.{
  LongDirEntry, fetch_char, get_name_length, extract_name, extracted, name_length_from,
  name_length_from_lem,
}
use grage.Pfs.Mknod.{listed, long_bytes}
use grage.Pfs.Directory.{long_of, c_string, get_file_name, unicode_utf16_to_utf8_inbuffer}

-- A character of a long entry as it is read from the bytes of the entry.
fetch_char-long_bytes :
    (e : LongDirEntry) (j : ℕ)
    → j < 13
    → fetch_char e j < 256 ^ 2
    → fetch_char (long_of (long_bytes e)) j ≡ fetch_char e j
unfolding fetch_char
fetch_char-long_bytes e zero b h = of_le-le_bytes 2 (fetch_char e 0) h
fetch_char-long_bytes e (suc zero) b h = of_le-le_bytes 2 (fetch_char e 1) h
fetch_char-long_bytes e (suc (suc zero)) b h = of_le-le_bytes 2 (fetch_char e 2) h
fetch_char-long_bytes e (suc (suc (suc zero))) b h = of_le-le_bytes 2 (fetch_char e 3) h
fetch_char-long_bytes e (suc (suc (suc (suc zero)))) b h = of_le-le_bytes 2 (fetch_char e 4) h
fetch_char-long_bytes e (suc (suc (suc (suc (suc zero))))) b h = of_le-le_bytes 2 (fetch_char e 5) h
fetch_char-long_bytes e (suc (suc (suc (suc (suc (suc zero)))))) b h =
    of_le-le_bytes 2 (fetch_char e 6) h
fetch_char-long_bytes e (suc (suc (suc (suc (suc (suc (suc zero))))))) b h =
    of_le-le_bytes 2 (fetch_char e 7) h
fetch_char-long_bytes e (suc (suc (suc (suc (suc (suc (suc (suc zero)))))))) b h =
    of_le-le_bytes 2 (fetch_char e 8) h
fetch_char-long_bytes e (suc (suc (suc (suc (suc (suc (suc (suc (suc zero))))))))) b h =
    of_le-le_bytes 2 (fetch_char e 9) h
fetch_char-long_bytes e (suc (suc (suc (suc (suc (suc (suc (suc (suc (suc zero)))))))))) b h =
    of_le-le_bytes 2 (fetch_char e 10) h
fetch_char-long_bytes e (suc (suc (suc (suc (suc (suc (suc (suc (suc (suc (suc zero))))))))))) b h =
    of_le-le_bytes 2 (fetch_char e 11) h
fetch_char-long_bytes e (suc (suc (suc (suc (suc (suc (suc (suc (suc (suc (suc (suc zero))))))))))))
      b h =
    of_le-le_bytes 2 (fetch_char e 12) h
fetch_char-long_bytes e
      (suc (suc (suc (suc (suc (suc (suc (suc (suc (suc (suc (suc (suc i))))))))))))) b h =
    absurd (omega arith)

listed-same :
    (n i : ℕ) (f g : ℕ → ℕ)
    → ((j : ℕ) → i ≤ j → j < i + n → f j ≡ g j)
    → listed n i f ≡ listed n i g
listed-same zero i f g h = refl
listed-same (suc n) i f g h =
    let (here, rest) : (f i ≡ g i) × (listed n (i + 1) f ≡ listed n (i + 1) g) = (
      h i (omega arith) (omega arith),
      listed-same n (i + 1) f g (λ j a b. h j (omega arith) (omega arith)),
    ) in
    rw (here, rest) refl

-- A long entry holds the characters of a name, and zeros behind them.
abbrev pub Holds : LongDirEntry → (ℕ → ℕ) → ℕ → Type 0
Holds e name length =
    (k : ℕ)
    → k < 13
    → ((k < length) → fetch_char e k ≡ name k) × ((length ≤ k) → fetch_char e k ≡ 0)

-- The name that is read from the bytes of a long entry is what the conversion to UTF-8 makes of the
-- characters that it holds, up to a zero, if these are at most 12, none of which is zero.
pub get_file_name-long_bytes :
    (utf8 : ℕ → List ℕ → List ℕ) (e : LongDirEntry) (name : ℕ → ℕ) (length : ℕ)
    → length < 13
    → ((j : ℕ) → j < length → name j ≢ 0)
    → ((j : ℕ) → j < length → name j < 2 ^ 16)
    → Holds e name length
    → get_file_name utf8 (long_of (long_bytes e))
      ≡ some (c_string (utf8 (length + 1) (listed length 0 name)))
unfolding get_file_name get_name_length extract_name unicode_utf16_to_utf8_inbuffer
get_file_name-long_bytes utf8 e name length h used small holds =
    let l = long_of (long_bytes e) in
    let kept : (j : ℕ) → j < length → fetch_char l j ≡ name j = λ j b.
      let c = (holds j (omega arith)).0 b in
      fetch_char-long_bytes e j (omega arith) (omega (arith, c, small j b)) ∙ c in
    let ended : length < 13 → fetch_char l length ≡ 0 = λ b.
      let c = (holds length b).1 (omega arith) in
      fetch_char-long_bytes e length b (omega (arith, c)) ∙ c in
    let n : get_name_length l ≡ length + 1 =
      name_length_from_lem 13 0 length l (omega arith) (omega arith) (omega arith)
        (λ j b z. used j b (sym (kept j b) ∙ z)) ended in
    let m : length + 1 - 1 ≡ length = omega arith in
    let fits : leb (length + 1) 13 ≡ true = ground (arith, h) in
    let got : extract_name 13 l (λ i. 0) (length + 1) ≡ some (extracted l (λ i. 0) (length + 1)) =
      rw fits refl in
    let same : listed length 0 (extracted l (λ i. 0) (length + 1)) ≡ listed length 0 name =
      listed-same length 0 (extracted l (λ i. 0) (length + 1)) name (λ j a b.
        let u : (j == length) ≡ false = ground (arith, b) in
        let w : ltb j length ≡ true = ground (arith, b) in
        rw (m, u, w) (kept j (omega (arith, b)))) in
    ap
      (λ k.
        extract_name 13 l (λ i. 0) k
        >>= (λ a. some (c_string (utf8 (k - 1 + 1) (listed (k - 1) 0 a)))))
      n
    ∙ >>=-some _ got (
        ap (λ k. some (c_string (utf8 (k + 1) (listed k 0 (extracted l (λ i. 0) (length + 1)))))) m
        ∙ ap (λ x. some (c_string (utf8 (length + 1) x))) same)

-- With a zero among the characters from one on, the length that is found is at most 13.
name_length_from-le :
    (k i j : ℕ) (e : LongDirEntry)
    → i + k ≡ 13
    → i ≤ j
    → j < 13
    → fetch_char e j ≡ 0
    → name_length_from k i e ≤ 13
unfolding name_length_from
name_length_from-le zero i j e h a b z = absurd (omega (arith, h, a, b))
name_length_from-le (suc k) i j e h a b z = elim (Bool-cases (fetch_char e i == 0)) [
  | inl q ↦ rw q (omega (arith, h))
  | inr q ↦
      let far : i ≢ j = λ p. ground (arith, q, ap (fetch_char e) p, z) in
      rw q (name_length_from-le k (i + 1) j e (omega (arith, h)) (ground (arith, far, a)) b z)
]

-- Reading the name of a long entry writes behind its array exactly if none of the 13 characters is
-- zero, so that a name of 13 characters, which the format of the entry has room for, is not read;
-- otherwise a name is read.
pub get_file_name-overruns :
    (utf8 : ℕ → List ℕ → List ℕ) (e : LongDirEntry)
    → (((j : ℕ) → j < 13 → fetch_char e j ≢ 0) → get_file_name utf8 e ≡ none)
      × ((j : ℕ)
          → j < 13
          → fetch_char e j ≡ 0
          → (name : List ℕ) × (get_file_name utf8 e ≡ some name))
unfolding get_file_name get_name_length extract_name
get_file_name-overruns utf8 e = (
  λ used.
      let n : get_name_length e ≡ 14 =
        name_length_from_lem 13 0 13 e (omega arith) (omega arith) (omega arith) used
          (λ b. absurd (omega (arith, b))) in
      rw n refl,
  λ j b z.
      let n : get_name_length e ≤ 13 = name_length_from-le 13 0 j e refl (omega arith) b z in
      let fits : leb (get_name_length e) 13 ≡ true = le→leb (get_name_length e) 13 n in
      let got : extract_name 13 e (λ i. 0) (get_name_length e)
          ≡ some (extracted e (λ i. 0) (get_name_length e)) =
        rw fits refl in
      (
        c_string (
            unicode_utf16_to_utf8_inbuffer utf8
              (listed (get_name_length e - 1) 0 (extracted e (λ i. 0) (get_name_length e)))
              (get_name_length e - 1)),
        >>=-some _ got refl,
      ),
)
