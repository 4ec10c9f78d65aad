-- ===== src/Splice.antt =====
-- Bytes that are written over a part of others.
use grage.Prelude.{
  ℕ, zero, suc, ◌+◌, ◌-◌, ◌≤◌, List, [], ◌∷◌, ◌++◌, ◌≡◌, refl, ap, sym, ◌∙◌, arith, length, take,
  drop, length-append, length-take, length-drop, take-length_append, drop-length_append,
}

module _ {ℓ} {A : Type ℓ} where
  pub take-take_append :
      (n k : ℕ) (xs ys : List A)
      → n + k ≤ length xs
      → take k (drop n (xs ++ ys)) ≡ take k (drop n xs)
  take-take_append zero zero xs ys h = refl
  take-take_append zero (suc k) [] ys h = absurd (omega arith)
  take-take_append zero (suc k) (x ∷ xs) ys h =
      ap (◌∷◌ x) (take-take_append zero k xs ys (omega arith))
  take-take_append (suc n) k [] ys h = absurd (omega arith)
  take-take_append (suc n) k (x ∷ xs) ys h = take-take_append n k xs ys (omega arith)

  drop-append_ge :
      (n : ℕ) (xs ys : List A) → length xs ≤ n → drop n (xs ++ ys) ≡ drop (n - length xs) ys
  drop-append_ge n [] ys h = ap (λ k. drop k ys) (omega arith)
  drop-append_ge zero (x ∷ xs) ys h = absurd (omega arith)
  drop-append_ge (suc n) (x ∷ xs) ys h =
      drop-append_ge n xs ys (omega arith) ∙ ap (λ k. drop k ys) (omega arith)

  drop-nil : (n : ℕ) → drop {A = A} n [] ≡ []
  drop-nil zero = refl
  drop-nil (suc n) = refl

  pub drop-drop : (n k : ℕ) (xs : List A) → drop n (drop k xs) ≡ drop (k + n) xs
  drop-drop n zero xs = ap (λ m. drop m xs) (omega arith)
  drop-drop n (suc k) [] = drop-nil n ∙ sym (drop-nil (suc k + n))
  drop-drop n (suc k) (x ∷ xs) =
      drop-drop n k xs
      ∙ ap (λ m. drop m (x ∷ xs)) (let e : suc (k + n) ≡ suc k + n = omega arith in e)

  pub take-drop-take :
      (n k m : ℕ) (xs : List A) → n + k ≤ m → take k (drop n (take m xs)) ≡ take k (drop n xs)
  take-drop-take n k zero xs h = let e : k ≡ 0 = omega arith in rw e refl
  take-drop-take n k (suc m) [] h = refl
  take-drop-take zero zero (suc m) (x ∷ xs) h = refl
  take-drop-take zero (suc k) (suc m) (x ∷ xs) h =
      ap (◌∷◌ x) (take-drop-take zero k m xs (omega arith))
  take-drop-take (suc n) k (suc m) (x ∷ xs) h = take-drop-take n k m xs (omega arith)

-- `d` with `b` in place of the bytes from offset `o` on.
abbrev pub spliced : List ℕ → ℕ → List ℕ → List ℕ
spliced d o b = take o d ++ (b ++ drop (o + length b) d)

-- The bytes that a copy leaves where it wrote, and elsewhere.
module _ (d : List ℕ) (o : ℕ) (b : List ℕ) (fits : o + length b ≤ length d) where
  length-front : length (take o d) ≡ o
  length-front = omega (arith, length-take o d)

  pub spliced_self : take (length b) (drop o (spliced d o b)) ≡ b
  spliced_self =
      rw (drop-length_append o (take o d) (b ++ drop (o + length b) d) length-front)
        (take-length_append (length b) b (drop (o + length b) d) refl)

  pub spliced_before : (p k : ℕ) → p + k ≤ o → take k (drop p (spliced d o b)) ≡ take k (drop p d)
  spliced_before p k h =
      take-take_append p k (take o d) (b ++ drop (o + length b) d) (omega (arith, length-front))
      ∙ take-drop-take p k o d h

  pub spliced_after : (p : ℕ) → o + length b ≤ p → drop p (spliced d o b) ≡ drop p d
  spliced_after p h =
      drop-append_ge p (take o d) (b ++ drop (o + length b) d) (omega (arith, length-front))
      ∙ drop-append_ge (p - length (take o d)) b (drop (o + length b) d)
          (omega (arith, length-front))
      ∙ drop-drop (p - length (take o d) - length b) (o + length b) d
      ∙ ap (λ k. drop k d) (omega (arith, length-front))

  pub length-spliced : length (spliced d o b) ≡ length d
  length-spliced = omega (
    arith,
    length-append (take o d) (b ++ drop (o + length b) d),
    length-append b (drop (o + length b) d),
    length-drop (o + length b) d,
    length-front,
  )

-- Parts of two lists in a row.
module _ {ℓ} {A : Type ℓ} where
  pub take-append_le : (n : ℕ) (xs ys : List A) → n ≤ length xs → take n (xs ++ ys) ≡ take n xs
  take-append_le n xs ys h = take-take_append zero n xs ys (omega arith)

  pub take-append_ge :
      (n : ℕ) (xs ys : List A) → length xs ≤ n → take n (xs ++ ys) ≡ xs ++ take (n - length xs) ys
  take-append_ge n [] ys h = ap (λ k. take k ys) (omega arith)
  take-append_ge zero (x ∷ xs) ys h = absurd (omega arith)
  take-append_ge (suc n) (x ∷ xs) ys h =
      ap (◌∷◌ x) (take-append_ge n xs ys (omega arith) ∙ ap (λ k. xs ++ take k ys) (omega arith))

  pub drop-append_le :
      (n : ℕ) (xs ys : List A) → n ≤ length xs → drop n (xs ++ ys) ≡ drop n xs ++ ys
  drop-append_le zero xs ys h = refl
  drop-append_le (suc n) [] ys h = absurd (omega arith)
  drop-append_le (suc n) (x ∷ xs) ys h = drop-append_le n xs ys (omega arith)
