-- ===== src/Commons/LinkedList/Stable.antt =====
-- commons_list_addNode on a chain in order: nodes of one kind keep their order of arrival.
use grage.Prelude.{
  Bool, true, false, List, [], ◌∷◌, ◌++◌, ◌≡◌, refl, ap, arith, Bool-cases, inl, inr, if◌then◌else◌,
}
use grage.Commons.LinkedList.{walk, link, insert}
use grage.Commons.LinkedList.Order.{
  IsSorted, LeadsAll, IsTransitive, IsSorted-LeadsAll, place, walk-place,
}

module _ {ℓ} {A : Type ℓ} where
  -- The nodes of a kind, in chain order.
  abbrev pub select : (A → Bool) → List A → List A
  select kind [] = []
  select kind (x ∷ xs) = let rest = select kind xs in if kind x then x ∷ rest else rest

module _ {ℓ} {A : Type ℓ} (sorting : A → A → Bool) (kind : A → Bool) (n : A)
    (trans : IsTransitive sorting) (kin : kind n ≡ true)
    (leads : (x : A) → kind x ≡ true → sorting x n ≡ true) where
  select_refused :
      (y : A) (ys : List A) → sorting y n ≡ false → LeadsAll sorting y ys → select kind ys ≡ []
  select_refused y [] f l = refl
  select_refused y (z ∷ ys) f l = elim (Bool-cases (kind z)) [
    | inl k ↦ absurd-by (trans y z n l.0 (leads z k))
    | inr k ↦ rw k (select_refused y ys f l.1)
  ]
    where
      absurd-by : sorting y n ≡ true → select kind (z ∷ ys) ≡ []
      absurd-by t = cc

  select-place :
      (aux : A) (rest : List A)
      → IsSorted sorting (aux ∷ rest)
      → select kind (place sorting n aux rest) ≡ select kind (aux ∷ rest) ++ (n ∷ [])
  unfolding place
  select-place aux [] s = ground (arith, kin)
  select-place aux (y ∷ ys) s = elim (Bool-cases (sorting y n)) [
    | inl e ↦ ground (arith, select-place y ys s.1)
    | inr e ↦
        ground
          (arith, kin, select_refused y ys e (IsSorted-LeadsAll sorting y ys trans s.1), leads y)
  ]

  at_head :
      (x : A) (xs : List A)
      → IsSorted sorting (x ∷ xs)
      → sorting x n ≡ false
      → link sorting n (walk sorting n [] x xs) ≡ n ∷ x ∷ xs
  unfolding walk link
  at_head x [] s f = rw f
  at_head x (y ∷ ys) s f = elim (Bool-cases (sorting y n)) [
    | inl e ↦ false_of (trans x y n s.0 e)
    | inr e ↦ rw (e, walk) (rw f)
  ]
    where
      false_of : sorting x n ≡ true → link sorting n (walk sorting n [] x (y ∷ ys)) ≡ n ∷ x ∷ y ∷ ys
      false_of t = cc

  select_nothing :
      (x : A) (xs : List A)
      → IsSorted sorting (x ∷ xs)
      → sorting x n ≡ false
      → select kind (x ∷ xs) ≡ []
  select_nothing x xs s f =
      ground (arith, leads x, select_refused x xs f (IsSorted-LeadsAll sorting x xs trans s))

  -- In a chain in order, a new node of a kind that may stand behind every node of its kind comes
  -- behind all of them.
  pub select-insert :
      (xs : List A)
      → IsSorted sorting xs
      → select kind (insert sorting n xs) ≡ select kind xs ++ (n ∷ [])
  unfolding insert
  select-insert [] s = ground (arith, kin)
  select-insert (x ∷ xs) s = elim (Bool-cases (sorting x n)) [
    | inl e ↦ rw (walk-place sorting n [] x xs e) (select-place x xs s)
    | inr e ↦ rw (at_head x xs s e) (
        ground (
          arith,
          kin,
          ap (λ ys. ys ++ (n ∷ [])) (select_nothing x xs s e),
          select_nothing x xs s e,
        ))
  ]
