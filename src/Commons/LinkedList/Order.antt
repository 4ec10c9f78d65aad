-- ===== src/Commons/LinkedList/Order.antt =====
-- commons_list_addNode on a chain that is in the order of its sorting criterion.
use grage.Prelude.{
  Bool, true, false, List, [], ◌∷◌, ◌++◌, ◌≡◌, ◌∙◌, append_assoc, arith, Bool-cases, inl, inr,
  if◌then◌else◌,
}
use grage.Commons.LinkedList.{LinkedList, walk, link, insert, add_node}

module _ {ℓ} {A : Type ℓ} (sorting : A → A → Bool) where
  -- `x` may stand before the first node of the chain.
  abbrev pub Leads : A → List A → Type 0
  Leads x [] = Unit {0}
  Leads x (y ∷ ys) = sorting x y ≡ true

  -- Each node may stand before the next.
  abbrev pub IsSorted : List A → Type 0
  IsSorted [] = Unit {0}
  IsSorted (x ∷ xs) = Leads x xs × IsSorted xs

  -- Each node may stand before all that follow `x`.
  abbrev pub LeadsAll : A → List A → Type 0
  LeadsAll x [] = Unit {0}
  LeadsAll x (y ∷ ys) = (sorting x y ≡ true) × LeadsAll x ys

  -- The criterion refuses at most one order of two nodes.
  abbrev pub IsTotal : Type ℓ
  IsTotal = (a b : A) → sorting a b ≡ false → sorting b a ≡ true

  abbrev pub IsTransitive : Type ℓ
  IsTransitive = (a b c : A) → sorting a b ≡ true → sorting b c ≡ true → sorting a c ≡ true

  -- The chain from `aux` on, once `aux` may stand before the new node.
  unfoldable pub place : A → A → List A → List A
  place n aux [] = aux ∷ n ∷ []
  place n aux (y ∷ ys) =
      let rest = place n y ys in if sorting y n then aux ∷ rest else aux ∷ n ∷ y ∷ ys

  pub walk-place :
      (n : A) (before : List A) (aux : A) (rest : List A)
      → sorting aux n ≡ true
      → link sorting n (walk sorting n before aux rest) ≡ before ++ place n aux rest
  unfolding walk link place
  walk-place n before aux [] h = rw h
  walk-place n before aux (y ∷ ys) h = elim (Bool-cases (sorting y n)) [
    | inl e ↦
        rw (e, walk)
          (walk-place n (before ++ aux ∷ []) y ys e ∙ append_assoc before (aux ∷ []) (place n y ys))
    | inr e ↦ rw (e, walk) (rw h)
  ]

  Leads-place : (n x aux : A) (rest : List A) → sorting x aux ≡ true → Leads x (place n aux rest)
  unfolding place
  Leads-place n x aux [] h = h
  Leads-place n x aux (y ∷ ys) h = ground arith

  place-IsSorted :
      (n aux : A) (rest : List A)
      → IsTotal
      → sorting aux n ≡ true
      → IsSorted (aux ∷ rest)
      → IsSorted (place n aux rest)
  unfolding place
  place-IsSorted n aux [] total h s = (h, (tt, tt))
  place-IsSorted n aux (y ∷ ys) total h s = elim (Bool-cases (sorting y n)) [
    | inl e ↦ rw e (Leads-place n aux y ys s.0, place-IsSorted n y ys total e s.1)
    | inr e ↦ rw e (h, (total y n e, s.1))
  ]

  -- The head may not stand before the new node, so the loop's first test is of the second node.
  behind_head :
      (n x : A) (xs : List A)
      → IsTotal
      → sorting x n ≡ false
      → IsSorted (x ∷ xs)
      → IsSorted (link sorting n (walk sorting n [] x xs))
  unfolding walk link
  behind_head n x [] total e s = rw e (total x n e, (tt, tt))
  behind_head n x (y ∷ ys) total e s = elim (Bool-cases (sorting y n)) [
    | inl f ↦
        rw (f, walk)
          (rw (walk-place n (x ∷ []) y ys f)
            (Leads-place n x y ys s.0, place-IsSorted n y ys total f s.1))
    | inr f ↦ rw (f, walk) (rw e (total x n e, s))
  ]

  pub insert-IsSorted :
      (n : A) (xs : List A) → IsTotal → IsSorted xs → IsSorted (insert sorting n xs)
  unfolding insert
  insert-IsSorted n [] total s = (tt, tt)
  insert-IsSorted n (x ∷ xs) total s = elim (Bool-cases (sorting x n)) [
    | inl e ↦ rw (walk-place n [] x xs e) (place-IsSorted n x xs total e s)
    | inr e ↦ behind_head n x xs total e s
  ]

  -- A list in the order of a total criterion is still in order after commons_list_addNode.
  pub add_node-IsSorted :
      (l : LinkedList A) (n : A)
      → IsTotal
      → IsSorted l.elements
      → IsSorted (add_node sorting l n).elements
  unfolding add_node
  add_node-IsSorted l n total s = insert-IsSorted n l.elements total s

  LeadsAll-trans :
      (a b : A) (xs : List A) → IsTransitive → sorting a b ≡ true → LeadsAll b xs → LeadsAll a xs
  LeadsAll-trans a b [] trans h s = tt
  LeadsAll-trans a b (x ∷ xs) trans h s = (trans a b x h s.0, LeadsAll-trans a b xs trans h s.1)

  -- The head of a chain in order may stand before every other node, if the criterion is transitive.
  pub IsSorted-LeadsAll : (x : A) (xs : List A) → IsTransitive → IsSorted (x ∷ xs) → LeadsAll x xs
  IsSorted-LeadsAll x [] trans s = tt
  IsSorted-LeadsAll x (y ∷ ys) trans s =
      (s.0, LeadsAll-trans x y ys trans s.0 (IsSorted-LeadsAll y ys trans s.1))
