-- ===== src/Commons/LinkedList/Link.antt =====
-- What commons_list_addNode does to the chain and to `size`, for every sorting criterion.
use grage.Prelude.{
  ◌+◌, Bool, true, false, List, [], ◌∷◌, ◌++◌, ◌≡◌, refl, ◌∙◌, ap, Perm, perm_middle, append_assoc,
  length, length-append, arith, Bool-cases, inl, inr, ◌⊎◌, sym,
}
use grage.Commons.LinkedList.{
  LinkedList, IsSized, walk, link, insert, add_node, order_always_first, order_always_last,
}

module _ {ℓ} {A : Type ℓ} where
  -- Where the loop can stop: at its start, or behind a node that may stand before the new one.
  abbrev pub Stops : (A → A → Bool) → A → List A → A → List A → List A × A × List A → Type ℓ
  Stops sorting n before aux rest r =
      ((r ≡ (before, aux, rest)) ⊎ (sorting r.1 n ≡ true))
      × (r.0 ++ (r.1 ∷ r.2) ≡ before ++ (aux ∷ rest))

  pub walk-Stops :
      (sorting : A → A → Bool) (n : A) (before : List A) (aux : A) (rest : List A)
      → Stops sorting n before aux rest (walk sorting n before aux rest)
  unfolding walk
  walk-Stops sorting n before aux [] = (inl refl, refl)
  walk-Stops sorting n before aux (next ∷ rest) = elim (Bool-cases (sorting next n)) [
    | inl e ↦ rw (e, walk) (step e (walk-Stops sorting n (before ++ aux ∷ []) next rest))
    | inr e ↦ rw (e, walk) (inl refl, refl)
  ]
    where
      step :
          sorting next n ≡ true
          → Stops sorting n
              (before ++ aux ∷ [])
              next
              rest
              (walk sorting n (before ++ aux ∷ []) next rest)
          → Stops sorting n before aux (next ∷ rest) (walk sorting n (before ++ aux ∷ []) next rest)
      step e (inl s, p) = (inr (rw s e), p ∙ append_assoc before (aux ∷ []) (next ∷ rest))
      step e (inr s, p) = (inr s, p ∙ append_assoc before (aux ∷ []) (next ∷ rest))

  -- The new node goes somewhere into the chain, and every other node stays where it was.
  abbrev pub Inserts : A → List A → List A → Type ℓ
  Inserts n xs ys =
      (front : List A) × (back : List A) × (xs ≡ front ++ back) × (ys ≡ front ++ (n ∷ back))

  link-Inserts :
      (sorting : A → A → Bool) (n x : A) (xs : List A) (r : List A × A × List A)
      → Stops sorting n [] x xs r
      → Inserts n (x ∷ xs) (link sorting n r)
  unfolding link
  link-Inserts sorting n x xs (before, aux, rest) (moved, p) = elim (Bool-cases (sorting aux n)) [
    | inl t ↦ (
      before ++ aux ∷ [],
      rest,
      sym p ∙ sym (append_assoc before (aux ∷ []) rest),
      rw t (sym (append_assoc before (aux ∷ []) (n ∷ rest))),
    )
    | inr f ↦ ([], x ∷ xs, refl, rw f (ap (◌∷◌ n) (front_of moved f)))
  ]
    where
      front_of :
          (◌≡◌ {A = List A × A × List A} (before, aux, rest) ([], x, xs)) ⊎ (sorting aux n ≡ true)
          → sorting aux n ≡ false
          → aux ∷ rest ≡ x ∷ xs
      front_of (inl e) f = ap (λ (q : List A × A × List A). q.1 ∷ q.2) e
      front_of (inr t) f = cc

  pub insert-Inserts :
      (sorting : A → A → Bool) (n : A) (xs : List A) → Inserts n xs (insert sorting n xs)
  unfolding insert
  insert-Inserts sorting n [] = ([], [], refl, refl)
  insert-Inserts sorting n (x ∷ xs) =
      link-Inserts sorting n x xs (walk sorting n [] x xs) (walk-Stops sorting n [] x xs)

  -- commons_list_addNode loses no node and makes none up, whatever the sorting criterion.
  pub add_node-perm :
      (sorting : A → A → Bool) (l : LinkedList A) (n : A)
      → Perm (add_node sorting l n).elements (n ∷ l.elements)
  unfolding add_node
  add_node-perm sorting l n = perm_of (insert-Inserts sorting n l.elements)
    where
      perm_of :
          Inserts n l.elements (insert sorting n l.elements)
          → Perm (insert sorting n l.elements) (n ∷ l.elements)
      perm_of (front, back, p, q) = rw (q, p) (perm_middle front back)

  pub length-insert :
      (sorting : A → A → Bool) (n : A) (xs : List A) → length (insert sorting n xs) ≡ length xs + 1
  length-insert sorting n xs = go (insert-Inserts sorting n xs)
    where
      go : Inserts n xs (insert sorting n xs) → length (insert sorting n xs) ≡ length xs + 1
      go (front, back, p, q) = omega (
        arith,
        ap length p,
        ap length q,
        length-append front back,
        length-append front (n ∷ back),
      )

  -- `size` counts the nodes after commons_list_addNode if it did before.
  pub add_node-IsSized :
      (sorting : A → A → Bool) (l : LinkedList A) (n : A)
      → IsSized l
      → IsSized (add_node sorting l n)
  unfolding add_node
  add_node-IsSized sorting l n h = omega (arith, length-insert sorting n l.elements)

  walk-always_last :
      (n : A) (before : List A) (aux : A) (rest : List A)
      → link order_always_last n (walk order_always_last n before aux rest)
        ≡ before ++ ((aux ∷ rest) ++ (n ∷ []))
  unfolding walk link
  walk-always_last n before aux [] = refl
  walk-always_last n before aux (next ∷ rest) =
      walk-always_last n (before ++ aux ∷ []) next rest
      ∙ append_assoc before (aux ∷ []) (next ∷ rest ++ (n ∷ []))

  pub insert-always_last : (n : A) (xs : List A) → insert order_always_last n xs ≡ xs ++ (n ∷ [])
  unfolding insert
  insert-always_last n [] = refl
  insert-always_last n (x ∷ xs) = walk-always_last n [] x xs

  pub insert-always_first : (n : A) (xs : List A) → insert order_always_first n xs ≡ n ∷ xs
  unfolding insert walk link
  insert-always_first n [] = refl
  insert-always_first n (x ∷ []) = refl
  insert-always_first n (x ∷ y ∷ xs) = refl

  -- A node that neither of the first two may stand before becomes the head.
  pub insert-before_two :
      (sorting : A → A → Bool) (n x y : A) (rest : List A)
      → sorting x n ≡ false
      → sorting y n ≡ false
      → insert sorting n (x ∷ y ∷ rest) ≡ n ∷ x ∷ y ∷ rest
  unfolding insert walk link
  insert-before_two sorting n x y rest f g = rw (g, walk) (rw f refl)
