-- ===== src/Commons/LinkedList/Remove.antt =====
-- commons_list_removeNode, commons_list_containsNode and commons_list_removeList.
use grage.Prelude.{
  ℕ, ◌+◌, ◌-◌, ◌%◌, is_some, ◌∙◌, Bool, true, false, List, [], ◌∷◌, ◌++◌, ◌≡◌, refl, ap, Option,
  none, some, length, length-append, arith, Bool-cases, inl, inr, ◌⊎◌,
}
use grage.Commons.LinkedList.{
  LinkedList, IsSized, word32, unlink, remove_node, detach, contains, contains_node, remove_each,
  remove_list,
}

module _ {ℓ} {A : Type ℓ} (eq : A → A → Bool) where
  -- No node of the list equals `x`.
  abbrev pub Lacks : A → List A → Type 0
  Lacks x [] = Unit {0}
  Lacks x (y ∷ ys) = (eq y x ≡ false) × Lacks x ys

  -- The chain `xs` without its first node that equals `x`, or `xs` itself if there is none.
  abbrev pub Unlinks : A → List A → Option A × List A → Type ℓ
  Unlinks x xs r =
      ((r ≡ (none, xs)) × Lacks x xs)
      ⊎ ((front : List A) × (act : A) × (back : List A) × (r ≡ (some act, front ++ back))
          × (xs ≡ front ++ (act ∷ back))
          × (eq act x ≡ true)
          × Lacks x front)

  unlink-Unlinks : (x : A) (xs : List A) → Unlinks x xs (unlink eq x xs)
  unfolding unlink
  unlink-Unlinks x [] = inl (refl, tt)
  unlink-Unlinks x (y ∷ ys) = elim (Bool-cases (eq y x)) [
    | inl e ↦ rw e (inr ([], y, ys, refl, refl, e, tt))
    | inr e ↦ keep e (unlink-Unlinks x ys)
  ]
    where
      keep :
          eq y x ≡ false → Unlinks x ys (unlink eq x ys) → Unlinks x (y ∷ ys) (unlink eq x (y ∷ ys))
      keep e (inl (p, l)) = inl (ground arith, (e, l))
      keep e (inr (front, act, back, p, q, h, l)) =
          inr (y ∷ front, act, back, ground arith, ap (◌∷◌ y) q, h, (e, l))

  detach-Unlinks :
      (l : LinkedList A) (x : A) (r : Option A × List A)
      → IsSized l
      → Unlinks x l.elements r
      → Unlinks x l.elements ((detach l r).0, (detach l r).1.elements) × IsSized (detach l r).1
  unfolding detach
  detach-Unlinks l x r h (inl (p, n)) = rw p (inl (refl, n), h)
  detach-Unlinks l x r h (inr (front, act, back, p, q, e, n)) = rw p (
    inr (front, act, back, refl, q, e, n),
    omega (arith, ap length q, length-append front back, length-append front (act ∷ back)),
  )

  -- commons_list_removeNode takes out the first node that equals its argument, hands its data to
  -- `removeOperation` and keeps the other nodes in place; if no node equals the argument the list
  -- is left as it was. In both cases `size` counts the nodes after it if it did before.
  pub remove_node_lem :
      (l : LinkedList A) (x : A)
      → IsSized l
      → Unlinks x l.elements ((remove_node eq l x).0, (remove_node eq l x).1.elements)
        × IsSized (remove_node eq l x).1
  remove_node_lem l x h =
      unfold remove_node in
      detach-Unlinks l x (unlink eq x l.elements) h (unlink-Unlinks x l.elements)

  unlink-contains : (x : A) (xs : List A) → is_some (unlink eq x xs).0 ≡ contains eq x xs
  unfolding unlink contains
  unlink-contains x [] = refl
  unlink-contains x (y ∷ ys) = ground (arith, unlink-contains x ys)

  pub remove_node-head :
      (x : A) (rest : List A) (size : ℕ)
      → eq x x ≡ true
      → (remove_node eq (record { elements = x ∷ rest; size = size }) x).1
        ≡ record { elements = rest; size = (size + word32 - 1) % word32 }
  unfolding remove_node unlink detach
  remove_node-head x rest size e = rw e refl

  is_some-detach : (l : LinkedList A) (r : Option A × List A) → is_some (detach l r).0 ≡ is_some r.0
  unfolding detach
  is_some-detach l (none, rest) = refl
  is_some-detach l (some act, rest) = refl

  -- commons_list_removeNode takes a node out exactly if commons_list_containsNode says that the
  -- list has one.
  pub remove_node-contains_node :
      (l : LinkedList A) (x : A) → is_some (remove_node eq l x).0 ≡ contains_node eq l x
  remove_node-contains_node l x =
      unfold remove_node contains_node in
      is_some-detach l (unlink eq x l.elements) ∙ unlink-contains x l.elements

  remove_node_head :
      (x : A) (xs : List A) (l : LinkedList A)
      → eq x x ≡ true
      → l.elements ≡ x ∷ xs
      → ((remove_node eq l x).0 ≡ some x) × ((remove_node eq l x).1.elements ≡ xs)
  unfolding remove_node
  remove_node_head x xs l r e = ground arith

  remove_each_all :
      (xs : List A) (l : LinkedList A)
      → ((a : A) → eq a a ≡ true)
      → l.elements ≡ xs
      → ((remove_each eq xs l).0 ≡ xs) × ((remove_each eq xs l).1.elements ≡ [])
  unfolding remove_each
  remove_each_all [] l r e = (refl, e)
  remove_each_all (x ∷ xs) l r e =
      let h = remove_node_head x xs l (r x) e in
      ground (arith, h, remove_each_all xs (remove_node eq l x).1 r)

  -- commons_list_removeList hands every node's data to `removeOperation` once, in chain order, and
  -- leaves no node, if the equality criterion holds of each element and itself.
  pub remove_list_lem :
      (l : LinkedList A)
      → ((a : A) → eq a a ≡ true)
      → ((remove_list eq l).0 ≡ l.elements) × ((remove_list eq l).1.elements ≡ [])
  unfolding remove_list
  remove_list_lem l r = remove_each_all l.elements l r refl

  unlink_middle :
      (x : A) (front : List A) (act : A) (back : List A)
      → eq act x ≡ true
      → Lacks x front
      → unlink eq x (front ++ (act ∷ back)) ≡ (some act, front ++ back)
  unfolding unlink
  unlink_middle x [] act back r l = ground arith
  unlink_middle x (y ∷ front) act back r l = ground (arith, unlink_middle x front act back r l.1)

  -- What commons_list_removeNode takes out of a list with a node that equals its argument.
  pub remove_node_middle :
      (l : LinkedList A) (x : A) (front : List A) (act : A) (back : List A)
      → l.elements ≡ front ++ (act ∷ back)
      → eq act x ≡ true
      → Lacks x front
      → ((remove_node eq l x).0 ≡ some act) × ((remove_node eq l x).1.elements ≡ front ++ back)
  unfolding remove_node
  remove_node_middle l x front act back e r h =
      rw (e, unlink_middle x front act back r h) (refl, refl)
