-- ===== src/Commons/LinkedList.antt =====
-- grage-commons/app/src/misc/linux-commons-list.c: the linked list that every process stores its
-- state in. The chain of nodes is the list of their data, in chain order. `size` is the C `int`
-- as its 32-bit pattern, so both `size++` and `size--` wrap as written. The function pointers of
-- the struct `L` are arguments of the operations that call them, since a criterion may read
-- globals that change between two calls. The mutex makes each operation one step.
pub mod Link
pub mod Order
pub mod Stable
pub mod Remove
use Prim.Native.Nat.{ℕ, ◌+◌, ◌-◌, ◌%◌, ◌^◌}
use grage.Prelude.{
  Bool, true, false, Option, none, some, List, [], ◌∷◌, ◌++◌, ◌||◌, if◌then◌else◌, length, ◌≡◌,
}

-- The number of values of a 32-bit word.
abbrev pub word32 : ℕ
word32 = 2 ^ 32

-- struct L
pub record LinkedList {ℓ} (A : Type ℓ) : Type ℓ where
  pub elements : List A
  pub size : ℕ

-- commons_list_ORDER_ALWAYS_FIRST and commons_list_ORDER_ALWAYS_LAST
abbrev pub order_always_first {ℓ} : {A : Type ℓ} → A → A → Bool
order_always_first a b = false

abbrev pub order_always_last {ℓ} : {A : Type ℓ} → A → A → Bool
order_always_last a b = true

-- `size` counts the nodes, as far as 32 bits can.
abbrev pub IsSized {ℓ} : {A : Type ℓ} → LinkedList A → Type 0
IsSized l = l.size ≡ length l.elements % word32

module _ {ℓ} {A : Type ℓ} where
  -- commons_list_buildList
  unfoldable pub build_list : LinkedList A
  build_list = record { elements = []; size = 0 }

  -- The while loop of commons_list_addNode: `aux` goes on while the next node may stand before
  -- the new one. The result is the nodes before `aux`, `aux` itself, and those after it.
  pub walk : (A → A → Bool) → A → List A → A → List A → List A × A × List A
  walk sorting n before aux [] = (before, aux, [])
  walk sorting n before aux (next ∷ rest) = elim (sorting next n) [
    | true ↦ walk sorting n (before ++ aux ∷ []) next rest
    | false ↦ (before, aux, next ∷ rest)
  ]

  -- What follows the loop: the new node becomes the head and points to `aux`, whatever stood
  -- before `aux`, or it is linked behind `aux`.
  pub link : (A → A → Bool) → A → List A × A × List A → List A
  link sorting n (before, aux, rest) =
      if sorting aux n then before ++ (aux ∷ n ∷ rest) else n ∷ aux ∷ rest

  unfoldable pub insert : (A → A → Bool) → A → List A → List A
  unfolding walk link
  insert sorting n [] = n ∷ []
  insert sorting n (x ∷ xs) = link sorting n (walk sorting n [] x xs)

  -- commons_list_addNode
  unfoldable pub add_node : (A → A → Bool) → LinkedList A → A → LinkedList A
  add_node sorting l n = record {
    elements = insert sorting n l.elements;
    size = (l.size + 1) % word32;
  }

  -- The search of commons_list_removeNode and the unlinking: the chain without the first node
  -- that equals `x`, and that node's data, which goes to `removeOperation`.
  pub unlink : (A → A → Bool) → A → List A → Option A × List A
  unlink eq x [] = (none, [])
  unlink eq x (act ∷ rest) =
      let (found, rest') = unlink eq x rest in
      if eq act x then (some act, rest) else (found, act ∷ rest')

  -- What commons_list_removeNode does after its search, as far as the chain and `size` go.
  pub detach : LinkedList A → Option A × List A → Option A × LinkedList A
  detach l (none, rest) = (none, l)
  detach l (some act, rest) =
      (some act, record { elements = rest; size = (l.size + word32 - 1) % word32 })

  -- commons_list_removeNode
  unfoldable pub remove_node : (A → A → Bool) → LinkedList A → A → Option A × LinkedList A
  unfolding unlink detach
  remove_node eq l x = detach l (unlink eq x l.elements)

  -- The loop of commons_list_containsNode.
  pub contains : (A → A → Bool) → A → List A → Bool
  contains eq x [] = false
  contains eq x (elem ∷ rest) = eq elem x || contains eq x rest

  -- commons_list_containsNode
  pub contains_node : (A → A → Bool) → LinkedList A → A → Bool
  contains_node eq l x = contains eq x l.elements

  -- The loop of commons_list_getNodeByCriteria.
  unfoldable pub find : (A → Bool) → List A → Option A
  find selection [] = none
  find selection (elem ∷ rest) = if selection elem then some elem else find selection rest

  -- commons_list_getNodeByCriteria; `none` is NULL.
  unfoldable pub get_node_by_criteria : LinkedList A → (A → Bool) → Option A
  unfolding find
  get_node_by_criteria l selection = find selection l.elements

  -- The loop of commons_list_removeList, over the nodes that the iterator still has to visit. The
  -- result is what `removeOperation` was called with, in order, and the list left.
  pub remove_each : (A → A → Bool) → List A → LinkedList A → List A × LinkedList A
  remove_each eq [] l = ([], l)
  remove_each eq (obj ∷ rest) l =
      let (found, l') = remove_node eq l obj in
      let (freed, l'') = remove_each eq rest l' in
      elim found [ none ↦ (freed, l'') | some act ↦ (act ∷ freed, l'') ]

  -- commons_list_removeList, up to the `free` of the list itself.
  pub remove_list : (A → A → Bool) → LinkedList A → List A × LinkedList A
  remove_list eq l = remove_each eq l.elements l

-- The iterator: a pointer into a chain.
pub record Iterator {ℓ} (A : Type ℓ) : Type ℓ where
  pub elements : List A

module _ {ℓ} {A : Type ℓ} where
  -- commons_iterator_buildIterator, where `none` is NULL
  abbrev pub build_iterator : Option (LinkedList A) → Option (Iterator A)
  build_iterator none = none
  build_iterator (some l) = some (record { elements = l.elements })

  -- commons_iterator_hasMoreElements
  abbrev pub has_more_elements : Option (Iterator A) → Bool
  has_more_elements none = false
  has_more_elements (some i) = elim i.elements [ [] ↦ false | x ∷ xs ↦ true ]

  -- commons_iterator_next: the data or NULL, and the iterator moved on.
  abbrev pub next : Option (Iterator A) → Option A × Option (Iterator A)
  next none = (none, none)
  next (some i) = elim i.elements [
    | [] ↦ (none, some i)
    | x ∷ xs ↦ (some x, some (record { elements = xs }))
  ]
