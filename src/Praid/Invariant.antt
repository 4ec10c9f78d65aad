-- ===== src/Praid/Invariant.antt =====
-- What holds of the cluster in every state that the process can reach.
pub mod Reach
use grage.Prelude.{
  ℕ, ◌+◌, ◌<◌, Bool, true, false, Option, none, some, List, [], ◌∷◌, ◌++◌, ◌≡◌, ◌≢◌, refl, ap,
  arith, length, length-append, ◌⊎◌, inl, inr, Option-cases, sym,
}
use grage.Commons.LinkedList.{LinkedList, IsSized, word32, order_always_last, add_node, remove_node}
use grage.Commons.LinkedList.Link.{insert-always_last, add_node-IsSized}
use grage.Commons.LinkedList.Remove.{remove_node_lem, Unlinks}
use grage.Nipc.Message.{NipcMessage}
use grage.Praid.State.{State, storage_eq, add_ppd_storage, remove_ppd_storage}
use grage.Praid.Balancer.Redistribute.{IsAbsent, IsDistinct}
use grage.Praid.Thread.Disconnection.{IsDistinct-remove}

-- All pointers of the list were allocated.
abbrev pub AreBelow : ℕ → List ℕ → Type 0
AreBelow n [] = Unit {0}
AreBelow n (p ∷ ps) = (p < n) × AreBelow n ps

-- The list of disks: its size is right, no disk is listed twice, and each was allocated.
pub record IsValid (s : State) : Type 0 where
  pub sized : IsSized s.ppd_storages
  pub distinct : IsDistinct s.ppd_storages.elements
  pub below : AreBelow s.next_pointer s.ppd_storages.elements

AreBelow-IsAbsent : (n : ℕ) (ps : List ℕ) → AreBelow n ps → IsAbsent n ps
AreBelow-IsAbsent n [] b = tt
AreBelow-IsAbsent n (p ∷ ps) b = (omega arith, AreBelow-IsAbsent n ps b.1)

AreBelow-add : (n : ℕ) (ps : List ℕ) → AreBelow n ps → AreBelow (n + 1) (ps ++ (n ∷ []))
AreBelow-add n [] b = (omega arith, tt)
AreBelow-add n (p ∷ ps) b = (omega arith, AreBelow-add n ps b.1)

IsAbsent-add : (x n : ℕ) (ps : List ℕ) → x ≢ n → IsAbsent x ps → IsAbsent x (ps ++ (n ∷ []))
IsAbsent-add x n [] h a = ((λ e. h (sym e)), tt)
IsAbsent-add x n (p ∷ ps) h a = (a.0, IsAbsent-add x n ps h a.1)

IsDistinct-add : (n : ℕ) (ps : List ℕ) → AreBelow n ps → IsDistinct ps → IsDistinct (ps ++ (n ∷ []))
IsDistinct-add n [] b d = (tt, tt)
IsDistinct-add n (p ∷ ps) b d = (IsAbsent-add p n ps (omega arith) d.0, IsDistinct-add n ps b.1 d.1)

-- A newly allocated disk is listed.
pub added-IsValid :
    (s s' : State)
    → IsValid s
    → s'.ppd_storages ≡ add_node order_always_last s.ppd_storages s.next_pointer
    → s'.next_pointer ≡ s.next_pointer + 1
    → IsValid s'
unfolding add_node
added-IsValid s s' v e n =
    let i = insert-always_last s.next_pointer s.ppd_storages.elements in
    record {
      sized = rw e (add_node-IsSized order_always_last s.ppd_storages s.next_pointer v.sized);
      distinct =
          rw (e, i) (IsDistinct-add s.next_pointer s.ppd_storages.elements v.below v.distinct);
      below = rw (e, n, i) (AreBelow-add s.next_pointer s.ppd_storages.elements v.below);
    }

AreBelow-remove :
    (n p : ℕ) (front back : List ℕ) → AreBelow n (front ++ (p ∷ back)) → AreBelow n (front ++ back)
AreBelow-remove n p [] back b = b.1
AreBelow-remove n p (x ∷ front) back b = (b.0, AreBelow-remove n p front back b.1)

module _ (eq : ℕ → ℕ → Bool) (p : ℕ) where
  unlinked-IsDistinct :
      (xs : List ℕ) (r : Option ℕ × List ℕ) → Unlinks eq p xs r → IsDistinct xs → IsDistinct r.1
  unlinked-IsDistinct xs r (inl (e, _)) d = rw e d
  unlinked-IsDistinct xs r (inr (front, act, back, e, q, _, _)) d =
      rw e (IsDistinct-remove act front back (rw q at d))

  unlinked-AreBelow :
      (n : ℕ) (xs : List ℕ) (r : Option ℕ × List ℕ)
      → Unlinks eq p xs r
      → AreBelow n xs
      → AreBelow n r.1
  unlinked-AreBelow n xs r (inl (e, _)) b = rw e b
  unlinked-AreBelow n xs r (inr (front, act, back, e, q, _, _)) b =
      rw e (AreBelow-remove n act front back (rw q at b))

-- A disk is taken off the list.
pub removed-IsValid :
    (s s' : State) (p : ℕ)
    → IsValid s
    → s'.ppd_storages ≡ (remove_node (storage_eq s.heap) s.ppd_storages p).1
    → s'.next_pointer ≡ s.next_pointer
    → IsValid s'
removed-IsValid s s' p v e n =
    let eq = storage_eq s.heap in
    let r = remove_node_lem eq s.ppd_storages p v.sized in
    record {
      sized = rw e r.1;
      distinct = rw e (unlinked-IsDistinct eq p s.ppd_storages.elements _ r.0 v.distinct);
      below =
          rw (e, n) (unlinked-AreBelow eq p s.next_pointer s.ppd_storages.elements _ r.0 v.below);
    }

-- Neither the list of disks nor the allocated memory changes.
abbrev pub Keeps : State → State → Type 0
Keeps s s' = (s'.ppd_storages ≡ s.ppd_storages) × (s'.next_pointer ≡ s.next_pointer)

pub kept-IsValid : (s s' : State) → IsValid s → Keeps s s' → IsValid s'
kept-IsValid s s' v (e, n) = record {
  sized = rw e v.sized;
  distinct = rw e v.distinct;
  below = rw (e, n) v.below;
}
