-- ===== src/Commons/Queue/Put.antt =====
-- commons_queue_put and commons_queue_get, as the other components use it.
use grage.Prelude.{Bool, some, List, refl, ◌+◌, ◌-◌, ◌%◌, [], ◌∷◌, ◌++◌, ◌≡◌}
use grage.Commons.LinkedList.{
  word32, insert, build_list, LinkedList, IsSized, add_node, order_always_last,
}
use grage.Commons.LinkedList.Link.{add_node-IsSized, insert-always_last}
use grage.Commons.Queue.{put, get, get_from, build_queue}

module _ {ℓ} {A : Type ℓ} where
  pub elements-put_last :
      (q : LinkedList A) (x : A) → (put order_always_last q x).elements ≡ q.elements ++ (x ∷ [])
  unfolding put add_node
  elements-put_last q x = insert-always_last x q.elements

  pub put-IsSized :
      (sorting : A → A → Bool) (q : LinkedList A) (x : A) → IsSized q → IsSized (put sorting q x)
  unfolding put
  put-IsSized sorting q x h = add_node-IsSized sorting q x h

  pub get-cons :
      (q : LinkedList A) (x : A) (xs : List A)
      → q.elements ≡ x ∷ xs
      → get q ≡ (some x, record { elements = xs; size = (q.size + word32 - 1) % word32 })
  unfolding get get_from
  get-cons q x xs h = rw (h, get_from) refl

  pub put-empty :
      (sorting : A → A → Bool) (q : LinkedList A) (x : A)
      → q ≡ build_queue
      → put sorting q x ≡ record { elements = x ∷ []; size = 1 }
  unfolding put add_node insert build_queue build_list
  put-empty sorting q x h = rw (h, add_node, insert) refl
