-- ===== src/Commons/Queue.antt =====
-- grage-commons/app/src/misc/linux-commons-queue.c: a queue is a linked list read at its head.
-- A queue that commons_queue_buildQueue makes has the criterion `order_always_last`.
pub mod Fifo
pub mod Put
use grage.Prelude.{ℕ, ◌+◌, ◌-◌, ◌%◌, Bool, true, false, Option, none, some, List, [], ◌∷◌, ◌==◌}
use grage.Commons.LinkedList.{LinkedList, word32, build_list, add_node}

module _ {ℓ} {A : Type ℓ} where
  -- commons_queue_get on the chain: the head's data, and the chain behind it.
  unfoldable pub get_from : List A → LinkedList A → Option A × LinkedList A
  get_from [] q = (none, q)
  get_from (x ∷ rest) q =
      (some x, record { elements = rest; size = (q.size + word32 - 1) % word32 })

  -- commons_queue_get, where `none` is NULL.
  unfoldable pub get : LinkedList A → Option A × LinkedList A
  unfolding get_from
  get q = get_from q.elements q

  -- commons_queue_put, with the criterion that the queue was built with.
  unfoldable pub put : (A → A → Bool) → LinkedList A → A → LinkedList A
  put sorting q x = add_node sorting q x

  -- commons_queue_buildQueue and commons_queue_buildQueueWithSortingCriteria
  unfoldable pub build_queue : LinkedList A
  build_queue = build_list

  -- commons_queue_isEmpty, where `none` is NULL.
  unfoldable pub is_empty : Option (LinkedList A) → Bool
  is_empty none = true
  is_empty (some q) = q.size == 0
