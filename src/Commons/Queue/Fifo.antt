-- ===== src/Commons/Queue/Fifo.antt =====
-- A queue of commons_queue_buildQueue behaves as a first-in first-out sequence.

use grage.Prelude.{
  ◌+◌, ◌<◌, ◌≤◌, Bool, true, false, Option, none, some, List, [], ◌∷◌, ◌++◌, ◌≡◌, refl, ap, ap₂,
  ◌∙◌, length, length-append, arith, ◌==◌,
}
use grage.Commons.LinkedList.{LinkedList, word32, IsSized, add_node, order_always_last}
use grage.Commons.LinkedList.Link.{add_node-IsSized, insert-always_last}
use grage.Commons.Queue.{get, put, is_empty, get_from}

-- What a thread asks of a queue, and what it is told.
pub data Call {ℓ} (A : Type ℓ) : Type ℓ where
  puts : A → Call A
  gets : Call A
  asks_empty : Call A

pub data Reply {ℓ} (A : Type ℓ) : Type ℓ where
  done : Reply A
  got : Option A → Reply A
  told : Bool → Reply A

module _ {ℓ} {A : Type ℓ} where
  step : LinkedList A → Call A → Reply A × LinkedList A
  step q (puts x) = (done, put order_always_last q x)
  step q gets = let (x, q') = get q in (got x, q')
  step q asks_empty = (told (is_empty (some q)), q)

  pub run : LinkedList A → List (Call A) → List (Reply A)
  run q [] = []
  run q (c ∷ cs) = let (r, q') = step q c in r ∷ run q' cs

  -- The specification: a sequence that grows at its end and shrinks at its front.
  spec_step : List A → Call A → Reply A × List A
  spec_step xs (puts x) = (done, xs ++ (x ∷ []))
  spec_step [] gets = (got none, [])
  spec_step (x ∷ xs) gets = (got (some x), xs)
  spec_step [] asks_empty = (told true, [])
  spec_step (x ∷ xs) asks_empty = (told false, x ∷ xs)

  pub spec_run : List A → List (Call A) → List (Reply A)
  spec_run xs [] = []
  spec_run xs (c ∷ cs) = let (r, xs') = spec_step xs c in r ∷ spec_run xs' cs

  get_from-IsSized :
      (xs : List A) (q : LinkedList A) → q.elements ≡ xs → IsSized q → IsSized (get_from xs q).1
  unfolding get_from
  get_from-IsSized [] q e h = h
  get_from-IsSized (x ∷ xs) q e h = omega (arith, ap length e)

  pub get-IsSized : (q : LinkedList A) → IsSized q → IsSized (get q).1
  unfolding get
  get-IsSized q h = get_from-IsSized q.elements q refl h

  pub is_empty-length :
      (q : LinkedList A)
      → IsSized q
      → length q.elements < word32
      → is_empty (some q) ≡ (length q.elements == 0)
  unfolding is_empty
  is_empty-length q h b = ground arith

  -- One call gives the specification's reply, and leaves the specification's sequence.
  step_refines :
      (q : LinkedList A) (xs : List A) (c : Call A)
      → q.elements ≡ xs
      → IsSized q
      → length xs < word32
      → ((step q c).0 ≡ (spec_step xs c).0)
        × ((step q c).1.elements ≡ (spec_step xs c).1)
        × IsSized (step q c).1
        × (length (spec_step xs c).1 ≤ length xs + 1)
  unfolding step spec_step put
  step_refines q xs (puts x) e h b = (
    refl,
    unfold add_node in insert-always_last x q.elements ∙ ap (λ (ys : List A). ys ++ (x ∷ [])) e,
    add_node-IsSized order_always_last q x h,
    omega (arith, length-append xs (x ∷ [])),
  )
  step_refines q [] gets e h b =
      unfold get in rw e (refl, refl, rw e at (get-IsSized q h), omega arith)
  step_refines q (x ∷ xs) gets e h b =
      unfold get in rw e (refl, refl, rw e at (get-IsSized q h), omega arith)
  step_refines q [] asks_empty e h b =
      rw (is_empty-length q h (rw e b), e) (refl, refl, omega (arith, ap length e), omega arith)
  step_refines q (x ∷ xs) asks_empty e h b =
      rw (is_empty-length q h (rw e b), e)
        (ground arith, refl, omega (arith, ap length e), omega arith)

  -- Every sequence of calls on a queue of commons_queue_buildQueue is answered as the first-in
  -- first-out sequence of its elements answers it, while fewer than 2^32 elements can be queued.
  pub run_refines :
      (q : LinkedList A) (cs : List (Call A))
      → IsSized q
      → length q.elements + length cs < word32
      → run q cs ≡ spec_run q.elements cs
  unfolding run spec_run
  run_refines q [] h b = refl
  run_refines q (c ∷ cs) h b =
      let (r, e, s, k) = step_refines q q.elements c refl h (omega arith) in
      ap₂ ◌∷◌ r
        (run_refines (step q c).1 cs s (omega (arith, ap length e)) ∙ ap (λ xs. spec_run xs cs) e)
