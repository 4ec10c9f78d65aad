-- ===== src/Praid/Thread/Drain.antt =====
-- The loop of praid_ppd_thread_sender gets through the pending jobs of a disk.
use grage.Prelude.{
  ℕ, ◌<◌, true, false, Option, none, some, List, [], ◌∷◌, ◌++◌, ◌≡◌, refl, ap, sym, ◌∙◌, map,
  append_assoc, append-nil, arith, length,
}
use grage.Commons.LinkedList.{word32, IsSized}
use grage.Commons.Queue.{get}
use grage.Commons.Queue.Fifo.{get-IsSized}
use grage.Nipc.Message.{NipcMessage}
use grage.Praid.Jobs.{Job, build_nipc_message_from_job, storage_queue_put}
use grage.Praid.State.{State}
use grage.Praid.Thread.{Round, goes_on, returns, waits, crashes, send_job, sender_round}
use grage.Praid.Thread.Sender.{storage_queue_get-cons, elements-get-cons}
use grage.Commons.Queue.Fifo.{is_empty-length}

-- What a round goes on with.
abbrev pub going : Round → Option State
going (returns s) = none
going waits = none
going (goes_on s) = some s
going crashes = none

-- As many rounds of the loop of praid_ppd_thread_sender as there are numbers, which the new sent jobs
-- take; `none` if it does not go on.
unfoldable pub sender_rounds : NipcMessage → List ℕ → State → ℕ → Option State
sender_rounds builder [] s p = some s
sender_rounds builder (id ∷ ids) s p = elim (going (sender_round builder id s p)) [
  | none ↦ none
  | some s' ↦ sender_rounds builder ids s' p
]

-- A connected disk, whose pending jobs are these, while no replication is active.
abbrev pub IsSending : State → ℕ → List Job → Type 0
IsSending s p jobs =
    ((s.heap p).connected ≡ true)
    × (s.replication_active ≡ false)
    × ((s.heap p).pending_jobs.elements ≡ jobs)
    × IsSized (s.heap p).pending_jobs

sent_round :
    (builder : NipcMessage) (id : ℕ) (s : State) (p : ℕ) (job : Job) (rest : List Job)
    → IsSending s p (job ∷ rest)
    → length (job ∷ rest) < word32
    → let m = build_nipc_message_from_job builder job in
      (s' : State) × (going (sender_round builder id s p) ≡ some s')
      × IsSending s' p rest
      × (s'.sent ≡ s.sent ++ (((s.heap p).connection, m) ∷ []))
      × ((s'.heap p).connection ≡ (s.heap p).connection)
unfolding sender_round storage_queue_put
sent_round builder id s p job rest (c, r, e, h) b = (
  send_job id s p (build_nipc_message_from_job builder job) (get (s.heap p).pending_jobs).1,
  ground (
    arith,
    is_empty-length (s.heap p).pending_jobs h,
    storage_queue_get-cons builder s p job rest e,
  ),
  (
    ground arith,
    ground arith,
    ground (arith, elements-get-cons s p job rest e),
    ground (arith, get-IsSized (s.heap p).pending_jobs h),
  ),
  ground arith,
  ground arith,
)

-- After as many rounds as a connected disk has pending jobs, with no replication active and nothing
-- queued meanwhile, none is pending, and the messages of all of them were sent over the disk's
-- connection, in their order.
pub sender_rounds_lem :
    (builder : NipcMessage) (ids : List ℕ) (s : State) (p : ℕ) (jobs : List Job)
    → IsSending s p jobs
    → length jobs < word32
    → length ids ≡ length jobs
    → (s' : State) × (sender_rounds builder ids s p ≡ some s')
      × IsSending s' p []
      × (s'.sent
          ≡ s.sent
            ++ map (λ job. ((s.heap p).connection, build_nipc_message_from_job builder job)) jobs)
unfolding sender_rounds
sender_rounds_lem builder [] s p [] h b l = (s, refl, h, sym (append-nil s.sent))
sender_rounds_lem builder [] s p (job ∷ rest) h b l = absurd (omega arith)
sender_rounds_lem builder (id ∷ ids) s p [] h b l = absurd (omega arith)
sender_rounds_lem builder (id ∷ ids) s p (job ∷ rest) h b l =
    let (s1, q, h1, out, con) = sent_round builder id s p job rest h b in
    let (s2, q2, h2, out2) =
      sender_rounds_lem builder ids s1 p rest h1 (omega arith) (omega arith) in
    let message : ℕ → Job → ℕ × NipcMessage = λ n j. (n, build_nipc_message_from_job builder j) in
    (
      s2,
      ap
            (λ (x : Option State).
              let r : Option State = elim x [
                | none ↦ none
                | some s' ↦ sender_rounds builder ids s' p
              ] in
              r)
            q
          ∙ q2,
      h2,
      out2
          ∙ ap (λ n. s1.sent ++ map (message n) rest) con
          ∙ ap (λ x. x ++ map (message (s.heap p).connection) rest) out
          ∙ append_assoc s.sent (message (s.heap p).connection job ∷ [])
              (map (message (s.heap p).connection) rest),
    )
