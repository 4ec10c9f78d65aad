-- ===== src/Praid/Thread/Sender.antt =====
-- praid_ppd_thread_sender passes the pending jobs on in their order.
use grage.Prelude.{
  ℕ, ◌+◌, ◌%◌, ◌^◌, ◌<◌, true, false, some, List, [], ◌∷◌, ◌++◌, ◌≡◌, ◌≢◌, arith, ◌==◌,
  if◌then◌else◌, length,
}
use grage.Commons.LinkedList.{word32, IsSized}
use grage.Commons.Queue.{get}
use grage.Commons.Queue.Fifo.{is_empty-length}
use grage.Commons.Queue.Put.{elements-put_last}
use grage.Nipc.Message.{NipcMessage, op_get_sectors}
use grage.Praid.Jobs.{
  Job, build_job, build_nipc_message_from_job, storage_queue_get, storage_queue_put,
}
use grage.Praid.State.{State}
use grage.Praid.Thread.{goes_on, sender_round, send_job}

pub storage_queue_get-cons :
    (builder : NipcMessage) (s : State) (p : ℕ) (job : Job) (rest : List Job)
    → (s.heap p).pending_jobs.elements ≡ job ∷ rest
    → storage_queue_get builder (s.heap p).pending_jobs
      ≡ some (build_nipc_message_from_job builder job, (get (s.heap p).pending_jobs).1)
unfolding storage_queue_get get
storage_queue_get-cons builder s p job rest e = ground arith

pub elements-get-cons :
    (s : State) (p : ℕ) (job : Job) (rest : List Job)
    → (s.heap p).pending_jobs.elements ≡ job ∷ rest
    → (get (s.heap p).pending_jobs).1.elements ≡ rest
unfolding get
elements-get-cons s p job rest e = ground arith

-- A round of the sender of a connected disk, while no replication is active, sends the message of
-- the oldest pending job over the disk's connection, moves the job to the end of the sent jobs,
-- counts one more awaited response exactly if the job is a GET, and leaves the other disks alone.
pub sender_round_lem :
    (builder : NipcMessage) (id : ℕ) (s : State) (p : ℕ) (job : Job) (rest : List Job)
    → (s.heap p).connected ≡ true
    → s.replication_active ≡ false
    → (s.heap p).pending_jobs.elements ≡ job ∷ rest
    → IsSized (s.heap p).pending_jobs
    → length (job ∷ rest) < word32
    → let m = build_nipc_message_from_job builder job in
      (s' : State) × (sender_round builder id s p ≡ goes_on s')
      × (s'.sent ≡ s.sent ++ (((s.heap p).connection, m) ∷ []))
      × ((s'.heap p).pending_jobs.elements ≡ rest)
      × ((s'.heap p).sended_jobs.elements
          ≡ (s.heap p).sended_jobs.elements ++ (build_job id m ∷ []))
      × ((s'.heap p).pending_responses ≡ (
          if m.header.operation_id == op_get_sectors
          then ((s.heap p).pending_responses + 1) % 2 ^ 16
          else (s.heap p).pending_responses))
      × ((q : ℕ) → q ≢ p → s'.heap q ≡ s.heap q)
unfolding sender_round storage_queue_put
sender_round_lem builder id s p job rest c r e h b = (
  send_job id s p (build_nipc_message_from_job builder job) (get (s.heap p).pending_jobs).1,
  ground (
    arith,
    is_empty-length (s.heap p).pending_jobs h,
    storage_queue_get-cons builder s p job rest e,
  ),
  ground arith,
  ground (arith, elements-get-cons s p job rest e),
  ground (
    arith,
    elements-put_last (s.heap p).sended_jobs
        (build_job id (build_nipc_message_from_job builder job)),
  ),
  ground arith,
  λ q n. ground arith,
)
