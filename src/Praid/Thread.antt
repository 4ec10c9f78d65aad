-- ===== src/Praid/Thread.antt =====
-- grage-praid/app/src/core/praid-ppd-thread.c: the two threads of a disk, one round of each at a
-- time, and what happens when the disk is gone. `builder` is what an uninitialised message holds.
pub mod Sender
pub mod Drain
pub mod Listener
pub mod Disconnection
use grage.Prelude.{
  ℕ, Bool, true, false, Option, none, some, List, [], ◌∷◌, ◌==◌, ◌&&◌, ◌||◌, not, if◌then◌else◌,
  ltb,
}
use grage.Commons.LinkedList.{LinkedList, remove_node, get_node_by_criteria}
use grage.Commons.Queue.{is_empty}
use grage.Nipc.Message.{
  NipcMessage, is_blank_message, type_sync_process, op_get_sectors, op_sync_put_sector, op_sync_end,
}
use grage.Praid.Jobs.{Job, same_sector, storage_queue_get, storage_queue_put, get_reading_jobs}
use grage.Praid.State.{
  Storage, State, write, send_message, set_disconnected, remove_ppd_storage,
  increment_pending_responses, decrement_pending_responses, increment_sync_sectors_counter,
  increment_bytes_synchronized, set_replication_status_active,
}
use grage.Praid.Balancer.{redistribute_jobs}
use grage.Praid.Entrypoint.{call_sync_put_sector, call_process_jobs}

-- How a round of a thread ends: the thread returns, waits with nothing done, goes on, or the
-- process crashes.
pub data Round : Type 0 where
  returns : State → Round
  waits : Round
  goes_on : State → Round
  crashes : Round

-- The rest of a round of praid_ppd_thread_sender, once a message is taken from the pending jobs.
unfoldable pub send_job : ℕ → State → ℕ → NipcMessage → LinkedList Job → State
send_job id s p message pending =
    let storage = s.heap p in
    let sent = send_message s storage.connection message in
    let moved = write sent p (record storage {
      pending_jobs = pending;
      sended_jobs = storage_queue_put id storage.sended_jobs message;
    }) in
    if message.header.operation_id == op_get_sectors
    then increment_pending_responses moved p
    else moved

-- One round of praid_ppd_thread_sender for the storage `p`.
unfoldable pub sender_round : NipcMessage → ℕ → State → ℕ → Round
unfolding send_job
sender_round builder id s p =
    let storage = s.heap p in
    let taken : Round = elim (storage_queue_get builder storage.pending_jobs) [
      | none ↦ crashes
      | some (message, pending) ↦ goes_on (send_job id s p message pending)
    ] in
    if not storage.connected
    then returns s
    else (if is_empty (some storage.pending_jobs) || s.replication_active then waits else taken)

-- `storage != NULL && storage->id == ppdid`
abbrev pub has_id : State → Option ℕ → ℕ → Bool
has_id s none ppd_id = false
has_id s (some p) ppd_id = (s.heap p).id == ppd_id

-- praid_ppd_checkIfContinueDenegatingRequests
abbrev pub check_if_continue_denegating_requests : State → ℕ → State
check_if_continue_denegating_requests s ppd_id =
    if has_id s s.sync_state.source ppd_id || has_id s s.sync_state.destiny ppd_id
    then (if s.replication_active then set_replication_status_active s false else s)
    else s

-- praid_ppd_processDisconnection
unfoldable pub process_disconnection : State → ℕ → State
process_disconnection s p =
    let s' = check_if_continue_denegating_requests s (s.heap p).id in
    let reading_jobs = get_reading_jobs (s'.heap p).pending_jobs (s'.heap p).sended_jobs in
    if ltb 0 reading_jobs.size
    then redistribute_jobs reading_jobs.elements (remove_ppd_storage s' p)
    else remove_ppd_storage s' p

-- The last part of a round of praid_ppd_thread_listener: the job that the answer is for leaves
-- the sent jobs.
unfoldable pub forget_job : LinkedList Job → ℕ → LinkedList Job
forget_job sended sector = elim (get_node_by_criteria sended (λ j. j.sector_id == sector)) [
  | none ↦ sended
  | some job ↦ (remove_node same_sector sended job).1
]

-- The branch of praid_ppd_thread_listener for an answer to a job.
unfoldable pub listen_answer : State → ℕ → NipcMessage → State
unfolding forget_job
listen_answer s p message =
    let s1 = decrement_pending_responses s p in
    let s2 = send_message s1 message.payload.pfs_socket message in
    write s2 p (record (s2.heap p) {
      sended_jobs = forget_job (s2.heap p).sended_jobs message.payload.disk_sector.sector_number;
    })

-- The branch of praid_ppd_thread_listener for a message of the replication; `none` is the
-- dereference of a NULL `dest`.
unfoldable pub listen_sync : NipcMessage → State → NipcMessage → Option State
listen_sync builder s message =
    let h = message.header in
    if h.operation_id == op_sync_put_sector
    then elim s.sync_state.destiny [
      | none ↦ none
      | some dest ↦
          let s1 = increment_sync_sectors_counter s in
          let s2 =
            call_sync_put_sector builder s1 (s1.heap dest).connection message.payload.disk_sector
              h.payload_length in
          some (increment_bytes_synchronized s2 h.payload_length)
    ]
    else if h.operation_id == op_sync_end
    then elim s.sync_state.destiny [
      | none ↦ none
      | some dest ↦ some (
          set_replication_status_active (call_process_jobs builder s (s.heap dest).connection)
            false)
    ]
    else some s

-- One round of praid_ppd_thread_listener for the storage `p`, with the message that came.
unfoldable pub listener_round : NipcMessage → State → ℕ → NipcMessage → Round
listener_round builder s p message =
    if not (s.heap p).connected
    then returns (process_disconnection s p)
    else if is_blank_message message
    then returns (process_disconnection (set_disconnected s p) p)
    else if message.header.message_type == type_sync_process
    then elim (listen_sync builder s message) [ none ↦ crashes | some s' ↦ goes_on s' ]
    else goes_on (listen_answer s p message)
