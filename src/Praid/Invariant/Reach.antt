-- ===== src/Praid/Invariant/Reach.antt =====
-- The process as a whole: every event is handled in one step, in any order.
use grage.Prelude.{
  ℕ, ◌+◌, Bool, Option, none, some, List, [], ◌∷◌, ◌≡◌, refl, arith, ◌⊎◌, inl, inr, Option-cases,
  Bool-cases, if◌then◌else◌, ◌==◌, ltb,
}
use grage.Commons.LinkedList.{add_node, order_always_last, remove_node}
use grage.Nipc.Message.{NipcMessage, set_pfs_socket, is_blank_message, type_sync_process}
use grage.Praid.Jobs.{Job, get_reading_jobs}
use grage.Praid.State.{State, storage_eq, remove_ppd_storage, set_disconnected}
use grage.Praid.Balancer.{redistribute_jobs, assign_job, select_storage}
use grage.Praid.Entrypoint.{
  Admission, ignored, denied, answered, serves_pfs, serves_ppd, crashed, put_each,
  execute_put_sector, execute_get_sector, process_request, process_new_ppd_connection, admit,
  put_pending,
}
use grage.Praid.Thread.{
  Round, returns, waits, goes_on, crashes, sender_round, send_job, listener_round, listen_sync,
  listen_answer, process_disconnection, check_if_continue_denegating_requests,
}
use grage.Praid.Invariant.{IsValid, Keeps, kept-IsValid, added-IsValid, removed-IsValid}

-- What happens next: a PFS sends a request, a process connects, or a thread of a disk goes one round.
pub data Event : Type 0 where
  requests : ℕ → ℕ → NipcMessage → Event
  connects : ℕ → ℕ → NipcMessage → Event
  sender : ℕ → ℕ → Event
  listener : ℕ → NipcMessage → Event

-- The state that an outcome leaves.
abbrev after_request : State → Option (Bool × State) → State
after_request s none = s
after_request s (some (go_on, s')) = s'

abbrev after_admission : State → Admission → State
after_admission s ignored = s
after_admission s (denied s') = s'
after_admission s (answered s') = s'
after_admission s (serves_pfs s') = s'
after_admission s (serves_ppd p s') = s'
after_admission s crashed = s

abbrev after_round : State → Round → State
after_round s (returns s') = s'
after_round s waits = s
after_round s (goes_on s') = s'
after_round s crashes = s

module _ (builder : NipcMessage) (enabled : Bool) where
  pub step : State → Event → State
  step s (requests id socket m) = after_request s (process_request id s socket m)
  step s (connects garbage socket m) = after_admission s (admit builder garbage enabled s socket m)
  step s (sender id p) = after_round s (sender_round builder id s p)
  step s (listener p m) = after_round s (listener_round builder s p m)

  pub run : State → List Event → State
  run s [] = s
  run s (e ∷ es) = run (step s e) es

put_each-Keeps : (id : ℕ) (ps : List ℕ) (s : State) (m : NipcMessage) → Keeps s (put_each id ps s m)
unfolding put_each
put_each-Keeps id [] s m = (refl, refl)
put_each-Keeps id (p ∷ ps) s m = put_each-Keeps id ps (put_pending id s p m) m

request-Keeps :
    (id : ℕ) (s : State) (socket : ℕ) (m : NipcMessage)
    → Keeps s (after_request s (process_request id s socket m))
unfolding process_request execute_get_sector execute_put_sector
request-Keeps id s socket m =
    ground (arith, put_each-Keeps id s.ppd_storages.elements s (set_pfs_socket m socket))

redistribute_jobs-Keeps : (jobs : List Job) (s : State) → Keeps s (redistribute_jobs jobs s)
unfolding redistribute_jobs
redistribute_jobs-Keeps [] s = (refl, refl)
redistribute_jobs-Keeps (job ∷ jobs) s = elim (Option-cases (select_storage s)) [
  | inl e ↦ rw (e, redistribute_jobs) (refl, refl)
  | inr (p, e) ↦ rw (e, redistribute_jobs) (redistribute_jobs-Keeps jobs (assign_job s p job))
]

sender-Keeps :
    (builder : NipcMessage) (id : ℕ) (s : State) (p : ℕ)
    → Keeps s (after_round s (sender_round builder id s p))
unfolding sender_round send_job
sender-Keeps builder id s p = ground arith

sync-Keeps :
    (builder : NipcMessage) (s s' : State) (m : NipcMessage)
    → listen_sync builder s m ≡ some s'
    → Keeps s s'
unfolding listen_sync
sync-Keeps builder s s' m e = ground arith

-- praid_ppd_processDisconnection takes one disk off the list and no more.
abbrev Removes : ℕ → State → State → Type 0
Removes p s s' =
    (s'.ppd_storages ≡ (remove_node (storage_eq s.heap) s.ppd_storages p).1)
    × (s'.next_pointer ≡ s.next_pointer)

remove-Removes : (s : State) (p : ℕ) → Removes p s (remove_ppd_storage s p)
remove-Removes s p = ground arith

hand_out-Removes :
    (s : State) (p : ℕ) (jobs : List Job) (size : ℕ)
    → Removes p s (
        if ltb 0 size
        then redistribute_jobs jobs (remove_ppd_storage s p)
        else remove_ppd_storage s p)
hand_out-Removes s p jobs size =
    ground (arith, redistribute_jobs-Keeps jobs (remove_ppd_storage s p), remove-Removes s p)

disconnection-IsValid : (s : State) (p : ℕ) → IsValid s → IsValid (process_disconnection s p)
unfolding process_disconnection
disconnection-IsValid s p v =
    let t = check_if_continue_denegating_requests s (s.heap p).id in
    let q = get_reading_jobs (t.heap p).pending_jobs (t.heap p).sended_jobs in
    let k : Keeps s t = ground arith in
    let r = hand_out-Removes t p q.elements q.size in
    removed-IsValid t _ p (kept-IsValid s t v k) r.0 r.1

answer-Keeps : (s : State) (p : ℕ) (m : NipcMessage) → Keeps s (listen_answer s p m)
unfolding listen_answer
answer-Keeps s p m = (refl, refl)

after_sync-Keeps :
    (builder : NipcMessage) (s : State) (m : NipcMessage)
    → Keeps s
        (after_round s (elim (listen_sync builder s m) [ none ↦ crashes | some s' ↦ goes_on s' ]))
unfolding listen_sync
after_sync-Keeps builder s m = ground arith

message-Keeps :
    (builder : NipcMessage) (s : State) (p : ℕ) (m : NipcMessage)
    → Keeps s (
        after_round s (
          if m.header.message_type == type_sync_process
          then elim (listen_sync builder s m) [ none ↦ crashes | some s' ↦ goes_on s' ]
          else goes_on (listen_answer s p m)))
message-Keeps builder s p m = elim (Bool-cases (m.header.message_type == type_sync_process)) [
  | inl e ↦ rw e (after_sync-Keeps builder s m)
  | inr e ↦ rw e (answer-Keeps s p m)
]

listener-IsValid :
    (builder : NipcMessage) (s : State) (p : ℕ) (m : NipcMessage)
    → IsValid s
    → IsValid (after_round s (listener_round builder s p m))
unfolding listener_round
listener-IsValid builder s p m v = elim (Bool-cases (s.heap p).connected) [
  | inr e ↦ rw (e, listener_round) (disconnection-IsValid s p v)
  | inl e ↦ elim (Bool-cases (is_blank_message m)) [
    | inl b ↦
        rw (e, listener_round)
          (rw b (disconnection-IsValid (set_disconnected s p) p (kept-IsValid s _ v (refl, refl))))
    | inr b ↦ rw (e, listener_round) (rw b (kept-IsValid s _ v (message-Keeps builder s p m)))
  ]
]

-- A new disk is allocated and put at the end of the list.
abbrev Adds : State → State → Type 0
Adds s s' =
    (s'.ppd_storages ≡ add_node order_always_last s.ppd_storages s.next_pointer)
    × (s'.next_pointer ≡ s.next_pointer + 1)

admit-cases :
    (builder : NipcMessage) (garbage : ℕ) (enabled : Bool) (s : State) (socket : ℕ)
    (m : NipcMessage)
    → let s' = after_admission s (admit builder garbage enabled s socket m) in
      Keeps s s' ⊎ Adds s s'
unfolding admit process_new_ppd_connection
admit-cases builder garbage enabled s socket m = ground arith

admit-IsValid :
    (builder : NipcMessage) (garbage : ℕ) (enabled : Bool) (s : State) (socket : ℕ)
    (m : NipcMessage)
    → IsValid s
    → IsValid (after_admission s (admit builder garbage enabled s socket m))
admit-IsValid builder garbage enabled s socket m v =
    elim (admit-cases builder garbage enabled s socket m) [
      | inl k ↦ kept-IsValid s _ v k
      | inr (e, n) ↦ added-IsValid s _ v e n
    ]

module _ (builder : NipcMessage) (enabled : Bool) where
  step-IsValid : (s : State) (e : Event) → IsValid s → IsValid (step builder enabled s e)
  unfolding step
  step-IsValid s (requests id socket m) v = kept-IsValid s _ v (request-Keeps id s socket m)
  step-IsValid s (connects garbage socket m) v = admit-IsValid builder garbage enabled s socket m v
  step-IsValid s (sender id p) v = kept-IsValid s _ v (sender-Keeps builder id s p)
  step-IsValid s (listener p m) v = listener-IsValid builder s p m v

  -- Whatever events come in whatever order, the list of disks keeps its size right, and lists no
  -- disk twice and only disks that were allocated, if it does so at the start.
  pub run-IsValid : (s : State) (es : List Event) → IsValid s → IsValid (run builder enabled s es)
  unfolding run
  run-IsValid s [] v = v
  run-IsValid s (e ∷ es) v = run-IsValid (step builder enabled s e) es (step-IsValid s e v)
