-- ===== src/Praid/Tests.antt =====
-- A cluster of three disks, with the pointers 0, 1 and 2 and the connections 10, 11 and 12.
use grage.Prelude.{
  ℕ, ◌+◌, ◌%◌, true, false, none, some, List, [], ◌∷◌, ◌++◌, ◌≡◌, refl, ◌⊎◌, ◌==◌, if◌then◌else◌,
  Perm, arith, length,
}
use mathlib.Core.List.{cons-ne-nil}
use grage.Commons.LinkedList.{LinkedList, word32}
use grage.Nipc.Message.{NipcMessage}
use grage.Nipc.Samples.{request}
use grage.Praid.Jobs.{Job, build_job, build_nipc_message_from_job}
use grage.Praid.State.{Storage, State, update}
use grage.Praid.Balancer.{select_storage, redistribute_jobs}
use grage.Praid.Balancer.Select.{IsFirstLeast, select_storage_lem}
use grage.Praid.Balancer.Redistribute.{all_pending, IsDistinct, redistribute_jobs-perm}
use grage.Praid.Entrypoint.{execute_put_sector, execute_get_sector}
use grage.Praid.Entrypoint.Mirror.{with_job, execute_put_sector_lem, execute_get_sector_lem}
use grage.Praid.Invariant.{IsValid}
use grage.Praid.Invariant.Reach.{Event, requests, connects, sender, listener, run, run-IsValid}
use grage.Praid.Thread.{forget_job, process_disconnection}
use grage.Praid.Thread.Drain.{IsSending, sender_rounds, sender_rounds_lem}
use grage.Praid.Thread.Listener.{forget_job-keeps_read}
use grage.Praid.Thread.Disconnection.{process_disconnection-perm}

abbrev put_job : Job
put_job = build_job 0 (request b'P' 6 1)

abbrev get_job : Job
get_job = build_job 1 (request b'G' 6 0)

abbrev other_job : Job
other_job = build_job 2 (request b'G' 8 0)

abbrev queue_of : List Job → LinkedList Job
queue_of jobs = record { elements = jobs; size = length jobs % word32 }

abbrev disk : ℕ → List Job → List Job → Storage
disk n pending sended = record {
  id = n;
  pending_jobs = queue_of pending;
  pending_responses = 1;
  connection = 10 + n;
  connected = true;
  volume_size = 4096;
  sended_jobs = queue_of sended;
}

abbrev heap : ℕ → Storage
heap p = if p == 1 then disk 1 (other_job ∷ []) (put_job ∷ get_job ∷ []) else disk p [] []

abbrev cluster : State
cluster = record {
  heap = heap;
  next_pointer = 3;
  ppd_storages = record { elements = 0 ∷ 1 ∷ 2 ∷ []; size = 3 };
  available_ppd_id = 3;
  replication_active = false;
  sync_state = record {
    sectors_counter = 0;
    bytes_synchronized = 0;
    source = some 0;
    destiny = some 1;
  };
  sent = [];
  closed = [];
}

cluster-IsDistinct : IsDistinct cluster.ppd_storages.elements
cluster-IsDistinct =
    (((λ e. omega arith), ((λ e. omega arith), tt)), (((λ e. omega arith), tt), (tt, tt)))

cluster-IsValid : IsValid cluster
cluster-IsValid = record {
  sized = refl;
  distinct = cluster-IsDistinct;
  below = (omega arith, (omega arith, (omega arith, tt)));
}

abbrev blank : NipcMessage
blank = request 11 0 0

process_disconnection-perm_example :
    ((process_disconnection cluster 1).ppd_storages.elements ≡ 0 ∷ 2 ∷ [])
    × Perm
        (all_pending (process_disconnection cluster 1).heap (0 ∷ 2 ∷ []))
        ((other_job ∷ get_job ∷ []) ++ all_pending heap (0 ∷ 2 ∷ []))
process_disconnection-perm_example =
    process_disconnection-perm cluster 1 (0 ∷ []) (2 ∷ []) refl cluster-IsDistinct (refl, tt)
      (cons-ne-nil 0 (2 ∷ [])) (omega arith)

redistribute_jobs-perm_example :
    Perm
      (all_pending (redistribute_jobs (get_job ∷ []) cluster).heap (0 ∷ 1 ∷ 2 ∷ []))
      ((get_job ∷ []) ++ all_pending heap (0 ∷ 1 ∷ 2 ∷ []))
redistribute_jobs-perm_example =
    redistribute_jobs-perm (get_job ∷ []) cluster cluster-IsDistinct (cons-ne-nil 0 (1 ∷ 2 ∷ []))

select_storage_lem_example :
    ((cluster.ppd_storages.elements ≡ []) × (select_storage cluster ≡ none))
    ⊎ ((p : ℕ) × (select_storage cluster ≡ some p) × IsFirstLeast heap p (0 ∷ 1 ∷ 2 ∷ []))
select_storage_lem_example = select_storage_lem cluster

execute_put_sector_lem_example :
    (execute_put_sector 7 cluster (request b'P' 6 1)).heap 2
    ≡ with_job 7 (request b'P' 6 1) (heap 2)
execute_put_sector_lem_example =
    execute_put_sector_lem 7 cluster (request b'P' 6 1) 2 cluster-IsDistinct

execute_get_sector_lem_example :
    ((cluster.ppd_storages.elements ≡ [])
      × (execute_get_sector 7 cluster (request b'G' 6 1) ≡ none))
    ⊎ ((p : ℕ) × IsFirstLeast heap p (0 ∷ 1 ∷ 2 ∷ [])
        × (execute_get_sector 7 cluster (request b'G' 6 1)
            ≡ some
                (record cluster { heap = update heap p (with_job 7 (request b'G' 6 1) (heap p)) })))
execute_get_sector_lem_example = execute_get_sector_lem 7 cluster (request b'G' 6 1)

abbrev events : List Event
events =
    requests 7 9 (request b'P' 6 1)
    ∷ connects 0 13 (request 11 0 0)
    ∷ sender 1 1
    ∷ listener 1 (request b'G' 6 1)
    ∷ listener 2 blank
    ∷ []

run-IsValid_example : IsValid (run blank true cluster events)
run-IsValid_example = run-IsValid blank true cluster events cluster-IsValid

forget_job-keeps_read_example : (forget_job (heap 1).sended_jobs 6).elements ≡ get_job ∷ []
forget_job-keeps_read_example =
    forget_job-keeps_read (heap 1).sended_jobs [] put_job [] get_job [] refl tt refl refl

-- A disk with two pending jobs.
abbrev busy : State
busy = record cluster { heap = λ q. disk q (get_job ∷ other_job ∷ []) [] }

sender_rounds_lem_example :
    (s' : State) × (sender_rounds blank (8 ∷ 9 ∷ []) busy 1 ≡ some s')
    × IsSending s' 1 []
    × (s'.sent
        ≡ (11, build_nipc_message_from_job blank get_job)
          ∷ (11, build_nipc_message_from_job blank other_job)
          ∷ [])
sender_rounds_lem_example =
    sender_rounds_lem blank (8 ∷ 9 ∷ []) busy 1 (get_job ∷ other_job ∷ []) (refl, refl, refl, refl)
      (omega arith) refl
