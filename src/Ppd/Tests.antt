-- ===== src/Ppd/Tests.antt =====
-- A disk of two sectors of 512 bytes, with four sectors in a cylinder.
use grage.Prelude.{
  arith, ℕ, ◌%◌, ◌^◌, true, false, some, List, [], ◌∷◌, ◌++◌, ◌≡◌, refl, length, length-replicate,
}
use grage.Commons.LinkedList.{build_list}
use grage.Commons.Queue.{build_queue, get, get_from}
use grage.Nipc.Message.{NipcMessage, response_success}
use grage.Nipc.Samples.{request, sector, content}
use grage.Ppd.Geometry.{cylinder_from_sector, sector_of_cylinder_from_sector}
use grage.Ppd.Jobs.{Job, build_job}
use grage.Ppd.Strategy.{is_sstf}
use grage.Ppd.Persistence.{write_sector}
use grage.Ppd.Queues.{
  Config, State, put_in_queue, process_request, pick_from_queue, do_message, do_job,
}
use grage.Ppd.Queues.Order.{jobs_of}
use grage.Ppd.Queues.Nearest.{IsNearestFirst, put_in_queue-IsNearestFirst}
use grage.Ppd.Queues.Serve.{do_job-read_your_write}

abbrev config : Config
config = record { algorithm = is_sstf; per_cylinder = 4; is_listen_mode = true; praid_socket = 5 }

abbrev job : ℕ → ℕ → ℕ → Job
job id op n = build_job id (request op n 0)

abbrev state : List Job → List ℕ → State
state jobs disk = record {
  jobs_queue = record { elements = jobs; size = length jobs % 2 ^ 32 };
  job_id = 4;
  posicion_actual = record { pista = 0; sector_number = 0 };
  disk = disk;
  sent = [];
  replication_disk_volume = false;
  replication_process_active = false;
  volume_size = length disk % 2 ^ 32;
}

put_in_queue-IsNearestFirst_example :
    IsNearestFirst 0
      (put_in_queue config
        (state (job 1 b'P' 3 ∷ job 2 b'G' 5 ∷ []) [])
        (request b'G' 3 0)).jobs_queue.elements
    × (jobs_of 3
          (put_in_queue config
            (state (job 1 b'P' 3 ∷ job 2 b'G' 5 ∷ []) [])
            (request b'G' 3 0)).jobs_queue.elements
        ≡ job 1 b'P' 3 ∷ build_job 4 (request b'G' 3 0) ∷ [])
put_in_queue-IsNearestFirst_example =
    put_in_queue-IsNearestFirst config (state (job 1 b'P' 3 ∷ job 2 b'G' 5 ∷ []) [])
      (request b'G' 3 0) refl (omega arith) (omega arith) (omega arith, (omega arith, tt))
      ((omega arith, tt), (tt, tt))

abbrev old_disk : List ℕ
old_disk = content 0 ++ content 0

abbrev new_disk : List ℕ
new_disk = content 0 ++ content 1

written : write_sector old_disk (sector 1 1) ≡ some new_disk
unfolding write_sector
written = refl

do_job-read_your_write_example :
    (s₁ : State) × (s₂ : State) × (reply : NipcMessage) × (do_job
        (request 0 0 0)
        config
        (process_request config (state [] old_disk) (request b'P' 1 1) 8).0
      ≡ some s₁)
    × (do_job (request 0 0 0) config (process_request config s₁ (request b'G' 1 0) 9).0 ≡ some s₂)
    × (s₂.sent ≡ (9, reply) ∷ [])
    × (reply.payload.disk_sector ≡ sector 1 1)
    × (reply.header.response_code ≡ response_success)
    × (s₂.disk ≡ new_disk)
unfolding build_queue build_list
do_job-read_your_write_example =
    do_job-read_your_write config (state [] old_disk) (request b'P' 1 1) (request b'G' 1 0)
      (request 0 0 0) (request 0 0 0) 8 9 new_disk refl refl refl (length-replicate {A = ℕ} 512 1)
      written refl

abbrev after_first : State
after_first = record (state (job 2 b'G' 5 ∷ []) old_disk) {
  posicion_actual = record { pista = 0; sector_number = 1 };
}

first_round :
    do_job (request 0 0 0) config (state (job 1 b'P' 1 ∷ job 2 b'G' 5 ∷ []) old_disk)
    ≡ some after_first
unfolding do_job pick_from_queue do_message get get_from write_sector cylinder_from_sector
    sector_of_cylinder_from_sector
first_round = refl
