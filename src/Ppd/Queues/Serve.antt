-- ===== src/Ppd/Queues/Serve.antt =====
-- What a round of the worker does.
use grage.Prelude.{
  ℕ, ◌+◌, ◌-◌, ◌%◌, ◌^◌, ◌<◌, true, false, Option, none, some, List, [], ◌∷◌, ◌++◌, ◌≡◌, refl, ◌==◌,
  arith, length, Bool-cases, inl, inr, if◌then◌else◌, sym, ◌∙◌, ap,
}
use mathlib.Core.Option.{none-ne-some, some-injective}
use grage.Commons.Queue.{get, get_from, build_queue}
use grage.Commons.LinkedList.{LinkedList, word32, build_list}
use grage.Commons.Queue.Put.{put-empty}
use grage.Nipc.Message.{
  NipcMessage, DiskSector, add_response_code, add_disk_sector, set_pfs_socket, op_get_sectors,
  op_put_sectors, response_success,
}
use grage.Ppd.Jobs.{Job, build_job, build_nipc_message_from_job}
use grage.Ppd.Geometry.{sector_from_place}
use grage.Ppd.Persistence.{sector_size, write_sector, read_sector}
use grage.Ppd.Persistence.Laws.{read_sector-write_sector_self}
use grage.Ppd.Strategy.{strategy}
use grage.Ppd.Queues.{
  Config, State, current_position, put_in_queue, process_request, pick_from_queue, do_message,
  do_job, setear_posicion_cabezal, response_get_sector,
}

abbrev rest_of : State → List Job → LinkedList Job
rest_of s js = record { elements = js; size = (s.jobs_queue.size + word32 - 1) % word32 }

pick_from_queue-cons :
    (garbage : NipcMessage) (j : Job) (js : List Job) (n : ℕ)
    → (j.operation_id == 0) ≡ false
    → pick_from_queue garbage (record { elements = j ∷ js; size = n })
      ≡ some (
        build_nipc_message_from_job garbage j,
        record { elements = js; size = (n + word32 - 1) % word32 },
      )
unfolding pick_from_queue get get_from
pick_from_queue-cons garbage j js n o = rw o refl

-- The head moves once the message is done.
abbrev move : Config → ℕ → Option State → Option State
move c sector none = none
move c sector (some s) = some (setear_posicion_cabezal c s sector)

-- The worker's round, after the first job is known.
round :
    (garbage : NipcMessage) (c : Config) (s : State) (j : Job) (js : List Job)
    → s.jobs_queue.elements ≡ j ∷ js
    → (j.operation_id == 0) ≡ false
    → do_job garbage c s
      ≡ move c j.sector_id (
          do_message c
            (record s { jobs_queue = rest_of s js })
            (build_nipc_message_from_job garbage j))
unfolding do_job
round garbage c s j js q o =
    rw (q, do_job, pick_from_queue-cons garbage j js s.jobs_queue.size o) refl

idle :
    (garbage : NipcMessage) (c : Config) (s : State) (j : Job) (js : List Job)
    → s.jobs_queue.elements ≡ j ∷ js
    → (j.operation_id == 0) ≡ true
    → do_job garbage c s ≡ none
unfolding do_job pick_from_queue
idle garbage c s j js q o = rw (q, do_job, pick_from_queue, o) refl

do_message-jobs_queue :
    (c : Config) (s s' : State) (m : NipcMessage)
    → do_message c s m ≡ some s'
    → s'.jobs_queue ≡ s.jobs_queue
unfolding do_message
do_message-jobs_queue c s s' m e = ground arith

position_of_sector :
    (c : Config) (s : State) (sector : ℕ)
    → 0 < c.per_cylinder
    → sector < 2 ^ 32
    → current_position c (setear_posicion_cabezal c s sector).posicion_actual ≡ sector
position_of_sector c s sector h b =
    let e = (sector_from_place c.per_cylinder sector h).0 in omega (arith, e)

after :
    (c : Config) (queue : LinkedList Job) (o : Option State) (s' : State) (sector : ℕ)
    → 0 < c.per_cylinder
    → sector < 2 ^ 32
    → ((s : State) → o ≡ some s → s.jobs_queue ≡ queue)
    → move c sector o ≡ some s'
    → (s'.jobs_queue ≡ queue) × (current_position c s'.posicion_actual ≡ sector)
after c queue none s' sector h b keeps e = absurd (none-ne-some s' e)
after c queue (some s) s' sector h b keeps e =
    let i = some-injective _ _ (sym e) in rw i (keeps s refl, position_of_sector c s sector h b)

-- A round takes the first job, leaves the others as they stood, and ends with the head at the
-- sector of the job.
pub do_job-first :
    (garbage : NipcMessage) (c : Config) (s s' : State) (j : Job) (js : List Job)
    → s.jobs_queue.elements ≡ j ∷ js
    → 0 < c.per_cylinder
    → j.sector_id < 2 ^ 32
    → do_job garbage c s ≡ some s'
    → (s'.jobs_queue.elements ≡ js) × (current_position c s'.posicion_actual ≡ j.sector_id)
do_job-first garbage c s s' j js q h b e = elim (Bool-cases (j.operation_id == 0)) [
  | inl o ↦ absurd (none-ne-some s' (sym (idle garbage c s j js q o) ∙ e))
  | inr o ↦
      let t = record s { jobs_queue = rest_of s js } in
      let m = build_nipc_message_from_job garbage j in
      let r =
        after c (rest_of s js) (do_message c t m) s' j.sector_id h b
          (λ s₁ d. do_message-jobs_queue c t s₁ m d) (sym (round garbage c s j js q o) ∙ e) in
      (ap (λ l. l.elements) (r.0), r.1)
]

request-put :
    (c : Config) (s : State) (m : NipcMessage) (a : ℕ)
    → m.header.operation_id ≡ op_put_sectors
    → (process_request c s m a).0 ≡ put_in_queue c s (set_pfs_socket m a)
unfolding process_request
request-put c s m a h = rw h refl

request-get :
    (c : Config) (s : State) (m : NipcMessage) (a : ℕ)
    → m.header.operation_id ≡ op_get_sectors
    → (process_request c s m a).0 ≡ put_in_queue c s (set_pfs_socket m a)
unfolding process_request
request-get c s m a h = rw h refl

-- The only job of a queue.
abbrev one : State → Job → State
one s j = record s {
  jobs_queue = record { elements = j ∷ []; size = 1 };
  job_id = (s.job_id + 1) % 2 ^ 32;
}

put_in_queue-one :
    (c : Config) (s : State) (m : NipcMessage)
    → s.jobs_queue ≡ build_queue
    → put_in_queue c s m ≡ one s (build_job s.job_id m)
unfolding put_in_queue
put_in_queue-one c s m h =
    let e =
      put-empty (strategy c.algorithm (current_position c s.posicion_actual)) s.jobs_queue
        (build_job s.job_id m) h in
    rw e refl

serve_put :
    (garbage : NipcMessage) (c : Config) (s : State) (j : Job) (disk' : List ℕ)
    → j.operation_id ≡ op_put_sectors
    → write_sector s.disk
        (record { sector_number = j.sector_id; sector_content = j.sector_content })
      ≡ some disk'
    → do_job garbage c (one s j)
      ≡ some (
          setear_posicion_cabezal c
            (record s { jobs_queue = build_queue; job_id = (s.job_id + 1) % 2 ^ 32; disk = disk' })
            j.sector_id)
unfolding do_message build_queue build_list
serve_put garbage c s j disk' h w =
    round garbage c (one s j) j [] refl (rw h refl) ∙ rw (h, do_message, w) refl

-- The answer to a GET job.
abbrev reply_of : NipcMessage → Job → DiskSector → NipcMessage
reply_of garbage j sector =
    add_response_code (add_disk_sector (build_nipc_message_from_job garbage j) sector)
      response_success

serve_get :
    (garbage : NipcMessage) (c : Config) (s : State) (j : Job) (sector : DiskSector)
    → j.operation_id ≡ op_get_sectors
    → read_sector s.disk j.sector_id ≡ some sector
    → do_job garbage c (one s j)
      ≡ some (
          setear_posicion_cabezal c
            (response_get_sector c
              (record s { jobs_queue = build_queue; job_id = (s.job_id + 1) % 2 ^ 32 })
              (reply_of garbage j sector))
            j.sector_id)
unfolding do_message build_queue build_list
serve_get garbage c s j sector h w =
    let n : (j.operation_id % 2 ^ 8 == op_put_sectors) ≡ false = rw h refl in
    let y : (j.operation_id % 2 ^ 8 == op_get_sectors) ≡ true = rw h refl in
    round garbage c (one s j) j [] refl (rw h refl) ∙ rw (n, y, w) refl

-- From an empty queue, a sector that a PUT request brings is written in the worker's next round,
-- and a GET request for it is answered in the round after, to the socket that asked in listen mode
-- and to PRAID otherwise, with the content that was written and a success code.
pub do_job-read_your_write :
    (c : Config) (s : State) (p g garbage garbage' : NipcMessage) (a b : ℕ) (disk' : List ℕ)
    → s.jobs_queue ≡ build_queue
    → p.header.operation_id ≡ op_put_sectors
    → g.header.operation_id ≡ op_get_sectors
    → length p.payload.disk_sector.sector_content ≡ sector_size
    → write_sector s.disk p.payload.disk_sector ≡ some disk'
    → g.payload.disk_sector.sector_number ≡ p.payload.disk_sector.sector_number
    → (s₁ : State) × (s₂ : State) × (reply : NipcMessage) × (do_job garbage c
          (process_request c s p a).0
        ≡ some s₁)
      × (do_job garbage' c (process_request c s₁ g b).0 ≡ some s₂)
      × (s₂.sent
          ≡ s.sent ++ ((if c.is_listen_mode then b % 2 ^ 32 else c.praid_socket), reply) ∷ [])
      × (reply.payload.disk_sector ≡ p.payload.disk_sector)
      × (reply.header.response_code ≡ response_success)
      × (s₂.disk ≡ disk')
do_job-read_your_write c s p g garbage garbage' a b disk' q hp hg n w k =
    let j₁ = build_job s.job_id (set_pfs_socket p a) in
    let s₁ =
      setear_posicion_cabezal c
        (record s { jobs_queue = build_queue; job_id = (s.job_id + 1) % 2 ^ 32; disk = disk' })
        j₁.sector_id in
    let j₂ = build_job s₁.job_id (set_pfs_socket g b) in
    let reply = reply_of garbage' j₂ p.payload.disk_sector in
    let back = read_sector-write_sector_self s.disk disk' p.payload.disk_sector n w in
    (
      s₁,
      setear_posicion_cabezal c
          (response_get_sector c
            (record s₁ { jobs_queue = build_queue; job_id = (s₁.job_id + 1) % 2 ^ 32 }) reply)
          j₂.sector_id,
      reply,
      ap (do_job garbage c) (request-put c s p a hp ∙ put_in_queue-one c s (set_pfs_socket p a) q)
          ∙ serve_put garbage c s j₁ disk' hp w,
      ap (do_job garbage' c)
            (request-get c s₁ g b hg ∙ put_in_queue-one c s₁ (set_pfs_socket g b) refl)
          ∙ serve_get garbage' c s₁ j₂ p.payload.disk_sector hg (ap (read_sector disk') k ∙ back),
      refl,
      refl,
      refl,
      refl,
    )
