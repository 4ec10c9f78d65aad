-- ===== src/Praid/Jobs/Roundtrip.antt =====
-- A message that passes through the queue of a disk, and the jobs that survive a disk.
use grage.Prelude.{
  ℕ, List, [], ◌∷◌, ◌++◌, ◌≡◌, ◌∙◌, append_assoc, append-nil, arith, ◌==◌, if◌then◌else◌,
  Bool-cases, inl, inr, some, ap,
}
use grage.Commons.LinkedList.{LinkedList, IsSized, build_list, order_always_last}
use grage.Commons.Queue.{put, get, build_queue}
use grage.Commons.Queue.Put.{elements-put_last, put-IsSized}
use grage.Nipc.Message.{NipcMessage, op_get_sectors}
use grage.Nipc.Wire.Roundtrip.{IsEncodable}
use grage.Praid.Jobs.{
  Job, build_job, storage_queue_put, storage_queue_get, fill_reading_queue, get_reading_jobs,
}

-- The jobs of a chain that read a sector, in order.
abbrev pub reads : List Job → List Job
reads [] = []
reads (j ∷ js) = let rest = reads js in if j.operation_id == op_get_sectors then j ∷ rest else rest

elements-fill_reading_queue :
    (js : List Job) (reading : LinkedList Job)
    → (fill_reading_queue js reading).elements ≡ reading.elements ++ reads js
unfolding fill_reading_queue
elements-fill_reading_queue [] reading = ground (arith, append-nil reading.elements)
elements-fill_reading_queue (j ∷ js) reading =
    elim (Bool-cases (j.operation_id == op_get_sectors)) [
      | inl e ↦
          rw (e, fill_reading_queue)
            (elements-fill_reading_queue js (put order_always_last reading j)
              ∙ ap (λ xs. xs ++ reads js) (elements-put_last reading j)
              ∙ append_assoc reading.elements (j ∷ []) (reads js))
      | inr e ↦ rw (e, fill_reading_queue) (elements-fill_reading_queue js reading)
    ]

fill_reading_queue-IsSized :
    (js : List Job) (reading : LinkedList Job)
    → IsSized reading
    → IsSized (fill_reading_queue js reading)
unfolding fill_reading_queue
fill_reading_queue-IsSized [] reading h = h
fill_reading_queue-IsSized (j ∷ js) reading h =
    elim (Bool-cases (j.operation_id == op_get_sectors)) [
      | inl e ↦
          rw (e, fill_reading_queue)
            (fill_reading_queue-IsSized js _ (put-IsSized order_always_last reading j h))
      | inr e ↦ rw (e, fill_reading_queue) (fill_reading_queue-IsSized js reading h)
    ]

-- praid_utils_getReadingJobs keeps the jobs that read a sector and no others: first those that are
-- pending, then those that were sent, each in its order. The queue's `size` counts them.
pub get_reading_jobs_lem :
    (pending sended : LinkedList Job)
    → ((get_reading_jobs pending sended).elements ≡ reads pending.elements ++ reads sended.elements)
      × IsSized (get_reading_jobs pending sended)
unfolding get_reading_jobs build_queue build_list
get_reading_jobs_lem pending sended = (
  elements-fill_reading_queue sended.elements (fill_reading_queue pending.elements build_queue)
      ∙ ap (λ xs. xs ++ reads sended.elements)
          (elements-fill_reading_queue pending.elements build_queue),
  fill_reading_queue-IsSized sended.elements _
      (fill_reading_queue-IsSized pending.elements build_queue (omega arith)),
)

-- A message that goes through an empty queue of jobs comes out with its type, length, operation,
-- sector, content and PFS socket; its response code and process id are what the uninitialised
-- message held.
pub storage_queue_get-storage_queue_put :
    (id : ℕ) (m junk : NipcMessage) (q : LinkedList Job)
    → q.elements ≡ []
    → IsEncodable m
    → (rest : LinkedList Job) × (storage_queue_get junk (storage_queue_put id q m)
        ≡ some (
          record m {
            header = record (m.header) {
              response_code = junk.header.response_code;
              process_handshake_id = junk.header.process_handshake_id;
            };
          },
          rest,
        ))
      × (rest.elements ≡ [])
unfolding storage_queue_get storage_queue_put get
storage_queue_get-storage_queue_put id m junk q e v =
    let h = elements-put_last q (build_job id m) in
    (
      (get (put order_always_last q (build_job id m))).1,
      ground (arith, h, v.message_type, v.operation_id),
      ground (arith, h),
    )
