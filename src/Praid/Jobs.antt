-- ===== src/Praid/Jobs.antt =====
-- grage-praid/app/src/core/praid-queue.c: the jobs that wait for a disk.
pub mod Roundtrip
use Prim.Native.Nat.{ℕ, ◌%◌, ◌^◌}
use grage.Prelude.{Bool, true, false, Option, none, some, List, [], ◌∷◌, ◌==◌, if◌then◌else◌}
use grage.Commons.LinkedList.{LinkedList, order_always_last}
use grage.Commons.Queue.{get, put, build_queue}
use grage.Nipc.Message.{NipcMessage, op_get_sectors}

-- Job of praid-queue.h
pub record Job : Type 0 where
  pub job_id : ℕ
  pub message_type : ℕ
  pub operation_id : ℕ
  pub sector_content : List ℕ
  pub sector_id : ℕ
  pub pfs_socket : ℕ
  pub payload_length : ℕ

-- praid_jobs_eq, where `none` is NULL
abbrev pub jobs_eq : Option Job → Option Job → Bool
jobs_eq none j2 = false
jobs_eq (some j1) none = false
jobs_eq (some j1) (some j2) = j1.sector_id == j2.sector_id

-- The equality criterion of the job queues, whose nodes are never NULL.
abbrev pub same_sector : Job → Job → Bool
same_sector j1 j2 = jobs_eq (some j1) (some j2)

-- praid_jobs_buildJob; `id` is what the allocated `jobId` holds.
abbrev pub build_job : ℕ → NipcMessage → Job
build_job id mes = record {
  job_id = id;
  message_type = mes.header.message_type;
  operation_id = mes.header.operation_id;
  sector_content = mes.payload.disk_sector.sector_content;
  sector_id = mes.payload.disk_sector.sector_number;
  pfs_socket = mes.payload.pfs_socket;
  payload_length = mes.header.payload_length;
}

-- praid_jobs_buildNipcMessageFromJob; `mes` is what the uninitialised local holds. The casts are
-- of the 32-bit fields of a job to the 8-bit fields of a header.
abbrev pub build_nipc_message_from_job : NipcMessage → Job → NipcMessage
build_nipc_message_from_job mes job = record {
  header = record (mes.header) {
    message_type = job.message_type % 2 ^ 8;
    payload_length = job.payload_length;
    operation_id = job.operation_id % 2 ^ 8;
  };
  payload = record {
    disk_sector = record { sector_number = job.sector_id; sector_content = job.sector_content };
    pfs_socket = job.pfs_socket;
  };
}

-- praid_storage_queue_put
unfoldable pub storage_queue_put : ℕ → LinkedList Job → NipcMessage → LinkedList Job
storage_queue_put id q mes = put order_always_last q (build_job id mes)

-- praid_storage_queue_get; `none` is the dereference of a NULL job.
unfoldable pub storage_queue_get :
    NipcMessage → LinkedList Job → Option (NipcMessage × LinkedList Job)
storage_queue_get mes q =
    let (job, q') = get q in
    elim job [ none ↦ none | some j ↦ some (build_nipc_message_from_job mes j, q') ]

-- praid_utils_fillReadingQueue over the jobs that its iterator visits.
unfoldable pub fill_reading_queue : List Job → LinkedList Job → LinkedList Job
fill_reading_queue [] reading = reading
fill_reading_queue (j ∷ js) reading =
    fill_reading_queue js
      (if j.operation_id == op_get_sectors then put order_always_last reading j else reading)

-- praid_utils_getReadingJobs, of the pending and of the sent jobs of a storage.
unfoldable pub get_reading_jobs : LinkedList Job → LinkedList Job → LinkedList Job
unfolding fill_reading_queue
get_reading_jobs pending sended =
    fill_reading_queue sended.elements (fill_reading_queue pending.elements build_queue)
