-- ===== src/Ppd/Jobs.antt =====
-- The jobs of grage-ppd/app/src/planifier/ppd-queues.c.
use grage.Prelude.{ℕ, ◌%◌, ◌^◌, Bool, false, Option, none, some, List, ◌==◌}
use grage.Nipc.Message.{NipcMessage}

-- Job of ppd-queues.h
pub record Job : Type 0 where
  pub job_id : ℕ
  pub message_type : ℕ
  pub operation_id : ℕ
  pub sector_content : List ℕ
  pub sector_id : ℕ
  pub pfs_socket : ℕ
  pub payload_length : ℕ

-- ppd_queues_buildJob, with the `jobId` that ppd_queues_putInQueue then sets.
abbrev pub build_job : ℕ → NipcMessage → Job
build_job id mes = record {
  job_id = id;
  message_type = mes.header.message_type;
  operation_id = mes.header.operation_id;
  sector_content = mes.payload.disk_sector.sector_content;
  sector_id = mes.payload.disk_sector.sector_number;
  pfs_socket = mes.payload.pfs_socket;
  payload_length = mes.header.payload_length;
}

-- ppd_queues_isTheSameJob, where `none` is NULL
abbrev pub is_the_same_job : Option Job → Option Job → Bool
is_the_same_job none j2 = false
is_the_same_job (some j1) none = false
is_the_same_job (some j1) (some j2) = j1.job_id == j2.job_id

-- ppd_queues_buildNipcMessageFromJob; `mes` is what the uninitialised local holds.
abbrev pub build_nipc_message_from_job : NipcMessage → Job → NipcMessage
build_nipc_message_from_job mes job = record {
  header = record (mes.header) {
    message_type = job.message_type % 2 ^ 8;
    payload_length = job.payload_length;
    operation_id = job.operation_id % 2 ^ 8;
  };
  payload = record {
    disk_sector = record { sector_number = job.sector_id; sector_content = job.sector_content };
    pfs_socket = job.pfs_socket;
  };
}
