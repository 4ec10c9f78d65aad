-- ===== src/Ppd/Queues.antt =====
-- grage-ppd/app/src/planifier/ppd-queues.c, ppd-planifier-worker.c, and the handlers of
-- grage-ppd/app/src/services: the planned queue of jobs, the round of the worker that serves it, and
-- the head of the disk (ppd-console-entrypoint.c). A round is one step. The console's request
-- (operation 69) answers with a time in floating point; its round is `none` here, as is one that
-- leaves the mapped disk.
pub mod Order
pub mod Nearest
pub mod Serve
use grage.Prelude.{
  ℕ, ◌+◌, ◌%◌, ◌^◌, Bool, true, false, Option, none, some, List, [], ◌∷◌, ◌++◌, ◌==◌, if◌then◌else◌,
}
use grage.Commons.LinkedList.{LinkedList}
use grage.Commons.Queue.{put, get}
use grage.Nipc.Message.{
  DiskSector, NipcMessage, op_put_sectors, op_get_sectors, response_success, add_disk_sector,
  add_response_code, set_pfs_socket, is_blank_message,
}
use grage.Ppd.Geometry.{
  cylinder_from_sector, sector_of_cylinder_from_sector, sector_from_sector_of_cylinder,
}
use grage.Ppd.Jobs.{Job, build_job, build_nipc_message_from_job}
use grage.Ppd.Strategy.{Algorithm, strategy}
use grage.Ppd.Persistence.{write_sector, read_sector}

-- PistaSector
pub record PistaSector : Type 0 where
  pub pista : ℕ
  pub sector_number : ℕ

-- What the configuration fixes: the algorithm, the sectors of a cylinder, and whether the process
-- listens for PFS connections or is connected to PRAID by `praid_socket`.
pub record Config : Type 0 where
  pub algorithm : Algorithm
  pub per_cylinder : ℕ
  pub is_listen_mode : Bool
  pub praid_socket : ℕ

-- The globals of the process, and the messages that it has sent, with their sockets. `disk` is the
-- bytes of the file at the configured path, which the mapping shares; a job that is served while a
-- replication has made the file longer than its mapping is outside the model. The last three are
-- the globals of the replication, `replicationDiskVolume` as whether it is set.
pub record State : Type 0 where
  pub jobs_queue : LinkedList Job
  pub job_id : ℕ
  pub posicion_actual : PistaSector
  pub disk : List ℕ
  pub sent : List (ℕ × NipcMessage)
  pub replication_disk_volume : Bool
  pub replication_process_active : Bool
  pub volume_size : ℕ

-- `currentPossition`, as both strategies compute it from the head.
abbrev pub current_position : Config → PistaSector → ℕ
current_position c head =
    sector_from_sector_of_cylinder (c.per_cylinder) (head.sector_number) (head.pista) % 2 ^ 32

-- ppd_queues_putInQueue
unfoldable pub put_in_queue : Config → State → NipcMessage → State
put_in_queue c s mes = record s {
  jobs_queue =
      put (strategy c.algorithm (current_position c s.posicion_actual)) s.jobs_queue
        (build_job s.job_id mes);
  job_id = (s.job_id + 1) % 2 ^ 32;
}

-- ppd_pfs_entrypoint_processRequest on the message it received: the state, and whether the loop of
-- the connection goes on.
unfoldable pub process_request : Config → State → NipcMessage → ℕ → State × Bool
process_request c s message pfs_socket =
    if message.header.operation_id == op_get_sectors
    then (put_in_queue c s (set_pfs_socket message pfs_socket), true)
    else if message.header.operation_id == op_put_sectors
    then (put_in_queue c s (set_pfs_socket message pfs_socket), true)
    else if is_blank_message message
    then (s, false)
    else (s, true)

-- ppd_queues_getFirstJobOperationIdFromQueue
abbrev pub get_first_job_operation_id : List Job → ℕ
get_first_job_operation_id [] = 0
get_first_job_operation_id (j ∷ js) = j.operation_id

-- ppd_queues_pickFromQueue, when its loop ends; `none` is the loop going on.
unfoldable pub pick_from_queue :
    NipcMessage → LinkedList Job → Option (NipcMessage × LinkedList Job)
pick_from_queue garbage queue =
    if get_first_job_operation_id queue.elements == 0
    then none
    else let (first, rest) = get queue in
      elim first [ none ↦ none | some job ↦ some (build_nipc_message_from_job garbage job, rest) ]

-- ppd_endpoint_responseGetSector
abbrev pub response_get_sector : Config → State → NipcMessage → State
response_get_sector c s message = record s {
  sent =
      s.sent
      ++ ((if c.is_listen_mode then message.payload.pfs_socket else c.praid_socket), message) ∷ [];
}

-- ppd_console_entrypoint_setearPosicionCabezal, as the worker calls it.
abbrev pub setear_posicion_cabezal : Config → State → ℕ → State
setear_posicion_cabezal c s sector = record s {
  posicion_actual = record {
    pista = cylinder_from_sector (c.per_cylinder) sector;
    sector_number = sector_of_cylinder_from_sector (c.per_cylinder) sector;
  };
}

-- The branches of ppd_planifier_worker_doJob's loop for a message that was picked.
unfoldable pub do_message : Config → State → NipcMessage → Option State
do_message c s m =
    if m.header.operation_id == op_put_sectors
    then elim (write_sector s.disk m.payload.disk_sector) [
      | none ↦ none
      | some disk ↦ some (record s { disk = disk })
    ]
    else if m.header.operation_id == op_get_sectors
    then elim (read_sector s.disk m.payload.disk_sector.sector_number) [
      | none ↦ none
      | some sector ↦
          some (
            response_get_sector c s (add_response_code (add_disk_sector m sector) response_success))
    ]
    else if m.header.operation_id == 69
    then none
    else some s

-- One round of ppd_planifier_worker_doJob.
unfoldable pub do_job : NipcMessage → Config → State → Option State
do_job garbage c s = elim (pick_from_queue garbage s.jobs_queue) [
  | none ↦ none
  | some p ↦ elim (do_message c (record s { jobs_queue = p.1 }) p.0) [
    | none ↦ none
    | some s' ↦ some (setear_posicion_cabezal c s' p.0.payload.disk_sector.sector_number)
  ]
]
