-- ===== src/Ppd/Sync.antt =====
-- grage-ppd/app/src/core/ppd-sync.c and the loop of services/ppd-praid-entrypoint.c: a disk that
-- sends its file to PRAID, and one that writes the file that it is sent. The counters that are
-- printed are left out. Opening a file and writing it succeed; `fread` reads 512 bytes or what is
-- left, and the end of the file is seen by the read that comes up short.
pub mod Copy
use grage.Prelude.{
  ℕ, zero, suc, ◌%◌, ◌^◌, Bool, true, false, not, Option, none, some, List, [], ◌∷◌, ◌++◌, map,
  ◌==◌, if◌then◌else◌, ◌-◌, ltb, length, take, drop, replicate,
}
use grage.Nipc.Message.{
  DiskSector, NipcMessage, type_sync_process, op_put_sectors, op_get_sectors, op_sync_put_sector,
  op_sync_get_sector, op_sync_end, field_blank, add_message_type, add_operation_id,
  add_payload_length, add_disk_sector, build_nipc_message,
}
use grage.Ppd.Persistence.{sector_size}
use grage.Ppd.Queues.{Config, State, put_in_queue}

-- commons_buildDiskSector with the bytes of a read at its start.
abbrev pub disk_sector_of : List ℕ → DiskSector
disk_sector_of bytes = record {
  sector_number = 2 ^ 32 - 1;
  sector_content = bytes ++ replicate (sector_size - length bytes) 0;
}

-- The message of ppd_endpoint_sendSyncSector; the first argument is an uninitialised message.
abbrev pub sync_sector_message : NipcMessage → ℕ → DiskSector → NipcMessage
sync_sector_message builder pay_length disk_sector =
    add_message_type
      (add_disk_sector
        (add_payload_length (add_operation_id (build_nipc_message builder) op_sync_put_sector)
          pay_length)
        disk_sector)
      type_sync_process

-- The message of ppd_endpoint_sendFinishReplication
abbrev pub finish_message : NipcMessage → NipcMessage
finish_message builder =
    add_operation_id (add_message_type (build_nipc_message builder) type_sync_process) op_sync_end

-- The messages of ppd_sync_processFileSectors for what is left of the file; the fuel bounds the
-- reads.
unfoldable pub process_file_sectors : NipcMessage → ℕ → List ℕ → List NipcMessage
process_file_sectors builder zero rest = []
process_file_sectors builder (suc fuel) rest =
    let following = process_file_sectors builder fuel (drop sector_size rest) in
    let bytes = take sector_size rest in
    let message = sync_sector_message builder (length bytes) (disk_sector_of bytes) in
    if ltb (length bytes) sector_size
    then (if ltb 0 (length bytes) then message ∷ [] else [])
    else message ∷ following

-- ppd_sync_finishReplication
unfoldable pub finish_replication : State → State
finish_replication s =
    if s.replication_process_active
    then record s {
      replication_disk_volume = false;
      volume_size = length s.disk % 2 ^ 32;
      replication_process_active = false;
    }
    else s

-- The messages of ppd_sync_replicateGet.
abbrev pub sync_messages : NipcMessage → List ℕ → List NipcMessage
sync_messages builder file =
    process_file_sectors builder (suc (length file)) file ++ (finish_message builder ∷ [])

-- ppd_sync_replicateGet
unfoldable pub replicate_get : NipcMessage → Config → State → State
replicate_get builder c s =
    let s' = finish_replication (record s { replication_disk_volume = true }) in
    record s' { sent = s.sent ++ map (λ m. (c.praid_socket, m)) (sync_messages builder s.disk) }

-- The opening of the file in ppd_sync_replicatePut: mode "w" leaves it empty.
abbrev pub open_volume : State → State
open_volume s =
    if s.replication_disk_volume then s else record s { disk = []; replication_disk_volume = true }

-- ppd_sync_replicatePut
unfoldable pub replicate_put : State → ℕ → DiskSector → State
replicate_put s bytes_count sector =
    let s' = open_volume s in
    if ltb 0 bytes_count
    then record s' { disk = s'.disk ++ take bytes_count sector.sector_content }
    else s'

abbrev pub activate : State → State
activate s = record s { replication_process_active = true }

-- One round of ppd_entrypoint_launchPraidPpdEntrypoint on the message that came; `none` is the end
-- of the loop, and of the process.
unfoldable pub praid_round : NipcMessage → Config → State → NipcMessage → Option State
praid_round builder c s m =
    let op = m.header.operation_id in
    if op == field_blank
    then none
    else if op == op_get_sectors
    then some (put_in_queue c s m)
    else if op == op_put_sectors
    then some (put_in_queue c s m)
    else if m.header.message_type == type_sync_process
    then (if op == op_sync_put_sector
        then some (replicate_put (activate s) m.header.payload_length m.payload.disk_sector)
        else if op == op_sync_get_sector
        then some (replicate_get builder c (activate s))
        else if op == op_sync_end
        then some (finish_replication s)
        else some s)
    else some s

-- The rounds for a sequence of messages.
unfoldable pub praid_rounds : NipcMessage → Config → State → List NipcMessage → Option State
praid_rounds builder c s [] = some s
praid_rounds builder c s (m ∷ ms) = elim (praid_round builder c s m) [
  | none ↦ none
  | some s' ↦ praid_rounds builder c s' ms
]
