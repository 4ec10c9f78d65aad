-- ===== src/Praid/Entrypoint.antt =====
-- grage-praid/app/src/services: the requests of the file system (praid-pfs-entrypoint.c), the
-- connections of new processes (praid-entrypoint-listener.c) and the messages to the disks
-- (praid-endpoint.c). `builder` is what an uninitialised message holds, and `id` or `garbage` what
-- an allocated struct holds in the field that is not set.
pub mod Mirror
use grage.Prelude.{
  ℕ, Bool, true, false, Option, none, some, List, [], ◌∷◌, ◌==◌, ◌&&◌, not, if◌then◌else◌,
}
use grage.Nipc.Message.{
  NipcMessage, DiskSector, build_nipc_message, add_message_type, add_operation_id,
  add_response_code, add_process_id, add_disk_sector, add_payload_length, set_pfs_socket,
  is_blank_message, type_handshake, type_sync_process, op_put_sectors, op_get_sectors,
  op_sync_put_sector, op_sync_end, process_pfs, process_ppd, response_error,
}
use grage.Nipc.Facade.{handshake_message}
use grage.Praid.Jobs.{storage_queue_put}
use grage.Praid.State.{
  Storage, State, write, send_message, close_socket, build_storage_from_id, add_ppd_storage,
  is_there_any_ppd_connected, is_valid_replication, fire_synchronization,
}
use grage.Praid.Balancer.{select_storage}

-- praid_endpoint_ppd_callSyncPutSector
abbrev pub call_sync_put_sector : NipcMessage → State → ℕ → DiskSector → ℕ → State
call_sync_put_sector builder s socket disk_sector bytes = send_message s socket (
    add_operation_id
      (add_message_type
        (add_payload_length (add_disk_sector (build_nipc_message builder) disk_sector) bytes)
        type_sync_process)
      op_sync_put_sector)

-- praid_endpoint_ppd_callProcessJobs
abbrev pub call_process_jobs : NipcMessage → State → ℕ → State
call_process_jobs builder s socket =
    send_message s socket (
      add_operation_id (add_message_type (build_nipc_message builder) type_sync_process)
        op_sync_end)

-- `praid_storage_queue_put(storage->pendingJobs , message)`
abbrev pub put_pending : ℕ → State → ℕ → NipcMessage → State
put_pending id s p message =
    write s p
      (record (s.heap p) { pending_jobs = storage_queue_put id (s.heap p).pending_jobs message })

-- The loop of praid_pfs_entrypoint_executePutSector.
unfoldable pub put_each : ℕ → List ℕ → State → NipcMessage → State
put_each id [] s message = s
put_each id (p ∷ ps) s message = put_each id ps (put_pending id s p message) message

-- praid_pfs_entrypoint_executePutSector
unfoldable pub execute_put_sector : ℕ → State → NipcMessage → State
unfolding put_each
execute_put_sector id s message = put_each id s.ppd_storages.elements s message

-- praid_pfs_entrypoint_executeGetSector; `none` is the dereference of a NULL storage.
unfoldable pub execute_get_sector : ℕ → State → NipcMessage → Option State
execute_get_sector id s message = elim (select_storage s) [
  | none ↦ none
  | some p ↦ some (put_pending id s p message)
]

-- praid_pfs_entrypoint_processRequest, of the message that was received; `none` as above.
unfoldable pub process_request : ℕ → State → ℕ → NipcMessage → Option (Bool × State)
process_request id s pfs_socket received =
    let message = set_pfs_socket received pfs_socket in
    elim (message.header.operation_id == op_get_sectors) [
      | true ↦ elim (execute_get_sector id s message) [ none ↦ none | some s' ↦ some (true, s') ]
      | false ↦ elim (message.header.operation_id == op_put_sectors) [
        | true ↦ some (true, execute_put_sector id s message)
        | false ↦ some (not (is_blank_message message), s)
      ]
    ]

-- praid_entry_processNewPpdConnection: the new storage and the state; `none` is the dereference
-- of a NULL master.
unfoldable pub process_new_ppd_connection :
    NipcMessage → ℕ → Bool → State → NipcMessage → ℕ → Option (ℕ × State)
process_new_ppd_connection builder garbage enabled s message socket =
    let (destiny, s1) =
      build_storage_from_id s socket message.header.operation_id message.header.response_code
        garbage in
    let master = select_storage s1 in
    let s2 = add_ppd_storage s1 destiny in
    elim (is_valid_replication enabled s2) [
      | true ↦ elim master [
        | none ↦ none
        | some m ↦ some (destiny, fire_synchronization builder s2 m destiny)
      ]
      | false ↦ some (destiny, call_process_jobs builder s2 (s2.heap destiny).connection)
    ]

-- praid_entry_denegateConnection
abbrev pub deny_connection : NipcMessage → State → ℕ → ℕ → State
deny_connection builder s process_id socket =
    close_socket
      (send_message s socket (
        add_process_id
          (add_message_type (add_response_code (build_nipc_message builder) response_error)
            type_handshake)
          process_id))
      socket

-- What becomes of a connection: nothing is done with it, it is refused, or threads are launched
-- for it; or the process crashes.
pub data Admission : Type 0 where
  ignored : Admission
  denied : State → Admission
  answered : State → Admission
  serves_pfs : State → Admission
  serves_ppd : ℕ → State → Admission
  crashed : Admission

-- One round of praid_entry_startEntrypointListening, for a socket and the handshake that came.
unfoldable pub admit : NipcMessage → ℕ → Bool → State → ℕ → NipcMessage → Admission
admit builder garbage enabled s socket handshake =
    let process = handshake.header.process_handshake_id in
    let refused = denied (deny_connection builder s process socket) in
    let s' = send_message s socket (handshake_message builder process) in
    let joins : Admission =
      elim (process_new_ppd_connection builder garbage enabled s' handshake socket) [
        | none ↦ crashed
        | some (p, s'') ↦ serves_ppd p s''
      ] in
    let accepted =
      if process == process_pfs
      then serves_pfs s'
      else (if process == process_ppd then joins else answered s') in
    if handshake.header.message_type == type_handshake
    then (if (process == process_ppd) && s.replication_active
        then refused
        else (if (process == process_pfs) && not (is_there_any_ppd_connected s)
            then refused
            else accepted))
    else ignored
