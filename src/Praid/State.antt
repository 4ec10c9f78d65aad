-- ===== src/Praid/State.antt =====
-- grage-praid/app/src/core/praid-state.c and praid-ppd-synchronizer.c: the disks of the cluster
-- and the state of a replication. A PPDConnectionStorage is shared by the list of storages and by
-- the two threads of its disk, so it lives on a heap and the rest of the program holds pointers.
use grage.Prelude.{
  ℕ, ◌+◌, ◌-◌, ◌%◌, ◌^◌, Bool, true, false, Option, none, some, List, [], ◌∷◌, ◌++◌, ◌==◌, ◌&&◌,
  if◌then◌else◌, ltb, leb, ◌≡◌, arith,
}
use grage.Commons.LinkedList.{LinkedList, build_list, add_node, remove_node, order_always_last}
use grage.Commons.Queue.{build_queue}
use grage.Nipc.Message.{
  NipcMessage, build_nipc_message, add_message_type, add_operation_id, type_sync_process,
  op_sync_get_sector,
}
use grage.Praid.Jobs.{Job}

-- PPDConnectionStorage of praid-state.h, less the threads and the mutex.
pub record Storage : Type 0 where
  pub id : ℕ
  pub pending_jobs : LinkedList Job
  pub pending_responses : ℕ
  pub connection : ℕ
  pub connected : Bool
  pub volume_size : ℕ
  pub sended_jobs : LinkedList Job

-- SyncProcessState of praid-sync.h, less the time it started, which is only printed. `none` is NULL.
pub record SyncProcessState : Type 0 where
  pub sectors_counter : ℕ
  pub bytes_synchronized : ℕ
  pub source : Option ℕ
  pub destiny : Option ℕ

-- The globals of the process, the memory that it has allocated, the messages that it has sent with
-- their sockets, oldest first, and the sockets that it has closed.
pub record State : Type 0 where
  pub heap : ℕ → Storage
  pub next_pointer : ℕ
  pub ppd_storages : LinkedList ℕ
  pub available_ppd_id : ℕ
  pub replication_active : Bool
  pub sync_state : SyncProcessState
  pub sent : List (ℕ × NipcMessage)
  pub closed : List ℕ

-- A write through a pointer.
abbrev pub update {ℓ} : {A : Type ℓ} → (ℕ → A) → ℕ → A → ℕ → A
update heap p v q = if q == p then v else heap q

pub update_self {ℓ} : {A : Type ℓ} (heap : ℕ → A) (p : ℕ) (v : A) → update heap p v p ≡ v
update_self heap p v = ground arith

abbrev pub write : State → ℕ → Storage → State
write s p v = record s { heap = update s.heap p v }

-- nipc_messaging_send, for a socket whose `send` takes the whole message.
abbrev pub send_message : State → ℕ → NipcMessage → State
send_message s socket m = record s { sent = s.sent ++ ((socket, m) ∷ []) }

-- `close`
abbrev pub close_socket : State → ℕ → State
close_socket s socket = record s { closed = s.closed ++ (socket ∷ []) }

-- praid_state_storage_eq, of pointers that are not NULL.
abbrev pub storage_eq : (ℕ → Storage) → ℕ → ℕ → Bool
storage_eq heap p q = (heap p).connection == (heap q).connection

-- praid_state_initializeStorages
abbrev pub initialize_storages : State → State
initialize_storages s = record s { ppd_storages = build_list }

-- praid_state_addPpdStorage
abbrev pub add_ppd_storage : State → ℕ → State
add_ppd_storage s p = record s { ppd_storages = add_node order_always_last s.ppd_storages p }

-- praid_state_buildPPDConnectionStorage; `garbage` is what the allocated `volumeSize` holds.
abbrev pub build_storage : State → ℕ → ℕ → ℕ × State
build_storage s socket garbage = (
  s.next_pointer,
  record s {
    heap = update s.heap s.next_pointer (record {
      id = s.available_ppd_id;
      pending_jobs = build_queue;
      pending_responses = 0;
      connection = socket;
      connected = true;
      volume_size = garbage;
      sended_jobs = build_queue;
    });
    next_pointer = s.next_pointer + 1;
    available_ppd_id = (s.available_ppd_id + 1) % 2 ^ 8;
  },
)

-- praid_state_buildPPDConnectionStorageFromId
abbrev pub build_storage_from_id : State → ℕ → ℕ → ℕ → ℕ → ℕ × State
build_storage_from_id s socket ppd_id size garbage =
    let (p, s') = build_storage s socket garbage in
    (p, write s' p (record (s'.heap p) { id = ppd_id; volume_size = size }))

-- praid_state_storage_incrementPendingResponses
abbrev pub increment_pending_responses : State → ℕ → State
increment_pending_responses s p =
    write s p
      (record (s.heap p) { pending_responses = ((s.heap p).pending_responses + 1) % 2 ^ 16 })

-- praid_state_storage_decrementPendingResponses
abbrev pub decrement_pending_responses : State → ℕ → State
decrement_pending_responses s p =
    write s p (record (s.heap p) {
      pending_responses = ((s.heap p).pending_responses + 2 ^ 16 - 1) % 2 ^ 16;
    })

-- praid_state_storage_setDisconnected
abbrev pub set_disconnected : State → ℕ → State
set_disconnected s p = write s p (record (s.heap p) { connected = false })

-- praid_state_removePddStorage: the socket of the storage that was found is closed.
abbrev pub remove_ppd_storage : State → ℕ → State
remove_ppd_storage s p =
    let (found, storages) = remove_node (storage_eq s.heap) s.ppd_storages p in
    elim found [
      | none ↦ record s { ppd_storages = storages }
      | some q ↦ close_socket (record s { ppd_storages = storages }) (s.heap q).connection
    ]

-- praid_state_isThereAnyPpdConnected, once the list is initialised. A `size` from 2^31 on is a
-- negative `int`.
abbrev pub is_there_any_ppd_connected : State → Bool
is_there_any_ppd_connected s = ltb 0 s.ppd_storages.size && ltb s.ppd_storages.size (2 ^ 31)

-- praid_sync_setReplicationStatusActive
abbrev pub set_replication_status_active : State → Bool → State
set_replication_status_active s status = record s { replication_active = status }

-- praid_sync_incrementSyncSectorsCounter
abbrev pub increment_sync_sectors_counter : State → State
increment_sync_sectors_counter s = record s {
  sync_state = record (s.sync_state) {
    sectors_counter = (s.sync_state.sectors_counter + 1) % 2 ^ 32;
  };
}

-- praid_sync_incrementBytesSynchronized
abbrev pub increment_bytes_synchronized : State → ℕ → State
increment_bytes_synchronized s bytes = record s {
  sync_state = record (s.sync_state) {
    bytes_synchronized = (s.sync_state.bytes_synchronized + bytes) % 2 ^ 32;
  };
}

-- praid_sync_buildSyncProcessState
abbrev pub build_sync_process_state : ℕ → ℕ → SyncProcessState
build_sync_process_state src dest = record {
  sectors_counter = 0;
  bytes_synchronized = 0;
  source = some src;
  destiny = some dest;
}

-- praid_ppd_sync_isValidReplication, with the configured flag.
abbrev pub is_valid_replication : Bool → State → Bool
is_valid_replication enabled s =
    (leb 2 s.ppd_storages.size && ltb s.ppd_storages.size (2 ^ 31)) && enabled

-- praid_endpoint_ppd_callSyncGetSector; the first argument is an uninitialised message.
abbrev pub call_sync_get_sector : NipcMessage → State → ℕ → State
call_sync_get_sector builder s socket = send_message s socket (
    add_operation_id (add_message_type (build_nipc_message builder) type_sync_process)
      op_sync_get_sector)

-- praid_ppd_sync_fireSynchronization
abbrev pub fire_synchronization : NipcMessage → State → ℕ → ℕ → State
fire_synchronization builder s source dest =
    let s' = record s {
      replication_active = true;
      sync_state = build_sync_process_state source dest;
    } in
    call_sync_get_sector builder s' (s'.heap source).connection
