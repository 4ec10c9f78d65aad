-- ===== src/Replication.antt =====
-- The three processes of a replication: the disk that is copied (grage-ppd ppd-sync.c), PRAID, which
-- passes its messages on (grage-praid praid-ppd-thread.c), and the disk that is written.
mod Tests
use grage.Prelude.{
  ℕ, suc, ◌+◌, ◌%◌, ◌^◌, ◌<◌, ◌≤◌, true, false, Option, none, some, List, [], ◌∷◌, ◌++◌, map, ◌≡◌,
  refl, ap, sym, ◌∙◌, length, arith, append_assoc,
}
use grage.Nipc.Message.{NipcMessage, op_sync_get_sector, type_sync_process, build_nipc_message}
use grage.Praid.Thread.{listen_sync}
use grage.Praid.State
use grage.Ppd.Queues
use grage.Ppd.Queues.{Config}
use grage.Ppd.Persistence.{sector_size}
use grage.Ppd.Sync.{
  disk_sector_of, sync_sector_message, finish_message, sync_messages, finish_replication,
  replicate_get, praid_round, praid_rounds,
}
use grage.Ppd.Sync.Copy.{
  chunks, sector_messages, AreChunks, AreChunks-chunks, sync_messages-chunks, praid_rounds-copy,
}

-- The rounds of praid_ppd_thread_listener on messages of a replication.
unfoldable pub relay : NipcMessage → State.State → List NipcMessage → Option State.State
relay builder s [] = some s
relay builder s (m ∷ ms) = elim (listen_sync builder s m) [
  | none ↦ none
  | some s' ↦ relay builder s' ms
]

relay-cons :
    (builder : NipcMessage) (s s' : State.State) (m : NipcMessage) (ms : List NipcMessage)
    → listen_sync builder s m ≡ some s'
    → relay builder s (m ∷ ms) ≡ relay builder s' ms
unfolding relay
relay-cons builder s s' m ms e = rw (relay, e) refl

-- PRAID's state once a sector of the replication is passed on to the disk `d`.
abbrev forward : NipcMessage → State.State → ℕ → List ℕ → State.State
forward builder s d b = record s {
  sent =
      s.sent
      ++ ((s.heap d).connection, sync_sector_message builder (length b) (disk_sector_of b)) ∷ [];
  sync_state = record (s.sync_state) {
    sectors_counter = (s.sync_state.sectors_counter + 1) % 2 ^ 32;
    bytes_synchronized = (s.sync_state.bytes_synchronized + length b) % 2 ^ 32;
  };
}

listen_sync-sector :
    (master builder : NipcMessage) (s : State.State) (d : ℕ) (b : List ℕ)
    → s.sync_state.destiny ≡ some d
    → length b ≤ sector_size
    → listen_sync builder s (sync_sector_message master (length b) (disk_sector_of b))
      ≡ some (forward builder s d b)
unfolding listen_sync build_nipc_message
listen_sync-sector master builder s d b e h =
    let n : length b % 2 ^ 16 ≡ length b = omega arith in rw (n, e) (rw (n, e) (rw n refl))

listen_sync-finish :
    (master builder : NipcMessage) (s : State.State) (d : ℕ)
    → s.sync_state.destiny ≡ some d
    → listen_sync builder s (finish_message master)
      ≡ some (record s {
        sent = s.sent ++ ((s.heap d).connection, finish_message builder) ∷ [];
        replication_active = false;
      })
unfolding listen_sync build_nipc_message
listen_sync-finish master builder s d e = rw e (rw e refl)

relay-sync_messages :
    (master builder : NipcMessage) (s : State.State) (d : ℕ) (bs : List (List ℕ))
    → s.sync_state.destiny ≡ some d
    → AreChunks bs
    → (s' : State.State) × (relay builder s
          (sector_messages master bs ++ (finish_message master ∷ []))
        ≡ some s')
      × (s'.sent
          ≡ s.sent
            ++ map
                (λ m. ((s.heap d).connection, m))
                (sector_messages builder bs ++ (finish_message builder ∷ [])))
      × (s'.replication_active ≡ false)
unfolding relay
relay-sync_messages master builder s d [] e h = (
  record s {
    sent = s.sent ++ ((s.heap d).connection, finish_message builder) ∷ [];
    replication_active = false;
  },
  relay-cons builder s _ (finish_message master) [] (listen_sync-finish master builder s d e),
  refl,
  refl,
)
relay-sync_messages master builder s d (b ∷ bs) e h =
    let (s', r, m, a) = relay-sync_messages master builder (forward builder s d b) d bs e (h.2) in
    (
      s',
      relay-cons builder s (forward builder s d b)
            (sync_sector_message master (length b) (disk_sector_of b))
            (sector_messages master bs ++ (finish_message master ∷ []))
            (listen_sync-sector master builder s d b e (h.1))
          ∙ r,
      m ∙ append_assoc s.sent _ _,
      a,
    )

-- A replication copies the file. The master's messages are `sync_messages` of its file, which is not
-- empty; PRAID, with the copy at the disk `d`, passes them on to that disk's connection as the
-- messages `forwarded`, and ends the replication; and the disk that reads `forwarded`, whose file was
-- not open, ends with the master's file, closed and mapped at its size.
pub replication-copies :
    (master builder garbage : NipcMessage) (s : State.State) (d : ℕ) (c : Config)
    (slave : Queues.State) (file : List ℕ)
    → s.sync_state.destiny ≡ some d
    → slave.replication_disk_volume ≡ false
    → 0 < length file
    → (s' : State.State) × (forwarded : List NipcMessage) × (relay builder s
          (sync_messages master file)
        ≡ some s')
      × (s'.sent ≡ s.sent ++ map (λ m. ((s.heap d).connection, m)) forwarded)
      × (s'.replication_active ≡ false)
      × (praid_rounds garbage c slave forwarded
          ≡ some (record slave {
            disk = file;
            replication_disk_volume = false;
            volume_size = length file % 2 ^ 32;
            replication_process_active = false;
          }))
replication-copies master builder garbage s d c slave file e o n =
    let fuel = suc (length file) in
    let (s', r, m, a) =
      relay-sync_messages master builder s d (chunks fuel file) e (AreChunks-chunks fuel file) in
    (
      s',
      sync_messages builder file,
      ap (relay builder s) (sync_messages-chunks master file) ∙ r,
      m
          ∙ ap (λ ms. s.sent ++ map (λ m. ((s.heap d).connection, m)) ms)
              (sym (sync_messages-chunks builder file)),
      a,
      praid_rounds-copy garbage builder c slave file o n,
    )

-- What the master does for PRAID's request: it sends those messages, and its disk stays as it was.
pub replicate_get-master :
    (builder : NipcMessage) (c : Config) (s : Queues.State) (m : NipcMessage)
    → m.header.operation_id ≡ op_sync_get_sector
    → m.header.message_type ≡ type_sync_process
    → (s' : Queues.State) × (praid_round builder c s m ≡ some s')
      × (s'.sent ≡ s.sent ++ map (λ n. (c.praid_socket, n)) (sync_messages builder s.disk))
      × (s'.disk ≡ s.disk)
      × (s'.replication_disk_volume ≡ false)
      × (s'.replication_process_active ≡ false)
unfolding praid_round replicate_get finish_replication
replicate_get-master builder c s m h k = (
  replicate_get builder c (record s { replication_process_active = true }),
  rw (h, k) refl,
  refl,
  refl,
  refl,
  refl,
)
