-- ===== src/Replication/Tests.antt =====
-- A replication of a file of three bytes.
use grage.Prelude.{ℕ, true, false, some, List, [], ◌∷◌, map, ◌≡◌, refl, arith}
use grage.Nipc.Message.{NipcMessage, op_sync_get_sector, type_sync_process}
use grage.Nipc.Samples.{request}
use grage.Praid.State
use grage.Praid.State.{Storage}
use grage.Ppd.Queues
use grage.Ppd.Queues.{Config}
use grage.Ppd.Strategy.{is_look}
use grage.Ppd.Sync.{sync_messages, praid_rounds}
use grage.Replication.{relay, replication-copies}

abbrev file : List ℕ
file = 1 ∷ 2 ∷ 3 ∷ []

abbrev junk : NipcMessage
junk = request 0 0 0

abbrev config : Config
config = record { algorithm = is_look; per_cylinder = 4; is_listen_mode = false; praid_socket = 5 }

abbrev slave : List ℕ → Queues.State
slave disk = record {
  jobs_queue = record { elements = []; size = 0 };
  job_id = 0;
  posicion_actual = record { pista = 0; sector_number = 0 };
  disk = disk;
  sent = [];
  replication_disk_volume = false;
  replication_process_active = false;
  volume_size = 0;
}

abbrev storage : ℕ → Storage
storage p = record {
  id = p;
  pending_jobs = record { elements = []; size = 0 };
  pending_responses = 0;
  connection = 10;
  connected = true;
  volume_size = 0;
  sended_jobs = record { elements = []; size = 0 };
}

abbrev praid : State.State
praid = record {
  heap = storage;
  next_pointer = 2;
  ppd_storages = record { elements = 0 ∷ 1 ∷ []; size = 2 };
  available_ppd_id = 2;
  replication_active = true;
  sync_state = record {
    sectors_counter = 0;
    bytes_synchronized = 0;
    source = some 0;
    destiny = some 1;
  };
  sent = [];
  closed = [];
}

replication-copies_example :
    (s' : State.State) × (forwarded : List NipcMessage) × (relay junk praid
        (sync_messages junk file)
      ≡ some s')
    × (s'.sent ≡ map (λ m. (10, m)) forwarded)
    × (s'.replication_active ≡ false)
    × (praid_rounds junk config (slave (9 ∷ [])) forwarded
        ≡ some (record (slave (9 ∷ [])) {
          disk = file;
          replication_disk_volume = false;
          volume_size = 3;
          replication_process_active = false;
        }))
replication-copies_example =
    replication-copies junk junk junk praid 1 config (slave (9 ∷ [])) file refl refl (omega arith)

abbrev order : NipcMessage
order = record junk {
  header = record (junk.header) {
    message_type = type_sync_process;
    operation_id = op_sync_get_sector;
  };
}
