-- ===== src/Pfs/Tests.antt =====
-- A pool of two connections, and a volume with clusters of eight sectors.
mod Names
mod Fat
mod Blocks
mod Directory
mod Reading
mod Writing
mod Removing
mod Renaming
mod Cutting
mod Opening
mod LastPair
mod Moving
mod Creating
use grage.Prelude.{
  ℕ, ◌+◌, ◌-◌, ◌*◌, ◌^◌, ◌≤◌, ◌<◌, false, none, some, List, [], ◌∷◌, ◌≡◌, refl, ◌==◌, ◌⊎◌, arith,
}
use grage.Commons.LinkedList.{LinkedList}
use grage.Pfs.Pool.{
  State, returns, is_active_connection, set_active_connection, build_and_add_pooled_connection,
  get_from_list, get_pooled_connection,
}
use grage.Pfs.Volume.{
  Volume, DirEntry, get_fat_entry_sector, get_fat_entry_offset, get_first_sector_of_cluster,
  get_cluster_by_sector, is_last_sector_from_cluster, set_first_cluster, get_first_cluster,
  get_cluster_by_sector-get_first_sector_of_cluster, fat_entry_place,
  get_first_cluster-set_first_cluster, is_last_sector_from_cluster_lem,
}
use grage.Pfs.Pool.Laws.{AreActive, HandsOut, get_pooled_connection-HandsOut, get_from_list_lem}
use grage.Pfs.Pool.Bounded.{Event, acquires, releases, run, IsBounded, run-IsBounded}

abbrev two : LinkedList ℕ
two = record { elements = 1 ∷ 0 ∷ []; size = 2 }

abbrev pool : State
pool = record {
  heap = λ p. record { active = p == 1; listen_socket = 10 + p };
  next_pointer = 2;
  pooled_connections = some two;
  pooled_connections_max_count = 2;
}

get_pooled_connection-HandsOut_example : HandsOut pool (get_pooled_connection 12 pool)
get_pooled_connection-HandsOut_example = get_pooled_connection-HandsOut 12 pool

abbrev fresh : State
fresh = record pool { pooled_connections = none; pooled_connections_max_count = 0 }

abbrev events : List Event
events = acquires 12 ∷ acquires 13 ∷ releases 2 ∷ acquires 14 ∷ []

run-IsBounded_example : IsBounded 2 (run 2 fresh events)
run-IsBounded_example = run-IsBounded 2 fresh events (omega arith) refl

abbrev pub volume : Volume
volume = record {
  bps = 512;
  spc = 8;
  fds = 1056;
  rsv = 32;
  fat_size = 512;
  fat_start_sector = 32;
  clusters = 65536;
  root = 2;
  next_free_cluster = 9;
  free_cluster_count = 65000;
}

abbrev pub entry : DirEntry
entry = record {
  dir_name = λ i. 32;
  attr = 0;
  nt_res = 0;
  crt_time_tenth = 0;
  crt_time = 0;
  crt_date = 0;
  lst_acc_date = 0;
  fst_clus_hi = 0;
  wrt_time = 0;
  wrt_date = 0;
  fst_clus_lo = 0;
  file_size = 0;
}
