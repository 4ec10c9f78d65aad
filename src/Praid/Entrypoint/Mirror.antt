-- ===== src/Praid/Entrypoint/Mirror.antt =====
-- The requests of the file system: a PUT goes to every disk, a GET to one.
use grage.Prelude.{
  ℕ, Bool, false, none, some, List, [], ◌∷◌, ◌≡◌, refl, ◌⊎◌, inl, inr, arith, ◌==◌, ◌||◌,
  if◌then◌else◌,
}
use grage.Nipc.Message.{NipcMessage}
use grage.Praid.Jobs.{storage_queue_put}
use grage.Praid.State.{Storage, State, update}
use grage.Praid.Balancer.Select.{select_storage_lem, IsFirstLeast}
use grage.Praid.Balancer.Redistribute.{IsAbsent, IsDistinct}
use grage.Praid.Entrypoint.{put_pending, put_each, execute_put_sector, execute_get_sector}

-- The pointer is in the list.
abbrev pub elem : ℕ → List ℕ → Bool
elem q [] = false
elem q (p ∷ ps) = (q == p) || elem q ps

-- A storage with a job for the message at the end of its pending jobs.
abbrev pub with_job : ℕ → NipcMessage → Storage → Storage
with_job id m v = record v { pending_jobs = storage_queue_put id v.pending_jobs m }

elem-IsAbsent : (q : ℕ) (ps : List ℕ) → IsAbsent q ps → elem q ps ≡ false
elem-IsAbsent q [] a = refl
elem-IsAbsent q (p ∷ ps) a = ground (arith, elem-IsAbsent q ps a.1)

heap-put_each :
    (id : ℕ) (ps : List ℕ) (s : State) (m : NipcMessage) (q : ℕ)
    → IsDistinct ps
    → (put_each id ps s m).heap q ≡ (if elem q ps then with_job id m (s.heap q) else s.heap q)
unfolding put_each
heap-put_each id [] s m q d = refl
heap-put_each id (p ∷ ps) s m q d =
    ground (arith, heap-put_each id ps (put_pending id s p m) m q d.1, elem-IsAbsent p ps d.0)

-- praid_pfs_entrypoint_executePutSector queues one job for the message at every disk of the
-- cluster, and changes no other memory.
pub execute_put_sector_lem :
    (id : ℕ) (s : State) (m : NipcMessage) (q : ℕ)
    → IsDistinct s.ppd_storages.elements
    → (execute_put_sector id s m).heap q
      ≡ (if elem q s.ppd_storages.elements then with_job id m (s.heap q) else s.heap q)
unfolding execute_put_sector
execute_put_sector_lem id s m q d = heap-put_each id s.ppd_storages.elements s m q d

-- praid_pfs_entrypoint_executeGetSector queues one job at the first of the least loaded disks, and
-- changes no other memory; with no disk in the cluster it dereferences NULL.
pub execute_get_sector_lem :
    (id : ℕ) (s : State) (m : NipcMessage)
    → ((s.ppd_storages.elements ≡ []) × (execute_get_sector id s m ≡ none))
      ⊎ ((p : ℕ) × IsFirstLeast s.heap p s.ppd_storages.elements
          × (execute_get_sector id s m
              ≡ some (record s { heap = update s.heap p (with_job id m (s.heap p)) })))
unfolding execute_get_sector
execute_get_sector_lem id s m = elim (select_storage_lem s) [
  | inl (e, f) ↦ inl (e, rw (f, execute_get_sector))
  | inr (p, e, least) ↦ inr (p, least, rw (e, execute_get_sector))
]
