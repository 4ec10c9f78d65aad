-- ===== src/Pfs/Fat/Allocate.antt =====
-- pfs_fat32_utils_assignCluster and pfs_fat32_utils_allocateNewCluster of
-- grage-pfs/app/src/core/pfs-fat-utils.c.
pub mod First
pub mod Growth
use grage.Prelude.{
  ℕ, zero, suc, ◌+◌, ◌-◌, ◌%◌, ◌^◌, Bool, true, false, Option, none, some, List, ◌==◌, ◌&&◌,
  if◌then◌else◌, ◌>>=◌, leb, ltb,
}
use grage.Pfs.Volume.{Volume, get_fat_entry_sector, get_fat_entry_offset}
use grage.Pfs.Cache.{Store, call_cached_get_sector}
use grage.Pfs.Fat.{is_free, read_entry, mark_end_of_chain, expand_chain}

-- The volume, the sectors, and whether `fatLock` is held.
pub record Table : Type 0 where
  pub volume : Volume
  pub store : Store
  pub fat_lock : Bool

module _ (max_count : ℕ) where
  -- The loop of both functions, for as many clusters as are left: `next` when it ends, or `none`
  -- where it returns since the disk is full. A sector that is passed is asked for again by the
  -- number of the first.
  unfoldable pub scan :
      Volume → ℕ → ℕ → ℕ → ℕ → ℕ → ℕ → Bool → List ℕ → Store → Option (Option ℕ × Store)
  scan v sector_id current_free zero next offset sector_number flag content s = some (some next, s)
  scan v sector_id current_free (suc left) next offset sector_number flag content s =
      let entry = read_entry content offset in
      let onward =
        scan v sector_id current_free left (next + 1) (offset + 4) sector_number flag content s in
      let again : Bool → Option (Option ℕ × Store) = λ flag'. (do
        (d, s') ← call_cached_get_sector v max_count s sector_id
        scan v sector_id current_free left (next + 1) 0 d.sector_number flag' d.sector_content
            s') in
      if is_free entry
      then some (some next, s)
      else (if leb v.bps (offset + 4)
          then (if ltb sector_number (v.fat_start_sector + v.fat_size)
              then (if flag && (current_free == entry) then some (none, s) else again flag)
              else again true)
          else onward)

  -- Both functions, from the cluster after the one they give, and with what they do once it is
  -- marked: the cluster, or -EXIT_FAILURE.
  unfoldable pub take_from : (Volume → Store → ℕ → Option Store) → Table → ℕ → Option (ℕ × Table)
  take_from link_to t next =
      let v = t.volume in
      let current_free = v.next_free_cluster in
      let sector_id = get_fat_entry_sector v next in
      if t.fat_lock then none else (do
        (d, s1) ← call_cached_get_sector v max_count t.store sector_id
        (found, s2) ←
            scan v sector_id current_free (v.clusters - next) next (get_fat_entry_offset v next)
              d.sector_number false d.sector_content s1
        elim found [
          | none ↦ some (2 ^ 32 - 1, record t { store = s2; fat_lock = true })
          | some n ↦ do
            s3 ← mark_end_of_chain max_count v s2 current_free
            s4 ← link_to v s3 current_free
            some (
              current_free,
              record t {
                volume = record v {
                  next_free_cluster = n;
                  free_cluster_count = (v.free_cluster_count + 2 ^ 32 - 1) % 2 ^ 32;
                };
                store = s4;
                fat_lock = false;
              },
            )
        ])

  unfoldable pub take_cluster : (Volume → Store → ℕ → Option Store) → Table → Option (ℕ × Table)
  take_cluster link_to t = take_from link_to t ((t.volume.next_free_cluster + 1) % 2 ^ 32)

  -- pfs_fat32_utils_assignCluster
  unfoldable pub assign_cluster : Table → Option (ℕ × Table)
  assign_cluster = take_cluster (λ v s free. some s)

  -- pfs_fat32_utils_allocateNewCluster
  unfoldable pub allocate_new_cluster : ℕ → Table → Option (ℕ × Table)
  allocate_new_cluster current_last =
      take_cluster (λ v s free. expand_chain max_count v s current_last free)
