-- ===== src/Pfs/Block.antt =====
-- The clusters as blocks of eight sectors, pfs_fat32_utils_callPutBlock and
-- pfs_fat32_utils_callGetBlock of grage-pfs/app/src/core/pfs-fat-utils.c, and the cache of the
-- sectors of a file, grage-pfs/app/src/core/pfs-file-cache.c. In this module a store has the sectors
-- of one file in its cache. A request over a connection of the pool is a request to the device: the
-- pool has eight connections or more. With fewer the code waits for ever, and with none it exits.
pub mod FileCache
pub mod Roundtrip
use grage.Prelude.{
  ℕ, zero, suc, ◌+◌, ◌%◌, ◌^◌, Bool, true, false, not, Option, none, some, List, [], ◌∷◌, ◌++◌,
  ◌==◌, ◌&&◌, if◌then◌else◌, ◌>>=◌, ltb, take, drop,
}
use grage.Commons.LinkedList.{LinkedList, remove_node}
use grage.Nipc.Message.{DiskSector}
use grage.Pfs.Volume.{Volume, get_first_sector_of_cluster}
use grage.Pfs.Cache.{
  CacheSectorRecord, Store, eq, call_get_sector, call_put_sector, get_sector, put_in_cache,
}

pub record Block : Type 0 where
  pub id : ℕ
  pub content : List ℕ

-- pfs_endpoint_utils_getFromFileCache: the sector, where `none` is a sector with the number 0.
unfoldable pub get_from_file_cache : Store → ℕ → Option DiskSector × Store
get_from_file_cache s n =
    let (found, l) = get_sector n s.cache in
    (
      elim found [
        | none ↦ none
        | some r ↦ if r.sector.sector_number == 0 then none else some (r.sector)
      ],
      record s { cache = l },
    )

-- pfs_endpoint_utils_putInFileCache, which is pfs_endpoint_utils_putInCache for another cache
abbrev pub put_in_file_cache : ℕ → Store → DiskSector → Option Store
put_in_file_cache = put_in_cache

-- The end of pfs_endpoint_callCachedGetFileSector, for a sector that is not cached.
unfoldable pub get_missing_file_sector : ℕ → Store → ℕ → Option (DiskSector × Store)
get_missing_file_sector max_count s n = do
  let d = call_get_sector s.device n
  s' ← put_in_file_cache max_count s d
  some (d, s')

-- pfs_endpoint_callCachedGetFileSector
unfoldable pub call_cached_get_file_sector : ℕ → Store → ℕ → Option (DiskSector × Store)
call_cached_get_file_sector max_count s n =
    let (found, s') = get_from_file_cache s n in
    elim found [ none ↦ get_missing_file_sector max_count s' n | some d ↦ some (d, s') ]

-- pfs_fat32_fileCacheFlush, over the records that its iterator still visits.
unfoldable pub file_flush_each : List CacheSectorRecord → Store → Store
file_flush_each [] s = s
file_flush_each (r ∷ rs) s =
    file_flush_each rs
      (record { device = call_put_sector s.device r.sector; cache = (remove_node eq s.cache r).1 })

-- pfs_fat32_fileCacheFlush
unfoldable pub file_cache_flush : Store → Store
file_cache_flush s = file_flush_each s.cache.elements s

-- The rounds of a loop from the first sector of a block to the last.
unfoldable pub rounds : ℕ → ℕ
rounds first_sector = if ltb first_sector ((first_sector + 8) % 2 ^ 32) then 8 else 0

-- The loop of pfs_fat32_utils_callPutBlock without a cache.
unfoldable pub put_sectors_each : ℕ → ℕ → ℕ → List ℕ → (ℕ → List ℕ) → ℕ → List ℕ
put_sectors_each zero first_sector offset content device = device
put_sectors_each (suc k) first_sector offset content device =
    put_sectors_each k (first_sector + 1) (offset + 512) content (
      call_put_sector device
        (record { sector_number = first_sector; sector_content = take 512 (drop offset content) }))

-- Its loop with a cache, which copies from the start of the block in every round.
unfoldable pub cache_each : ℕ → ℕ → ℕ → List ℕ → Store → Option Store
cache_each max_count zero first_sector content s = some s
cache_each max_count (suc k) first_sector content s = do
  s' ←
      put_in_file_cache max_count s
        (record { sector_number = first_sector; sector_content = take 512 content })
  cache_each max_count k (first_sector + 1) content s'

-- pfs_fat32_utils_callPutBlock; `habilitada` is what pfs_cache_habilitada returns.
unfoldable pub call_put_block : Bool → Volume → ℕ → Store → Block → Option Store
call_put_block habilitada v max_count s b =
    let first_sector = get_first_sector_of_cluster v b.id in
    if habilitada && not (b.id == v.root)
    then cache_each max_count (rounds first_sector) first_sector b.content s
    else some (record s {
      device = put_sectors_each (rounds first_sector) first_sector 0 b.content s.device;
    })

-- The content that pfs_endpoint_blocks_callGetBlock puts together from the answers.
unfoldable pub get_each : ℕ → ℕ → (ℕ → List ℕ) → List ℕ
get_each zero first_sector device = []
get_each (suc k) first_sector device =
    device (first_sector % 2 ^ 32) ++ get_each k (first_sector + 1) device

-- pfs_endpoint_blocks_callGetBlock
unfoldable pub blocks_call_get_block : Volume → (ℕ → List ℕ) → ℕ → Block
blocks_call_get_block v device block_id = record {
  id = block_id;
  content = get_each 8 (get_first_sector_of_cluster v block_id) device;
}

-- The loop of pfs_fat32_utils_callGetBlock with a cache.
unfoldable pub get_cached_each : ℕ → ℕ → ℕ → Store → Option (List ℕ × Store)
get_cached_each max_count zero first_sector s = some ([], s)
get_cached_each max_count (suc k) first_sector s = do
  (d, s1) ← call_cached_get_file_sector max_count s first_sector
  (rest, s2) ← get_cached_each max_count k (first_sector + 1) s1
  some (d.sector_content ++ rest, s2)

-- pfs_fat32_utils_callGetBlock; the content that the loop with a cache leaves unset is not read.
unfoldable pub call_get_block : Bool → Volume → ℕ → Store → ℕ → Option (Block × Store)
call_get_block habilitada v max_count s block_number =
    let first_sector = get_first_sector_of_cluster v block_number in
    if habilitada && not (block_number == v.root)
    then (do
      (content, s') ← get_cached_each max_count (rounds first_sector) first_sector s
      some (record { id = block_number; content = content }, s'))
    else some (blocks_call_get_block v s.device block_number, s)
