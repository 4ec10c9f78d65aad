-- ===== src/Pfs/Cache.antt =====
-- grage-pfs/app/src/core/pfs-cache.c and the cached requests of grage-pfs/app/src/services/pfs-endpoint.c:
-- the sectors of the file allocation table that the file system keeps. The device answers a request
-- for a sector with the content that was last put there, so it is a function of the sector number.
-- Every function that adds a sector is `none` where the code uses a pointer that was never set.
pub mod Lookup
pub mod Coherent
pub mod Overwrite
pub mod Requests
pub mod Writes
pub mod Flush
use grage.Prelude.{
  ℕ, ◌+◌, ◌*◌, ◌/◌, ◌%◌, ◌^◌, Bool, true, false, not, Option, none, some, List, [], ◌∷◌, map, ◌==◌,
  if◌then◌else◌, leb, length,
}
use grage.Commons.LinkedList.{
  LinkedList, build_list, order_always_first, add_node, remove_node, get_node_by_criteria,
}
use grage.Nipc.Message.{DiskSector}
use grage.Pfs.Volume.{Volume}

-- CacheSectorRecord
pub record CacheSectorRecord : Type 0 where
  pub estado : ℕ
  pub modificado : Bool
  pub sector : DiskSector

-- The device, and a cache of its sectors.
pub record Store : Type 0 where
  pub device : ℕ → List ℕ
  pub cache : LinkedList CacheSectorRecord

-- pfs_endpoint_callGetSector
abbrev pub call_get_sector : (ℕ → List ℕ) → ℕ → DiskSector
call_get_sector device n = record { sector_number = n; sector_content = device n }

-- pfs_endpoint_callPutSector
abbrev pub call_put_sector : (ℕ → List ℕ) → DiskSector → ℕ → List ℕ
call_put_sector device d n = if n == d.sector_number then d.sector_content else device n

-- pfs_cache_isFatSectorReserved
abbrev pub is_fat_sector_reserved : Volume → ℕ → Bool
is_fat_sector_reserved v n = leb n (v.rsv + v.fat_size)

-- The equality criterion of pfs_cache_sectors_initialize.
abbrev pub eq : CacheSectorRecord → CacheSectorRecord → Bool
eq p1 p2 = p1.sector.sector_number == p2.sector.sector_number

-- pfs_cache_sectors_initialize
abbrev pub sectors_initialize : LinkedList CacheSectorRecord
sectors_initialize = build_list

-- The number of sectors that pfs_cache_initialize gives the cache of the table.
abbrev pub cache_sectors_fat_max_count : Volume → ℕ
cache_sectors_fat_max_count v = (v.fat_size * 20) % 2 ^ 32 / 100

-- `estado++`, of 8 bits
abbrev pub touch : CacheSectorRecord → CacheSectorRecord
touch r = record r { estado = (r.estado + 1) % 2 ^ 8 }

-- pfs_cache_sectors_registrar_acceso
abbrev pub registrar_acceso : LinkedList CacheSectorRecord → LinkedList CacheSectorRecord
registrar_acceso l = record l { elements = map touch l.elements }

-- pfs_cache_get_sector: the record or NULL, and the cache.
abbrev pub get_sector :
    ℕ → LinkedList CacheSectorRecord → Option CacheSectorRecord × LinkedList CacheSectorRecord
get_sector n l =
    let l' = registrar_acceso l in (get_node_by_criteria l' (λ r. r.sector.sector_number == n), l')

-- The loop of pfs_cache_put_sectors: where `auxNode` points when it ends, if it was set.
unfoldable pub victim : List CacheSectorRecord → Option CacheSectorRecord
victim [] = none
victim (r ∷ rs) =
    let rest = victim rs in
    if leb 0 r.estado then some r else elim rest [ none ↦ some r | some x ↦ some x ]

-- The first part of pfs_cache_put_sectors: a full cache gives back a sector to the device.
unfoldable pub make_room : ℕ → Store → Option Store
make_room max_count s =
    if leb max_count s.cache.size
    then elim (victim s.cache.elements) [
      | none ↦ none
      | some r ↦ some (record {
        device = call_put_sector s.device r.sector;
        cache = (remove_node eq s.cache r).1;
      })
    ]
    else some s

-- The rest of pfs_cache_put_sectors.
unfoldable pub add_sector : Store → DiskSector → Store
add_sector s d = record s {
  cache =
      registrar_acceso (
        add_node order_always_first s.cache
          (record { estado = 0; modificado = false; sector = d }));
}

-- pfs_cache_put_sectors
unfoldable pub put_sectors : ℕ → Store → DiskSector → Option Store
put_sectors max_count s d = elim (make_room max_count s) [
  | none ↦ none
  | some s' ↦ some (add_sector s' d)
]

-- The loop of pfs_endpoint_utils_putInCache: the records, if the sector was among them.
unfoldable pub overwrite_node :
    DiskSector → List CacheSectorRecord → Option (List CacheSectorRecord)
overwrite_node d [] = none
overwrite_node d (r ∷ rs) =
    let rest = overwrite_node d rs in
    if r.sector.sector_number == d.sector_number
    then some (
        record r {
          modificado = true;
          sector = record (r.sector) { sector_content = d.sector_content };
        }
        ∷ rs)
    else elim rest [ none ↦ none | some rs' ↦ some (r ∷ rs') ]

-- pfs_endpoint_utils_putInCache
unfoldable pub put_in_cache : ℕ → Store → DiskSector → Option Store
put_in_cache max_count s d = elim (overwrite_node d s.cache.elements) [
  | none ↦ put_sectors max_count s d
  | some rs ↦ some (record s { cache = record (s.cache) { elements = rs } })
]

-- pfs_endpoint_callCachedPutSector
unfoldable pub call_cached_put_sector : Volume → ℕ → Store → DiskSector → Option Store
call_cached_put_sector v max_count s d =
    if is_fat_sector_reserved v d.sector_number
    then put_in_cache max_count s d
    else some (record s { device = call_put_sector s.device d })

-- pfs_endpoint_utils_getFromCache: the sector, where `none` is a sector with the number 0.
unfoldable pub get_from_cache : Volume → Store → ℕ → Option DiskSector × Store
get_from_cache v s n =
    if is_fat_sector_reserved v n
    then (let (found, l) = get_sector n s.cache in
        (
          elim found [
            | none ↦ none
            | some r ↦ if r.sector.sector_number == 0 then none else some (r.sector)
          ],
          record s { cache = l },
        ))
    else (none, s)

-- The end of pfs_endpoint_callCachedGetSector, once the cache was asked.
unfoldable pub get_missing : Volume → ℕ → Store → ℕ → Option (DiskSector × Store)
get_missing v max_count s n =
    let d = call_get_sector s.device n in
    if is_fat_sector_reserved v n
    then elim (put_in_cache max_count s d) [ none ↦ none | some s' ↦ some (d, s') ]
    else some (d, s)

-- pfs_endpoint_callCachedGetSector
unfoldable pub call_cached_get_sector : Volume → ℕ → Store → ℕ → Option (DiskSector × Store)
call_cached_get_sector v max_count s n =
    let (found, s') = get_from_cache v s n in
    elim found [ none ↦ get_missing v max_count s' n | some d ↦ some (d, s') ]

-- pfs_fat32_fatCacheFlush, over the records that its iterator visits.
unfoldable pub flush_each :
    List CacheSectorRecord → (ℕ → List ℕ) → (ℕ → List ℕ) × List CacheSectorRecord
flush_each [] device = (device, [])
flush_each (r ∷ rs) device =
    let device' : ℕ → List ℕ = if r.modificado then call_put_sector device r.sector else device in
    let (last, rs') = flush_each rs device' in (last, record r { modificado = false } ∷ rs')

-- pfs_fat32_fatCacheFlush
unfoldable pub fat_cache_flush : Store → Store
fat_cache_flush s =
    let (device, rs) = flush_each s.cache.elements s.device in
    record { device = device; cache = record (s.cache) { elements = rs } }
