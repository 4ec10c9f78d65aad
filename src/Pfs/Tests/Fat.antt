-- ===== src/Pfs/Tests/Fat.antt =====
-- A table whose sector 32 has the chain of the clusters 5, 6 and 7, ends of chains for the clusters
-- 8, 9 and 10, and a free cluster 11.
use grage.Prelude.{
  ℕ, zero, suc, ◌+◌, ◌<◌, true, false, some, List, [], ◌∷◌, ◌++◌, ◌≡◌, ◌≢◌, refl, if◌then◌else◌,
  ◌==◌, length, length-replicate, replicate, Bool-cases, inl, inr, arith,
}
use grage.Nipc.Wire.Bytes.{le_bytes}
use grage.Nipc.Message.{DiskSector}
use grage.Pfs.Volume.{get_fat_entry_sector, get_fat_entry_offset}
use grage.Pfs.Cache.{
  Store, call_cached_get_sector, call_cached_put_sector, fat_cache_flush, is_fat_sector_reserved,
}
use grage.Pfs.Cache.Coherent.{view, ShowsSame, IsCoherent}
use grage.Pfs.Cache.Writes.{call_cached_put_sector_lem}
use grage.Pfs.Cache.Requests.{IsCache, Gets, Puts, call_cached_get_sector_lem}
use grage.Pfs.Cache.Flush.{AreUnmarked, fat_cache_flush_lem}
use grage.Pfs.Fat.{find_eoc, unlink_chain, fat_eoc, is_free}
use grage.Pfs.Fat.Entry.{IsFat, IsTable, IsEntry, entry_at}
use grage.Pfs.Fat.Chain.{IsChain, Lacks, NoRepeat, find_eoc_lem}
use grage.Pfs.Fat.Unlink.{freed, AreFree, unlink_chain_lem}
use grage.Pfs.Fat.Allocate.{Table, allocate_new_cluster}
use grage.Pfs.Fat.Allocate.Growth.{IsAhead, taken, allocate_new_cluster_lem}
use grage.Pfs.Tests.{volume}

abbrev fat_sector : List ℕ
fat_sector =
    replicate 20 9
    ++ (le_bytes 4 6
        ++ (le_bytes 4 7
            ++ (le_bytes 4 fat_eoc
                ++ (le_bytes 4 fat_eoc
                    ++ (le_bytes 4 fat_eoc ++ (le_bytes 4 fat_eoc ++ replicate 468 0))))))

abbrev pub device : ℕ → List ℕ
device n = if n == 32 then fat_sector else replicate 512 0

-- The cache is empty.
abbrev pub store : Store
store = record { device = device; cache = record { elements = []; size = 0 } }

pub store-IsCache : IsCache volume store
store-IsCache = ((tt, tt, refl), λ n e. tt)

length-fat_sector : length fat_sector ≡ 512
length-fat_sector = refl

pub store-IsTable : IsTable volume store
store-IsTable = (
  store-IsCache,
  λ n. elim (Bool-cases (n == 32)) [
    | inl e ↦ rw e refl
    | inr e ↦ rw e (length-replicate {A = ℕ} 512 0)
  ],
)

pub volume-IsFat : IsFat volume
volume-IsFat = (refl, omega arith, omega arith, omega arith)

call_cached_get_sector_lem_example :
    Gets volume store 32 (call_cached_get_sector volume 102 store 32)
call_cached_get_sector_lem_example =
    call_cached_get_sector_lem volume 102 (omega arith) store 32 store-IsCache
      (λ e. omega (arith, e))

-- A cache that has sector 33, which was changed.
abbrev cached : Store
cached = record {
  device = device;
  cache = record {
    elements =
        record {
          estado = 1;
          modificado = true;
          sector = record { sector_number = 33; sector_content = 1 ∷ [] };
        }
        ∷ [];
    size = 1;
  };
}

cached-IsCoherent : IsCoherent cached
cached-IsCoherent = ((tt, tt), (inl refl, tt), refl)

abbrev changed : DiskSector
changed = record { sector_number = 33; sector_content = 2 ∷ [] }

holds : (n : ℕ) → is_fat_sector_reserved volume n ≡ false → 33 ≢ n
holds n e p = ground (arith, e, p)

call_cached_put_sector_lem_example :
    Puts volume cached changed (call_cached_put_sector volume 102 cached changed)
call_cached_put_sector_lem_example =
    call_cached_put_sector_lem volume 102 cached changed (1 ∷ [])
      (cached-IsCoherent, λ n e. (holds n e, tt)) (λ e. refl)

fat_cache_flush_lem_example :
    ((n : ℕ) → (fat_cache_flush cached).device n ≡ view cached n)
    × ShowsSame cached (fat_cache_flush cached)
    × AreUnmarked (fat_cache_flush cached).cache.elements
fat_cache_flush_lem_example = fat_cache_flush_lem cached cached-IsCoherent

pub chain : IsChain (entry_at volume store) 5 (6 ∷ 7 ∷ [])
unfolding get_fat_entry_sector get_fat_entry_offset
chain = (refl, refl, (refl, refl, refl))

find_eoc_lem_example :
    (s' : Store) × (find_eoc 102 3 volume store 5 ≡ some (7, s'))
    × IsTable volume s'
    × ShowsSame store s'
find_eoc_lem_example =
    find_eoc_lem 102 (omega arith) volume store 5 (6 ∷ 7 ∷ []) 3 volume-IsFat store-IsTable
      (omega arith) (omega arith, (omega arith, tt)) chain (omega arith)

no_repeat : NoRepeat (5 ∷ 6 ∷ 7 ∷ [])
no_repeat = (
  ((λ e. omega (arith, e)), ((λ e. omega (arith, e)), tt)),
  (((λ e. omega (arith, e)), tt), (tt, tt)),
)

unlink_chain_lem_example :
    (s' : Store) × (unlink_chain 102 3 volume store 5 ≡ some (freed volume 3, s'))
    × IsTable volume s'
    × AreFree (entry_at volume s') (5 ∷ 6 ∷ 7 ∷ [])
    × ((x : ℕ)
        → IsEntry volume x
        → Lacks x (5 ∷ 6 ∷ 7 ∷ [])
        → entry_at volume s' x ≡ entry_at volume store x)
unlink_chain_lem_example =
    unlink_chain_lem 102 (omega arith) volume store 5 (6 ∷ 7 ∷ []) 3 volume-IsFat store-IsTable
      (omega arith, (omega arith, (omega arith, tt))) no_repeat chain (omega arith)

abbrev table : Table
table = record { volume = volume; store = store; fat_lock = false }

in_use : (i : ℕ) → i < 1 → is_free (entry_at volume store (10 + i)) ≡ false
unfolding get_fat_entry_sector get_fat_entry_offset
in_use zero b = refl
in_use (suc i) b = absurd (omega arith)

table-IsAhead : IsAhead table 1
unfolding get_fat_entry_sector get_fat_entry_offset
table-IsAhead = (omega arith, omega arith, omega arith, in_use, refl)

allocate_new_cluster_lem_example :
    (s' : Store) × (allocate_new_cluster 102 7 table ≡ some (9, taken table 1 s'))
    × IsTable volume s'
    × IsChain (entry_at volume s') 5 (6 ∷ 7 ∷ 9 ∷ [])
unfolding get_fat_entry_sector get_fat_entry_offset
allocate_new_cluster_lem_example =
    allocate_new_cluster_lem 102 (omega arith) table 1 5 (6 ∷ 7 ∷ []) volume-IsFat store-IsTable
      refl table-IsAhead (omega arith, (omega arith, (omega arith, tt))) no_repeat
      ((λ e. omega (arith, e)), ((λ e. omega (arith, e)), ((λ e. omega (arith, e)), tt)))
      ((λ e. omega (arith, e)), ((λ e. omega (arith, e)), ((λ e. omega (arith, e)), tt))) chain refl
      refl
