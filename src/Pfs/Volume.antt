-- ===== src/Pfs/Volume.antt =====
-- grage-pfs/app/src/core/pfs-fat-utils.c: where the clusters and the entries of the file allocation
-- table lie on the disk. Sector and cluster numbers are 32-bit words.
use grage.Prelude.{Bool, ◌==◌, ℕ, ◌+◌, ◌-◌, ◌*◌, ◌/◌, ◌%◌, ◌^◌, ◌<◌, ◌≤◌, ◌≡◌, sym, ◌∙◌, ap, arith}

-- The fields of Volume that the functions below and the modules of the cache and the table use. The
-- last two change while the process runs.
pub record Volume : Type 0 where
  pub bps : ℕ
  pub spc : ℕ
  pub fds : ℕ
  pub rsv : ℕ
  pub fat_size : ℕ
  pub fat_start_sector : ℕ
  pub clusters : ℕ
  pub root : ℕ
  pub next_free_cluster : ℕ
  pub free_cluster_count : ℕ

-- pfs_fat_utils_getFatEntrySector
unfoldable pub get_fat_entry_sector : Volume → ℕ → ℕ
get_fat_entry_sector v cluster = (v.rsv + ((cluster * 4) % 2 ^ 32) / v.bps) % 2 ^ 32

-- pfs_fat_utils_getFatEntryOffset
unfoldable pub get_fat_entry_offset : Volume → ℕ → ℕ
get_fat_entry_offset v cluster = ((cluster * 4) % 2 ^ 32) % v.bps

-- pfs_fat_utils_getFirstSectorOfCluster
unfoldable pub get_first_sector_of_cluster : Volume → ℕ → ℕ
get_first_sector_of_cluster v cluster =
    ((((cluster + 2 ^ 32 - 2) % 2 ^ 32) * v.spc) % 2 ^ 32 + v.fds) % 2 ^ 32

-- pfs_fat_utils_getClusterBySector
unfoldable pub get_cluster_by_sector : Volume → ℕ → ℕ
get_cluster_by_sector v sector = (((sector + 2 ^ 32 - v.fds) % 2 ^ 32) / v.spc + 2) % 2 ^ 32

-- pfs_fat32_utils_isLastSectorFromCluster; `bpc` is a 16-bit field.
unfoldable pub is_last_sector_from_cluster : Volume → ℕ → Bool
is_last_sector_from_cluster v sector =
    ((v.bps * ((1 + sector) % 2 ^ 32)) % 2 ^ 32) % ((v.bps * v.spc) % 2 ^ 16) == 0

-- DirEntry, where the array of the name is a function of the index
pub record DirEntry : Type 0 where
  pub dir_name : ℕ → ℕ
  pub attr : ℕ
  pub nt_res : ℕ
  pub crt_time_tenth : ℕ
  pub crt_time : ℕ
  pub crt_date : ℕ
  pub lst_acc_date : ℕ
  pub fst_clus_hi : ℕ
  pub wrt_time : ℕ
  pub wrt_date : ℕ
  pub fst_clus_lo : ℕ
  pub file_size : ℕ

-- pfs_fat_setFirstClusterToDirEntry, of an entry that is not NULL.
unfoldable pub set_first_cluster : DirEntry → ℕ → DirEntry
set_first_cluster d cluster = record d {
  fst_clus_lo = cluster % 2 ^ 16;
  fst_clus_hi = cluster / 2 ^ 16;
}

-- pfs_fat_getFirstClusterFromDirEntry, of an entry that is not NULL.
unfoldable pub get_first_cluster : DirEntry → ℕ
get_first_cluster d = d.fst_clus_lo + d.fst_clus_hi * 2 ^ 16

-- A product and a rest below a factor.
div_of_place : (n m k : ℕ) → k < m → (n * m + k) / m ≡ n
div_of_place n m k h = grind arith

first_sector :
    (v : Volume) (n : ℕ)
    → n * v.spc + v.fds < 2 ^ 32
    → n + 2 < 2 ^ 32
    → get_first_sector_of_cluster v (n + 2) ≡ n * v.spc + v.fds
unfolding get_first_sector_of_cluster
first_sector v n h b = let e : (n + 2 + 2 ^ 32 - 2) % 2 ^ 32 ≡ n = omega arith in rw e (omega arith)

-- Each sector of a cluster is found to be in that cluster, if the cluster ends below sector 2^32.
pub get_cluster_by_sector-get_first_sector_of_cluster :
    (v : Volume) (cluster k : ℕ)
    → 2 ≤ cluster
    → cluster < 2 ^ 32
    → k < v.spc
    → (cluster - 2) * v.spc + v.fds + v.spc < 2 ^ 32
    → get_cluster_by_sector v (get_first_sector_of_cluster v cluster + k) ≡ cluster
unfolding get_cluster_by_sector
get_cluster_by_sector-get_first_sector_of_cluster v cluster k l b h r =
    let n = cluster - 2 in
    let c : n + 2 ≡ cluster = omega arith in
    let f : get_first_sector_of_cluster v cluster ≡ n * v.spc + v.fds =
      ap (get_first_sector_of_cluster v) (sym c) ∙ first_sector v n (omega arith) (omega arith) in
    let o : (n * v.spc + v.fds + k + 2 ^ 32 - v.fds) % 2 ^ 32 ≡ n * v.spc + k = omega arith in
    rw (f, o, div_of_place n v.spc k h) (omega arith)

-- With sectors of 512 bytes, the entry of a cluster below 2^30 lies, counted in bytes from the start
-- of the table, at four times its number, and inside one sector.
pub fat_entry_place :
    (v : Volume) (cluster : ℕ)
    → v.bps ≡ 512
    → cluster < 2 ^ 30
    → v.rsv < 2 ^ 16
    → ((get_fat_entry_sector v cluster - v.rsv) * 512 + get_fat_entry_offset v cluster
        ≡ cluster * 4)
      × (get_fat_entry_offset v cluster + 4 ≤ 512)
unfolding get_fat_entry_sector get_fat_entry_offset
fat_entry_place v cluster e b r = rw e (omega arith, omega arith)

-- A cluster number that is written to a directory entry reads back.
pub get_first_cluster-set_first_cluster :
    (d : DirEntry) (cluster : ℕ)
    → cluster < 2 ^ 32
    → (get_first_cluster (set_first_cluster d cluster) ≡ cluster)
      × ((set_first_cluster d cluster).fst_clus_hi < 2 ^ 16)
unfolding get_first_cluster set_first_cluster
get_first_cluster-set_first_cluster d cluster h = (omega arith, omega arith)

multiple_is_zero : (n : ℕ) → (512 * n == 0) ≡ (n == 0)
multiple_is_zero n = ground arith

-- With eight sectors of 512 bytes in a cluster, the last sector of a cluster is said to be the last
-- one exactly if the first data sector is a multiple of eight.
pub is_last_sector_from_cluster_lem :
    (v : Volume) (cluster : ℕ)
    → v.bps ≡ 512
    → v.spc ≡ 8
    → 2 ≤ cluster
    → cluster < 2 ^ 18
    → v.fds < 2 ^ 16
    → is_last_sector_from_cluster v (get_first_sector_of_cluster v cluster + 7) ≡ (v.fds % 8 == 0)
unfolding is_last_sector_from_cluster get_first_sector_of_cluster
is_last_sector_from_cluster_lem v cluster e f l b d =
    let m : (512
            * ((1 + (((((cluster + 2 ^ 32 - 2) % 2 ^ 32) * 8) % 2 ^ 32 + v.fds) % 2 ^ 32 + 7))
                % 2 ^ 32)
            % 2 ^ 32)
          % 4096
        ≡ 512 * (v.fds % 8) =
      omega arith in
    rw (e, f, m) (multiple_is_zero (v.fds % 8))
