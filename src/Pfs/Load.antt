-- ===== src/Pfs/Load.antt =====
-- pfs_fat_utils_loadVolume of grage-pfs/app/src/core/pfs-fat-utils.c and
-- pfs_fat32_updateDiskInformation of grage-pfs/app/src/core/pfs-fat32.c: the numbers of free
-- clusters that a mount reads and that are written for the next one.
use grage.Prelude.{
  ℕ, ◌+◌, ◌-◌, ◌*◌, ◌/◌, ◌%◌, ◌^◌, ◌<◌, ◌≡◌, refl, ap, sym, ◌∙◌, true, Option, none, some, List,
  Bool-cases, inl, inr, if◌then◌else◌, ◌>>=◌, >>=-some, ltb, length, arith,
}
use mathlib.Core.Option.{none-ne-some, some-injective}
use grage.Splice.{spliced, length-spliced}
use grage.Nipc.Wire.Bytes.{le_bytes}
use grage.Ppd.Persistence.{copy_to}
use grage.Pfs.Volume.{Volume}
use grage.Pfs.Cache.{
  Store, call_get_sector, call_put_sector, call_cached_get_sector, is_fat_sector_reserved,
}
use grage.Pfs.Cache.Coherent.{view}
use grage.Pfs.Cache.Requests.{call_cached_get_sector_lem}
use grage.Pfs.Fat.{read_entry}
use grage.Pfs.Fat.Entry.{IsTable, read_entry-spliced_self, read_entry-spliced_other, copied}

-- The fields of the BIOS parameter block that are read.
pub record Bpb : Type 0 where
  pub byts_per_sec : ℕ
  pub sec_per_clus : ℕ
  pub resvd_sec_cnt : ℕ
  pub num_fats : ℕ
  pub fat_sz32 : ℕ
  pub root_clus : ℕ
  pub tot_sec32 : ℕ
  pub fs_info : ℕ

-- The sector where the data starts, a field of 16 bits, and the number of clusters.
abbrev pub fds_of : Bpb → ℕ
fds_of b = (b.resvd_sec_cnt + b.num_fats * (b.fat_sz32 % 2 ^ 16)) % 2 ^ 16

abbrev pub clusters_of : Bpb → ℕ
clusters_of b =
    ((b.tot_sec32 + 2 ^ 32 - (b.resvd_sec_cnt + b.num_fats * (b.fat_sz32 % 2 ^ 16)) % 2 ^ 32)
      % 2 ^ 32)
    / b.sec_per_clus

-- The volume that pfs_fat_utils_loadVolume fills.
abbrev pub built : Bpb → List ℕ → Volume
built b content = record {
  bps = b.byts_per_sec;
  spc = b.sec_per_clus;
  fds = fds_of b;
  rsv = b.resvd_sec_cnt;
  fat_size = b.fat_sz32 % 2 ^ 16;
  fat_start_sector = b.resvd_sec_cnt;
  clusters = clusters_of b;
  root = b.root_clus;
  next_free_cluster = (read_entry content 492 + 1) % 2 ^ 32;
  free_cluster_count = read_entry content 488;
}

-- pfs_fat_utils_loadVolume
unfoldable pub load_volume : Bpb → (ℕ → List ℕ) → Option Volume
load_volume b device =
    let sector = call_get_sector device b.fs_info in
    if ltb (clusters_of b) 65525 then none else some (built b sector.sector_content)

-- pfs_fat32_updateDiskInformation
unfoldable pub update_disk_information : Volume → ℕ → Store → Option Store
update_disk_information v max_count s = do
  (d, s') ← call_cached_get_sector v max_count s 1
  let next_free = (v.next_free_cluster + 2 ^ 32 - 1) % 2 ^ 32
  c1 ← copy_to d.sector_content 488 (le_bytes 4 v.free_cluster_count)
  c2 ← copy_to c1 492 (le_bytes 4 next_free)
  some (record s' { device = call_put_sector s'.device (record d { sector_content = c2 }) })

-- What a mount gives depends on the two words of the sector alone.
load_volume_lem :
    (b : Bpb) (device device' : ℕ → List ℕ) (w : Volume) (free next : ℕ)
    → load_volume b device ≡ some w
    → read_entry (device' b.fs_info) 488 ≡ free
    → (read_entry (device' b.fs_info) 492 + 1) % 2 ^ 32 ≡ next
    → load_volume b device'
      ≡ some (record w { next_free_cluster = next; free_cluster_count = free })
unfolding load_volume
load_volume_lem b device device' w free next h f n = elim (Bool-cases (ltb (clusters_of b) 65525)) [
  | inl e ↦
      absurd (
        none-ne-some w
          (sym (ap (λ c. if c then none else some (built b (device b.fs_info))) e) ∙ h))
  | inr e ↦
      let k : built b (device b.fs_info) ≡ w =
        some-injective _ _
          (sym (ap (λ c. if c then none else some (built b (device b.fs_info))) e) ∙ h) in
      ap (λ c. if c then none else some (built b (device' b.fs_info))) e
      ∙ ap
          (λ (u : Volume). some (record u {
            next_free_cluster = (read_entry (device' b.fs_info) 492 + 1) % 2 ^ 32;
            free_cluster_count = read_entry (device' b.fs_info) 488;
          }))
          k
      ∙ ap
          (λ x. some (record w {
            next_free_cluster = (read_entry (device' b.fs_info) 492 + 1) % 2 ^ 32;
            free_cluster_count = x;
          }))
          f
      ∙ ap (λ x. some (record w { next_free_cluster = x; free_cluster_count = free })) n
]

-- What is written for the next mount is what it reads: pfs_fat_utils_loadVolume then gives the same
-- volume with the numbers of free clusters as they were when pfs_fat32_updateDiskInformation was
-- called. The file system itself still sees the sector as it was before.
pub load_volume-update_disk_information :
    (v : Volume) (max_count : ℕ) (s : Store) (b : Bpb) (w : Volume)
    → 0 < max_count
    → IsTable v s
    → is_fat_sector_reserved v 1 ≡ true
    → v.free_cluster_count < 2 ^ 32
    → v.next_free_cluster < 2 ^ 32
    → b.fs_info ≡ 1
    → load_volume b s.device ≡ some w
    → (s' : Store) × (update_disk_information v max_count s ≡ some s')
      × (load_volume b s'.device
          ≡ some (record w {
            next_free_cluster = v.next_free_cluster;
            free_cluster_count = v.free_cluster_count;
          }))
      × (view s' 1 ≡ view s 1)
unfolding update_disk_information
load_volume-update_disk_information v max_count s b w p t r f n i m =
    let (s1, q, c1, same, found) =
      call_cached_get_sector_lem v max_count p s 1 t.0 (λ e. omega (arith, e)) in
    let d0 = view s 1 in
    let free = le_bytes 4 v.free_cluster_count in
    let next_free = (v.next_free_cluster + 2 ^ 32 - 1) % 2 ^ 32 in
    let d1 = spliced d0 488 free in
    let l1 : length d1 ≡ 512 = length-spliced d0 488 free (omega (arith, t.1 1)) ∙ t.1 1 in
    let d2 = spliced d1 492 (le_bytes 4 next_free) in
    let device' = call_put_sector s1.device (record { sector_number = 1; sector_content = d2 }) in
    let at : device' b.fs_info ≡ d2 = ap device' i in
    (
      record s1 { device = device' },
      >>=-some _ q (
          >>=-some _ (copied d0 free 488 (omega (arith, t.1 1)))
            (>>=-some _ (copied d1 (le_bytes 4 next_free) 492 (omega (arith, l1))) refl)),
      load_volume_lem b s.device device' w v.free_cluster_count v.next_free_cluster m
          (ap (λ x. read_entry x 488) at
            ∙ read_entry-spliced_other d1 492 488 next_free (omega (arith, l1)) (inl (omega arith))
            ∙ read_entry-spliced_self d0 488 v.free_cluster_count (omega (arith, t.1 1)) f)
          (ap (λ x. (read_entry x 492 + 1) % 2 ^ 32) at
            ∙ ap (λ x. (x + 1) % 2 ^ 32)
                (read_entry-spliced_self d1 492 next_free (omega (arith, l1)) (omega arith))
            ∙ (let e : ((v.next_free_cluster + 2 ^ 32 - 1) % 2 ^ 32 + 1) % 2 ^ 32
                    ≡ v.next_free_cluster =
                  omega arith in
                e)),
      ap (λ o. elim o [ none ↦ device' 1 | some y ↦ y ]) (found r),
    )
