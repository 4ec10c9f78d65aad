-- ===== src/Pfs/Tests/Blocks.antt =====
-- A block, the cache of a file, the volume of a mount and a file of three clusters.
use grage.Prelude.{
  ℕ, ◌+◌, ◌<◌, ◌≤◌, true, false, some, [], ◌∷◌, ◌≡◌, refl, length-replicate, replicate, inl, ◌⊎◌,
  arith,
}
use grage.Pfs.Volume.{Volume, get_first_sector_of_cluster}
use grage.Pfs.Cache.{Store}
use grage.Pfs.Cache.Coherent.{view, ShowsSame, IsCoherent}
use grage.Pfs.Block.{Block, call_put_block, call_get_block}
use grage.Pfs.Block.FileCache.{views}
use grage.Pfs.Block.Roundtrip.{call_get_block-call_put_block, call_get_block_lem}
use grage.Pfs.Load.{Bpb, load_volume, update_disk_information, load_volume-update_disk_information}
use grage.Pfs.Seek.{FatFile}
use grage.Pfs.Tests.Names.{long_entry}
use grage.Pfs.Tests.{volume, entry}
use grage.Pfs.Tests.Fat.{device, store, store-IsTable}

abbrev block : Block
block = record { id = 5; content = replicate 4096 7 }

first_sector : get_first_sector_of_cluster volume 5 ≡ 1080
unfolding get_first_sector_of_cluster
first_sector = refl

call_get_block-call_put_block_example :
    (s' : Store) × (call_put_block false volume 204 store block ≡ some s')
    × (call_get_block false volume 204 s' 5 ≡ some (block, s'))
    × ((m : ℕ)
        → (m < get_first_sector_of_cluster volume 5)
          ⊎ (get_first_sector_of_cluster volume 5 + 8 ≤ m)
        → s'.device m ≡ store.device m)
call_get_block-call_put_block_example =
    call_get_block-call_put_block false volume 204 store block refl (omega (arith, first_sector))
      (length-replicate {A = ℕ} 4096 7)

-- The sector 1080 in the cache of a file, and the sector 32 behind it.
abbrev of_file : Store
of_file = record {
  device = device;
  cache = record {
    elements =
        record {
          estado = 1;
          modificado = true;
          sector = record { sector_number = 1080; sector_content = 1 ∷ [] };
        }
        ∷ record {
          estado = 2;
          modificado = true;
          sector = record { sector_number = 1081; sector_content = 2 ∷ [] };
        }
        ∷ [];
    size = 2;
  };
}

of_file-IsCoherent : IsCoherent of_file
of_file-IsCoherent = ((((λ e. omega (arith, e)), tt), (tt, tt)), (inl refl, (inl refl, tt)), refl)

call_get_block_lem_example :
    (s' : Store) × (call_get_block true volume 204 of_file 5
      ≡ some (
        record { id = 5; content = views 8 (get_first_sector_of_cluster volume 5) (view of_file) },
        s',
      ))
    × IsCoherent s'
    × ShowsSame of_file s'
call_get_block_lem_example =
    call_get_block_lem volume 204 of_file 5 (omega arith) refl of_file-IsCoherent
      (λ e. omega (arith, first_sector, e)) (omega (arith, first_sector))

abbrev bpb : Bpb
bpb = record {
  byts_per_sec = 512;
  sec_per_clus = 8;
  resvd_sec_cnt = 32;
  num_fats = 2;
  fat_sz32 = 512;
  root_clus = 2;
  tot_sec32 = 600000;
  fs_info = 1;
}

-- What a mount of the disk finds there.
abbrev mounted : Volume
mounted = record volume { clusters = 74868; next_free_cluster = 1; free_cluster_count = 0 }

mounts : load_volume bpb device ≡ some mounted
unfolding load_volume
mounts = refl

load_volume-update_disk_information_example :
    (s' : Store) × (update_disk_information volume 102 store ≡ some s')
    × (load_volume bpb s'.device
        ≡ some (record mounted { next_free_cluster = 9; free_cluster_count = 65000 }))
    × (view s' 1 ≡ view store 1)
load_volume-update_disk_information_example =
    load_volume-update_disk_information volume 102 store bpb mounted (omega arith) store-IsTable
      refl (omega arith) (omega arith) refl mounts

abbrev file : FatFile
file = record {
  source = 2;
  source_offset = 32;
  next_cluster = 5;
  long_entry = long_entry;
  dir_entry_offset = 0;
  dir_type = 1;
  eoc = 0;
  short_entry = record entry { fst_clus_lo = 5 };
  file_cluster_number = 0;
  file_cluster_offset = 0;
  file_absolute_cluster_number_read = 0;
  file_absolute_cluster_number_write = 0;
}
