-- ===== src/Pfs/Tests/Reading.antt =====
-- A read of 8000 bytes from offset 100 of a file with the clusters 5, 6 and 7.
use grage.Prelude.{false, some, [], ◌∷◌, ◌≡◌, refl, take, drop, arith}
use grage.Pfs.Volume.{get_first_sector_of_cluster, get_first_cluster}
use grage.Pfs.Block.{Block}
use grage.Pfs.Fat.Entry.{IsTable}
use grage.Pfs.Seek.{FatFile}
use grage.Pfs.Mknod.{Disk, Caches}
use grage.Pfs.Read.{read, fat_store}
use grage.Pfs.Read.Content.{AreData, contents}
use grage.Pfs.Read.Whole.{read_lem}
use grage.Pfs.Tests.Names.{long_entry}
use grage.Pfs.Tests.{volume, entry}
use grage.Pfs.Tests.Fat.{device, chain, store-IsTable, volume-IsFat}

abbrev pub disk : Disk
disk = record {
  sectors = device;
  fat_cache = record { elements = []; size = 0 };
  file_cache = record { elements = []; size = 0 };
}

abbrev pub caches : Caches
caches = record { fat_max_count = 102; file_max_count = 204; habilitada = false }

abbrev pub file : FatFile
file = record {
  source = 2;
  source_offset = 32;
  next_cluster = 5;
  long_entry = long_entry;
  dir_entry_offset = 0;
  dir_type = 1;
  eoc = 0;
  short_entry = record entry { fst_clus_lo = 5 };
  file_cluster_number = 1;
  file_cluster_offset = 100;
  file_absolute_cluster_number_read = 0;
  file_absolute_cluster_number_write = 0;
}

abbrev unset : Block
unset = record { id = 0; content = [] }

pub clusters-AreData : AreData volume (5 ∷ 6 ∷ 7 ∷ [])
unfolding get_first_sector_of_cluster
clusters-AreData = (
  (omega arith, omega arith, refl),
  ((omega arith, omega arith, refl), ((omega arith, omega arith, refl), tt)),
)

read_lem_example :
    (f' : FatFile) × (d' : Disk) × (read 3 caches volume disk file 8000 unset
      ≡ some (take 8000 (drop 100 (contents volume device (5 ∷ 6 ∷ 7 ∷ []))), f', d'))
    × IsTable volume (fat_store d')
unfolding get_first_cluster
read_lem_example =
    read_lem 3 caches volume disk file 8000 unset (6 ∷ 7 ∷ []) (omega arith) refl refl volume-IsFat
      store-IsTable refl (omega arith) (omega arith) (omega arith, (omega arith, (omega arith, tt)))
      clusters-AreData chain (omega arith) (omega arith)
