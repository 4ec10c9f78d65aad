-- ===== src/Pfs/Tests/Writing.antt =====
-- A write of 200 bytes at offset 4000 of a file whose first cluster is 5.
use grage.Prelude.{ℕ, ◌+◌, ◌<◌, ◌≤◌, some, ◌≡◌, ◌⊎◌, refl, replicate, arith}
use grage.Pfs.Volume.{get_first_sector_of_cluster, get_first_cluster}
use grage.Pfs.Seek.{FatFile}
use grage.Pfs.Mknod.{Disk, get_block}
use grage.Pfs.Read.Whole.{block_of}
use grage.Pfs.Write.{write}
use grage.Pfs.Write.Place.{after_write, write_lem}
use grage.Pfs.Tests.{volume}
use grage.Pfs.Tests.Fat.{store-IsTable}
use grage.Pfs.Tests.Reading.{disk, caches, file, clusters-AreData}

abbrev at_end : FatFile
at_end = record file { file_cluster_offset = 4000 }

write_lem_example :
    (f' : FatFile) × (d' : Disk) × (write 2 caches volume disk at_end (replicate 200 1) 200 0
      ≡ some (200, f', d'))
    × (get_block caches volume d' 5
        ≡ some (
          record { id = 5; content = after_write (block_of volume disk 5) 4000 (replicate 200 1) },
          d',
        ))
    × ((m : ℕ)
        → (m < get_first_sector_of_cluster volume 5)
          ⊎ (get_first_sector_of_cluster volume 5 + 8 ≤ m)
        → d'.sectors m ≡ disk.sectors m)
unfolding get_first_cluster
write_lem_example =
    write_lem 2 caches volume disk at_end (replicate 200 1) 0 refl refl store-IsTable refl
      (omega arith) (omega arith) (clusters-AreData.0) (omega arith) (omega arith)
