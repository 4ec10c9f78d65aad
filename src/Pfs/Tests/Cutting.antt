-- ===== src/Pfs/Tests/Cutting.antt =====
-- The file of the volume cut to nothing, and to 100 bytes.
use grage.Prelude.{ℕ, ◌≡◌, ◌≢◌, refl, Option, none, some, length, take, drop, arith}
use grage.Pfs.Volume.{get_first_sector_of_cluster, get_fat_entry_sector, get_fat_entry_offset}
use grage.Pfs.Block.{
  Block, get_each, blocks_call_get_block, call_get_block, put_sectors_each, call_put_block, rounds,
}
use grage.Pfs.Fat.Entry.{IsEntry, entry_at}
use grage.Pfs.Seek.{FatFile}
use grage.Pfs.Mknod.{Disk, get_block, put_without_file}
use grage.Pfs.Read.{fat_store}
use grage.Pfs.Files.Apart.{with_block, IsTable-with_block}
use grage.Pfs.Truncate.{count_free, truncated_place, resize_entry, resized, dated, truncate}
use grage.Pfs.Truncate.Tail.{truncate-contiguous}
use grage.Splice.{spliced}
use grage.Pfs.Tests.{volume, entry}
use grage.Pfs.Tests.Names.{noon}
use grage.Pfs.Tests.Fat.{volume-IsFat}
use grage.Pfs.Tests.Reading.{caches, file, clusters-AreData}
use grage.Pfs.Tests.Removing.{disk, disk-IsTable, root_block, root-IsData, mount}

-- The file of 8000 bytes, whose only entry is the one at offset 64.
abbrev whole : FatFile
whole = record file {
  source_offset = 64;
  short_entry = record entry { fst_clus_lo = 5; file_size = 8000 };
}

-- The root directory with another size of the file.
abbrev with_size : ℕ → Block
with_size n = record root_block {
  content = spliced root_block.content 64 (resized (take 32 (drop 64 root_block.content)) n);
}

abbrev resized_disk : ℕ → Disk
resized_disk n = with_block volume disk (with_size n)

resizes : resize_entry caches volume disk (dated whole noon) 0 ≡ some (resized_disk 0)
unfolding resize_entry truncated_place get_block call_get_block blocks_call_get_block
    put_without_file call_put_block rounds get_each get_first_sector_of_cluster
resizes = refl

length-with_size : length (with_size 0).content ≡ 4096
unfolding get_each get_first_sector_of_cluster
length-with_size = refl

next_of_five : entry_at volume (fat_store (resized_disk 0)) 5 ≡ 6
unfolding put_sectors_each get_first_sector_of_cluster get_fat_entry_sector get_fat_entry_offset
next_of_five = refl

truncate-contiguous_example :
    (d' : Disk) × (truncate 2 0 caches mount whole 0 noon
      ≡ some (
        0,
        dated whole noon,
        record mount { volume = count_free (count_free volume); disk = d' },
      ))
    × (entry_at volume (fat_store d') 6 ≡ 0)
    × ((x : ℕ)
        → IsEntry volume x
        → x ≢ 6
        → entry_at volume (fat_store d') x ≡ entry_at volume (fat_store (resized_disk 0)) x)
truncate-contiguous_example =
    truncate-contiguous 2 0 caches mount whole noon (resized_disk 0) (omega arith) refl
      (omega arith) refl volume-IsFat (omega arith) resizes
      (IsTable-with_block volume disk (with_size 0) disk-IsTable root-IsData length-with_size)
      (omega arith) (omega arith) (omega arith) clusters-AreData.0 clusters-AreData.1.0 next_of_five

-- The disk of a result.
abbrev pub disk_of : Option (ℕ × Disk) → Disk
disk_of none = disk
disk_of (some (n, d)) = d
