-- ===== src/Pfs/Tests/Renaming.antt =====
-- The file of the root directory gets the name `abc` in both of its entries.
use grage.Prelude.{ℕ, ◌+◌, ◌<◌, ◌≤◌, ◌≡◌, ◌⊎◌, refl, some, arith}
use grage.Pfs.Volume.{get_first_cluster, get_first_sector_of_cluster}
use grage.Pfs.LongName.{get_name_length, extract_name}
use grage.Pfs.Seek.{FatFile}
use grage.Pfs.Mknod.{Disk, get_block}
use grage.Pfs.Unlink.{rename}
use grage.Pfs.Unlink.Renamed.{with_file, source_block, rename_lem}
use grage.Pfs.Tests.{volume}
use grage.Pfs.Tests.Names.{long_entry, letters}
use grage.Pfs.Tests.Directory.{file_name}
use grage.Pfs.Tests.Reading.{caches, file}
use grage.Pfs.Tests.Removing.{disk, length-root_block, root_room}

abbrev pub named_file : FatFile
named_file = record file { long_entry = record long_entry { ldir_attr = 15 } }

rename_lem_example :
    (f' : FatFile) × (d' : Disk) × (name : ℕ → ℕ) × (rename caches volume disk named_file file_name
      ≡ some (f', d'))
    × (f'.source_offset ≡ 32)
    × (get_block caches volume d' 2 ≡ some (with_file f' (source_block volume disk named_file), d'))
    × ((m : ℕ)
        → (m < get_first_sector_of_cluster volume 2)
          ⊎ (get_first_sector_of_cluster volume 2 + 8 ≤ m)
        → d'.sectors m ≡ disk.sectors m)
    × (get_name_length f'.long_entry ≡ 4)
    × (extract_name 13 f'.long_entry (λ i. 0) (get_name_length f'.long_entry) ≡ some name)
    × ((j : ℕ) → j < 3 → name j ≡ letters j)
    × (name 3 ≡ 0)
    × (f'.short_entry.file_size ≡ named_file.short_entry.file_size)
    × (get_first_cluster f'.short_entry ≡ get_first_cluster named_file.short_entry)
rename_lem_example =
    rename_lem caches volume disk named_file file_name (λ i. 0) refl refl root_room
      length-root_block (omega arith) refl (omega arith) (λ j b e. omega (arith, e))
