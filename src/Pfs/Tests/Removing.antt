-- ===== src/Pfs/Tests/Removing.antt =====
-- A volume whose root directory, in cluster 2, has a short entry and then the entries of the file
-- `abc` in cluster 5, and whose cluster 6 has a directory with an entry that was removed. The table
-- starts with the medium's entry and has the chain of the clusters 5, 6 and 7.
use grage.Prelude.{
  ℕ, zero, suc, ◌+◌, ◌^◌, ◌<◌, ◌≡◌, ◌≢◌, refl, true, false, some, List, [], ◌∷◌, ◌++◌, ◌==◌,
  if◌then◌else◌, Bool-cases, inl, inr, length, length-replicate, replicate, get_or, take, drop,
  arith,
}
use grage.Nipc.Wire.Bytes.{le_bytes}
use grage.Pfs.Volume.{get_first_sector_of_cluster, get_fat_entry_sector, get_fat_entry_offset}
use grage.Pfs.Block.{Block, get_each, put_sectors_each, call_put_block, rounds}
use grage.Pfs.Fat.{fat_eoc, is_eoc}
use grage.Pfs.Fat.Entry.{IsTable, IsEntry, entry_at}
use grage.Pfs.Fat.Unlink.{freed}
use grage.Pfs.Seek.{FatFile}
use grage.Pfs.Mknod.{Disk, is_free_entry, put_without_file}
use grage.Pfs.Read.{fat_store}
use grage.Pfs.Read.Content.{IsData, block_lem}
use grage.Pfs.Read.Whole.{block_of}
use grage.Pfs.Files.{Mount}
use grage.Pfs.Files.Apart.{with_block, IsTable-with_block}
use grage.Pfs.Unlink.{unlink_dir_entry, unlink_pair, following_ord, unlink}
use grage.Pfs.Unlink.Removed.{Writes, without_pair, unlink_dir_entry_lem}
use grage.Pfs.Unlink.Empty.{unlink-empty}
use grage.Pfs.Directory.{is_directory_empty}
use grage.Pfs.Directory.Empty.{AreRemoved, entry_bytes, is_directory_empty_lem}
use grage.Pfs.Tests.{volume}
use grage.Pfs.Tests.Fat.{volume-IsFat}
use grage.Pfs.Tests.Reading.{caches, file}

abbrev table_sector : List ℕ
table_sector =
    le_bytes 4 fat_eoc
    ++ (replicate 16 9
        ++ (le_bytes 4 6 ++ (le_bytes 4 7 ++ (le_bytes 4 fat_eoc ++ replicate 480 0))))

-- 32 bytes each: a short entry, the long and the short entry of the file.
abbrev pub other_entry : List ℕ
other_entry = replicate 8 88 ++ (replicate 3 32 ++ replicate 21 0)

abbrev pub long_bytes : List ℕ
long_bytes = 65 ∷ 97 ∷ 0 ∷ 98 ∷ 0 ∷ 99 ∷ 0 ∷ 0 ∷ 0 ∷ 0 ∷ 0 ∷ 15 ∷ replicate 20 0

abbrev pub short_bytes : List ℕ
short_bytes = 65 ∷ 66 ∷ 67 ∷ (replicate 8 32 ++ (replicate 15 0 ++ (5 ∷ 0 ∷ 64 ∷ 31 ∷ 0 ∷ 0 ∷ [])))

abbrev root_sector : List ℕ
root_sector = other_entry ++ (long_bytes ++ (short_bytes ++ replicate 416 0))

abbrev removed_sector : List ℕ
removed_sector = replicate 64 46 ++ (229 ∷ replicate 447 0)

abbrev pub device : ℕ → List ℕ
device n =
    if n == 32
    then table_sector
    else (if n == 1056
        then root_sector
        else (if n == 1088 then removed_sector else replicate 512 0))

abbrev pub disk : Disk
disk = record {
  sectors = device;
  fat_cache = record { elements = []; size = 0 };
  file_cache = record { elements = []; size = 0 };
}

pub disk-IsTable : IsTable volume (fat_store disk)
disk-IsTable = (
  ((tt, tt, refl), λ n e. tt),
  λ n. elim (Bool-cases (n == 32)) [
    | inl e ↦ rw e refl
    | inr e ↦ elim (Bool-cases (n == 1056)) [
      | inl g ↦ rw (e, g) refl
      | inr g ↦ elim (Bool-cases (n == 1088)) [
        | inl h ↦ rw (e, g, h) refl
        | inr h ↦ rw (e, g, h) (length-replicate {A = ℕ} 512 0)
      ]
    ]
  ],
)

abbrev pub root_block : Block
root_block = record { id = 2; content = block_of volume disk 2 }

pub length-root_block : length root_block.content ≡ 4096
unfolding get_each get_first_sector_of_cluster
length-root_block = refl

pub root-IsData : IsData volume 2
unfolding get_first_sector_of_cluster
root-IsData = (omega arith, omega arith, refl)

abbrev tail : List ℕ
tail = replicate 31 7

pub root_room : get_first_sector_of_cluster volume 2 + 8 < 2 ^ 32
unfolding get_first_sector_of_cluster
root_room = omega arith

long_here : (get_or (take 32 (drop 32 root_block.content)) 11 0 == 15) ≡ true
unfolding get_each get_first_sector_of_cluster
long_here = refl

unlink_dir_entry_lem_example :
    Writes caches volume disk
      (record root_block { content = without_pair tail root_block.content 1 })
      (unlink_dir_entry tail caches volume disk file root_block)
    × (is_free_entry (without_pair tail root_block.content 1) 32 ≡ true)
    × (is_free_entry (without_pair tail root_block.content 1) 64 ≡ true)
unlink_dir_entry_lem_example =
    unlink_dir_entry_lem tail caches volume disk file root_block 1 refl refl root_room
      length-root_block refl (omega arith) refl long_here

abbrev directory : FatFile
directory = record file { next_cluster = 6 }

abbrev directory_content : List ℕ
directory_content = block_of volume disk 6

length-directory : length directory_content ≡ 4096
unfolding get_each get_first_sector_of_cluster
length-directory = refl

one_removed : AreRemoved directory_content 2 3
unfolding get_each get_first_sector_of_cluster
one_removed zero a b = absurd (omega arith)
one_removed (suc zero) a b = absurd (omega arith)
one_removed (suc (suc zero)) a b = (refl, refl)
one_removed (suc (suc (suc m))) a b = absurd (omega arith)

ends_there : get_or (entry_bytes directory_content 3) 0 0 ≡ 0
unfolding get_each get_first_sector_of_cluster
ends_there = refl

is_directory_empty_lem_example :
    is_directory_empty 4 caches volume disk directory
    ≡ some (get_or (entry_bytes directory_content 3) 0 0 == 0, disk)
is_directory_empty_lem_example =
    is_directory_empty_lem 4 caches volume disk disk directory
      (record { id = 6; content = directory_content }) 3 refl (block_lem caches volume disk 6 refl)
      length-directory (omega arith) (omega arith) (omega arith) one_removed
      (λ e. omega (arith, e, ends_there))

abbrev pub mount : Mount
mount = record { volume = volume; fat_lock = false; disk = disk }

abbrev empty_file : FatFile
empty_file = record file { next_cluster = 0 }

-- The root directory without the entries of the file.
abbrev cleared : Block
cleared = record root_block { content = without_pair tail root_block.content 1 }

length-cleared : length cleared.content ≡ 4096
unfolding get_each get_first_sector_of_cluster
length-cleared = refl

abbrev cleared_disk : Disk
cleared_disk = with_block volume disk cleared

clears : unlink_dir_entry tail caches volume disk empty_file root_block ≡ some cleared_disk
unfolding unlink_dir_entry unlink_pair following_ord put_without_file call_put_block rounds get_each
    get_first_sector_of_cluster
clears = refl

medium_entry : is_eoc (entry_at volume (fat_store cleared_disk) 0) ≡ true
unfolding get_first_sector_of_cluster get_fat_entry_sector get_fat_entry_offset put_sectors_each
medium_entry = refl

unlink-empty_example :
    (m' : Mount) × (unlink 1 tail caches mount empty_file ≡ some m')
    × (m'.volume ≡ freed volume 1)
    × (entry_at volume (fat_store m'.disk) 0 ≡ 0)
    × ((x : ℕ)
        → IsEntry volume x
        → x ≢ 0
        → entry_at volume (fat_store m'.disk) x ≡ entry_at volume (fat_store cleared_disk) x)
unlink-empty_example =
    unlink-empty 1 tail caches mount empty_file root_block disk cleared_disk (omega arith)
      (omega arith) volume-IsFat (omega arith) refl (block_lem caches volume disk 2 refl) clears
      (IsTable-with_block volume disk cleared disk-IsTable root-IsData length-cleared) medium_entry
