-- ===== src/Pfs/Tests/Opening.antt =====
-- The file `abc` is opened and read; and a root directory whose last two entries are those of a file.
use grage.Prelude.{ℕ, ◌≡◌, refl, false, some, List, [], ◌∷◌, replicate, take, ◌++◌, arith}
use grage.Pfs.Volume.{get_first_cluster}
use grage.Pfs.Fat.Entry.{IsTable}
use grage.Pfs.Read.{fat_store}
use grage.Pfs.Read.Content.{contents}
use grage.Pfs.Seek.{FatFile}
use grage.Pfs.Files.{Mount}
use grage.Pfs.Fuse.{Outside, exit_success, fuse_read}
use grage.Pfs.Fuse.Reads.{bytes_of, fuse_read_lem}
use grage.Pfs.Tests.{volume, entry}
use grage.Pfs.Tests.Names.{noon, long_entry}
use grage.Pfs.Tests.Directory.{file_name}
use grage.Pfs.Tests.Fat.{volume-IsFat, chain, store-IsTable}
use grage.Pfs.Tests.Reading.{caches, file, clusters-AreData}
use grage.Pfs.Tests.Reading
use grage.Pfs.Tests.Removing.{disk}

-- A conversion that keeps the characters of ASCII.
abbrev utf8 : ℕ → List ℕ → List ℕ
utf8 room l = take room (l ++ (0 ∷ []))

abbrev name : List ℕ
name = 97 ∷ 98 ∷ 99 ∷ []

abbrev outside : Outside
outside = record {
  fuel = 3;
  utf8 = utf8;
  name_of = λ n. file_name;
  now = noon;
  unset_long = long_entry;
  unset_short = entry;
  unset_block = record { id = 0; content = [] };
  unset_number = 0;
  tail = replicate 31 7;
}

abbrev mount : Mount
mount = record { volume = volume; fat_lock = false; disk = Reading.disk }

abbrev long_file : FatFile
long_file = record file { short_entry = record entry { fst_clus_lo = 5; file_size = 8000 } }

fuse_read_lem_example :
    (f' : FatFile) × (m' : Mount) × (fuse_read outside caches mount long_file 9000 100
      ≡ some (
        exit_success,
        bytes_of (contents volume Reading.disk.sectors (5 ∷ 6 ∷ 7 ∷ [])) 8000 100 9000,
        f',
        m',
      ))
    × IsTable m'.volume (fat_store m'.disk)
unfolding get_first_cluster
fuse_read_lem_example =
    fuse_read_lem outside caches mount long_file 9000 100 (6 ∷ 7 ∷ []) (omega arith) refl refl
      volume-IsFat store-IsTable refl (omega arith) (omega arith) (omega arith) (omega arith)
      (omega arith) (omega arith) (omega arith, (omega arith, (omega arith, tt))) clusters-AreData
      chain (omega arith)
