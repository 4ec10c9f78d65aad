-- ===== src/Pfs/Tests/Moving.antt =====
-- A file of the root directory, which goes on in cluster 6, is moved to the directory in cluster 5,
-- whose first sector is full.
use grage.Prelude.{
  ℕ, zero, suc, ◌+◌, ◌*◌, Bool, true, not, List, [], ◌==◌, ◌&&◌, if◌then◌else◌, replicate,
}
use grage.Pfs.Seek.{FatFile}
use grage.Pfs.Mknod.{Disk, get_next, is_free_entry}
use grage.Pfs.Read.Whole.{block_of}
use grage.Pfs.Tests.{volume}
use grage.Pfs.Tests.Reading.{caches, file}
use grage.Pfs.Tests.LastPair.{others, table_sector}
use grage.Pfs.Tests.Cutting.{disk_of}

abbrev device : ℕ → List ℕ
device n = if n == 32 then table_sector else (if n == 1080 then others 16 else replicate 512 0)

abbrev disk : Disk
disk = record {
  sectors = device;
  fat_cache = record { elements = []; size = 0 };
  file_cache = record { elements = []; size = 0 };
}

abbrev target : FatFile
target = record file { next_cluster = 5 }

abbrev content : List ℕ
content = block_of volume disk 5

-- No two entries in a row are free, as a test of `k` places.
used_test : List ℕ → ℕ → ℕ → Bool
used_test c zero j = true
used_test c (suc k) j =
    let rest = used_test c k (j + 1) in
    not (is_free_entry c (j * 32) && is_free_entry c (j * 32 + 32)) && rest

abbrev walked : Disk
walked = disk_of (get_next caches volume disk 2)
