-- ===== src/Pfs/Tests/Creating.antt =====
-- The file `abc` is made in a root directory with one entry, and opened.
use grage.Prelude.{ℕ, List, [], ◌∷◌, ◌++◌, ◌==◌, if◌then◌else◌, replicate, take}
use grage.Pfs.Mknod.{Disk}
use grage.Pfs.Tests.Removing.{other_entry}

abbrev disk : Disk
disk = record {
  sectors = λ n. if n == 1056 then other_entry ++ replicate 480 0 else replicate 512 0;
  fat_cache = record { elements = []; size = 0 };
  file_cache = record { elements = []; size = 0 };
}

abbrev utf8 : ℕ → List ℕ → List ℕ
utf8 room l = take room (l ++ (0 ∷ []))

abbrev name : List ℕ
name = 97 ∷ 98 ∷ 99 ∷ []
