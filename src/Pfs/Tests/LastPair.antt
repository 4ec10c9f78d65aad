-- ===== src/Pfs/Tests/LastPair.antt =====
-- A root directory of one full cluster, whose last two entries are those of the file `abc`, and which
-- goes on in cluster 6.
use grage.Prelude.{
  ℕ, zero, suc, ◌+◌, Bool, false, not, Option, none, some, List, [], ◌∷◌, ◌++◌, ◌==◌, ◌&&◌,
  if◌then◌else◌, leb, replicate, take, get_or,
}
use grage.Commons.Strings.{string_equals}
use grage.Nipc.Wire.Bytes.{le_bytes}
use grage.Pfs.Block.{Block}
use grage.Pfs.Fat.{fat_eoc}
use grage.Pfs.Mknod.{Disk, get_next}
use grage.Pfs.Read.Whole.{block_of}
use grage.Pfs.Open.{fresh_cache}
use grage.Pfs.Open.Found.{entry_at, name_at, step_at}
use grage.Pfs.Tests.{volume}
use grage.Pfs.Tests.Reading.{caches}
use grage.Pfs.Tests.Removing.{other_entry, long_bytes, short_bytes}
use grage.Pfs.Tests.Cutting.{disk_of}

abbrev pub others : ℕ → List ℕ
others zero = []
others (suc n) = other_entry ++ others n

abbrev pub table_sector : List ℕ
table_sector = le_bytes 4 fat_eoc ++ (le_bytes 4 fat_eoc ++ (le_bytes 4 6 ++ replicate 500 0))

abbrev device : ℕ → List ℕ
device n =
    if n == 32
    then table_sector
    else (if leb 1056 n && leb n 1062
        then others 16
        else (if n == 1063 then others 14 ++ (long_bytes ++ short_bytes) else replicate 512 0))

abbrev disk : Disk
disk = record {
  sectors = device;
  fat_cache = record { elements = []; size = 0 };
  file_cache = record { elements = []; size = 0 };
}

abbrev utf8 : ℕ → List ℕ → List ℕ
utf8 room l = take room (l ++ (0 ∷ []))

abbrev name : List ℕ
name = 97 ∷ 98 ∷ 99 ∷ []

is_other : Option (List ℕ) → Bool
is_other none = false
is_other (some x) = not (string_equals name x)

-- The rounds that pass other names, as a test.
passes_test : List ℕ → ℕ → ℕ → ℕ → Bool
passes_test content zero o o' = o == o'
passes_test content (suc n) o o' =
    leb (o + 32) 4096
    && (not (get_or (entry_at content o) 0 0 == 0)
        && (is_other (name_at utf8 content o) && passes_test content n (o + step_at content o) o'))

abbrev walked : Disk
walked = disk_of (get_next caches volume (fresh_cache disk) 2)

abbrev six : Block
six = record { id = 6; content = block_of volume walked 6 }
