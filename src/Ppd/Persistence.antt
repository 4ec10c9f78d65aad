-- ===== src/Ppd/Persistence.antt =====
-- grage-ppd/app/src/core/ppd-persistence.c: sectors of the mapped disk. The mapping itself is the
-- operating system's; the disk is the bytes that it maps.
pub mod Laws
use grage.Prelude.{
  ℕ, ◌+◌, ◌*◌, ◌%◌, ◌^◌, Option, none, some, List, [], ◌∷◌, ◌++◌, if◌then◌else◌, leb, length, take,
  drop,
}
use grage.Nipc.Message.{DiskSector}

-- SECTOR_SIZE
abbrev pub sector_size : ℕ
sector_size = 512

-- `sectorNumber * SECTOR_SIZE`, in 32 bits.
abbrev pub offset_of : ℕ → ℕ
offset_of sector = (sector * sector_size) % 2 ^ 32

-- `memcpy` of bytes into memory that holds `to`, from an offset on; `none` is a write behind its end.
abbrev pub copy_to : List ℕ → ℕ → List ℕ → Option (List ℕ)
copy_to to offset bytes =
    if leb (offset + length bytes) (length to)
    then some (take offset to ++ (bytes ++ drop (offset + length bytes) to))
    else none

-- `memcpy` of `n` bytes from an offset on; `none` is a read behind the end.
abbrev pub copy_from : List ℕ → ℕ → ℕ → Option (List ℕ)
copy_from source offset n =
    if leb (offset + n) (length source) then some (take n (drop offset source)) else none

-- ppd_persistence_writeSector
unfoldable pub write_sector : List ℕ → DiskSector → Option (List ℕ)
write_sector disk s = copy_to disk (offset_of s.sector_number) (take sector_size s.sector_content)

-- ppd_persistence_readSector
unfoldable pub read_sector : List ℕ → ℕ → Option DiskSector
read_sector disk sector = elim (copy_from disk (offset_of sector) sector_size) [
  | none ↦ none
  | some content ↦ some (record { sector_number = sector; sector_content = content })
]
