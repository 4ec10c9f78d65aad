-- ===== src/Pfs/Files.antt =====
-- What the calls of grage-pfs/app/src/core/pfs-fat32.c share that change a file: the mounted volume
-- with its lock and its disk, and the sectors of the table on it. A read, or a write, outside of a
-- block is `none`.
pub mod Apart
use grage.Prelude.{ℕ, ◌+◌, Bool, Option, none, some, List, ◌==◌, if◌then◌else◌, ◌>>=◌, leb, get_or}
use grage.Pfs.Volume.{Volume}
use grage.Pfs.Cache.{Store}
use grage.Pfs.Fat.Allocate.{Table}
use grage.Pfs.Seek.{FatFile, bpc}
use grage.Pfs.LongName.{LongDirEntry}
use grage.Pfs.Mknod.{Disk, Caches, get_next}
use grage.Pfs.Read.{fat_store}

pub record Mount : Type 0 where
  pub volume : Volume
  pub fat_lock : Bool
  pub disk : Disk

abbrev pub with_fat_store : Disk → Store → Disk
with_fat_store d s = record d { sectors = s.device; fat_cache = s.cache }

abbrev pub table : Mount → Table
table m = record { volume = m.volume; store = fat_store m.disk; fat_lock = m.fat_lock }

abbrev pub with_table : Mount → Table → Mount
with_table m t = record {
  volume = t.volume;
  fat_lock = t.fat_lock;
  disk = with_fat_store m.disk t.store;
}

-- FAT_32_LDIR_ISLONG
abbrev pub is_long : ℕ → Bool
is_long attr = attr == 15

-- The attribute of the entry at an offset of a block.
abbrev pub attr_at : List ℕ → ℕ → ℕ
attr_at content offset = get_or content (offset + 11) 0

-- The place of the short entry of a file, behind its long entry if it has one, as
-- pfs_fat32_utils_updateFilesize finds it: the cluster and the offset.
unfoldable pub short_entry_place : Caches → Volume → Disk → FatFile → Option (ℕ × ℕ × Disk)
short_entry_place k v d f =
    let behind = (do (c, d') ← get_next k v d f.source; some (c, 0, d')) in
    if is_long f.long_entry.ldir_attr
    then (if leb (bpc v) (f.source_offset + 32)
        then behind
        else some (f.source, f.source_offset + 32, d))
    else some (f.source, f.source_offset, d)
