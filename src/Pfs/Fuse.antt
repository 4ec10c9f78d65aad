-- ===== src/Pfs/Fuse.antt =====
-- grage-pfs/app/src/core/pfs-fuse.c: the calls of FUSE, but a listing that ends early. What the calls take from outside is a record: the ICU library's conversion, the parts of a
-- name, the date, the fuel of the loops and what memory holds before it is set. Logging is left out.
pub mod Reads
use grage.Prelude.{
  ℕ, zero, suc, ◌+◌, ◌-◌, ◌*◌, ◌/◌, ◌%◌, ◌^◌, Bool, true, false, not, Option, none, some, List, [],
  ◌∷◌, ◌==◌, ◌||◌, if◌then◌else◌, ◌>>=◌, leb, ltb,
}
use grage.Pfs.Volume.{Volume, DirEntry}
use grage.Pfs.Cache.{fat_cache_flush}
use grage.Pfs.Block.{Block, file_cache_flush}
use grage.Pfs.Dates.{Tm}
use grage.Pfs.LongName.{LongDirEntry}
use grage.Pfs.Seek.{FatFile, bpc, pos, seek, seek_write}
use grage.Pfs.Mknod.{Disk, Caches, FileName, file_store, with_file_store, mknod}
use grage.Pfs.Read.{read, fat_store}
use grage.Pfs.Write.{write}
use grage.Pfs.Files.{Mount, with_fat_store}
use grage.Pfs.Truncate.{extend_file_write, update_filesize, truncate}
use grage.Pfs.Unlink.{unlink, rmdir, rename}
use grage.Pfs.Move.{move_file}
use grage.Commons.Strings.{string_equals}
use grage.Pfs.Directory.{Dirent, Stat, is_directory_empty, read_directory, file_stat}
use grage.Pfs.Open.{open_path}
use grage.Pfs.Mkdir.{mkdir}
use grage.Pfs.Paths.{get_dir_name_from_path, get_file_name_from_path}

pub record Outside : Type 0 where
  pub fuel : ℕ
  pub utf8 : ℕ → List ℕ → List ℕ
  pub name_of : List ℕ → FileName
  pub now : Tm
  pub unset_long : LongDirEntry
  pub unset_short : DirEntry
  pub unset_block : Block
  pub unset_number : ℕ
  pub tail : List ℕ

-- What a call returns: EXIT_SUCCESS, EXIT_FAILURE, -EXIT_FAILURE, -ENOENT or -ESPIPE.
pub data Code : Type 0 where
  exit_success : Code
  exit_failure : Code
  minus_exit_failure : Code
  enoent : Code
  espipe : Code

-- The size that pfs_fuse_read reads, where `size_t` has 32 bits.
abbrev pub read_size : ℕ → ℕ → ℕ → ℕ
read_size size offset filesize =
    if ltb filesize (offset + size) then (filesize + 2 ^ 32 - offset) % 2 ^ 32 else size

-- The room of the clusters of a file of some size.
abbrev pub room_of : Volume → ℕ → ℕ
room_of v filesize =
    ((filesize / bpc v + (if filesize % bpc v == 0 then 0 else 1)) * bpc v) % 2 ^ 32

module _ (o : Outside) (k : Caches) where
  -- pfs_fat32_open in the mounted volume
  unfoldable pub open_in : Mount → List ℕ → Option (Option FatFile × Mount)
  open_in m path = do
    (f, d) ← open_path o.fuel o.utf8 k m.volume m.disk path
    some (f, record m { disk = d })

  -- What pfs_fuse_mknod and pfs_fuse_mkdir share: where nothing has the path, and its directory is
  -- there, what makes the new entry. With no directory they take the fields of NULL. Their arrays have
  -- 128 and 14 characters.
  unfoldable pub make_in :
      Code → Mount → List ℕ → (Mount → FatFile → List ℕ → Option Mount) → Option (Code × Mount)
  make_in refused m path make = do
    dir ← get_dir_name_from_path 128 path
    name ← get_file_name_from_path 14 path
    (found, m1) ← open_in m path
    let exists = some (minus_exit_failure, m1)
    let fresh = (do
      (parent, m2) ← open_in m1 dir
      elim parent [
        | none ↦ none
        | some p ↦
            let denied = some (refused, m2) in
            let made = (do m3 ← make m2 p name; some (exit_success, m3)) in
            if p.dir_type == 0 || p.short_entry.attr == 16 then made else denied
      ])
    elim found [ none ↦ fresh | some f ↦ exists ]

  -- pfs_fuse_mknod
  unfoldable pub fuse_mknod : Mount → List ℕ → Option (Code × Mount)
  fuse_mknod m path = make_in exit_failure m path (λ m1 p name. (do
    d ←
        mknod o.fuel k m1.volume m1.disk (p.dir_type == 0) p.source p.short_entry (o.name_of name)
          o.now o.unset_long o.unset_short
    some (record m1 { disk = d })))

  -- pfs_fuse_mkdir
  unfoldable pub fuse_mkdir : Mount → List ℕ → Option (Code × Mount)
  fuse_mkdir m path =
      make_in minus_exit_failure m path
        (λ m1 p name. mkdir o.fuel k m1 p (o.name_of name) o.now o.unset_long o.unset_short)

  -- pfs_fuse_open: the code, and the file that is kept for the other calls.
  unfoldable pub fuse_open : Mount → List ℕ → Option (Code × Option FatFile × Mount)
  fuse_open m path = do
    (f, m1) ← open_in m path
    let absent = some (enoent, none, m1)
    elim f [ none ↦ absent | some x ↦ some (exit_success, some x, m1) ]

  -- pfs_fuse_read: the code, what was read, the file and the volume.
  unfoldable pub fuse_read : Mount → FatFile → ℕ → ℕ → Option (Code × List ℕ × FatFile × Mount)
  fuse_read m f size offset =
      let filesize = f.short_entry.file_size in
      let n = read_size size offset filesize in
      let (ok, f1) = seek m.volume f (pos offset) filesize in
      let reads = (do
        (bytes, f2, d) ← read o.fuel k m.volume m.disk f1 n o.unset_block
        some (exit_success, bytes, f2, record m { disk = d })) in
      if (offset == filesize) || (n == 0)
      then some (exit_success, [], f, m)
      else (if ok then reads else some (espipe, [], f1, m))

  -- The file with the clusters and the size that pfs_fuse_write gives it before it writes.
  unfoldable pub make_room_for : Mount → FatFile → ℕ → ℕ → Option (FatFile × Mount)
  make_room_for m f size offset =
      let filesize = f.short_entry.file_size in
      let resize = (do
        (f1, d) ← update_filesize k m.volume m.disk f ((size + offset) % 2 ^ 32)
        some (f1, record m { disk = d })) in
      if ltb (room_of m.volume filesize) (offset % bpc m.volume + size) || leb filesize offset
      then extend_file_write o.fuel o.unset_number k m f size
      else (if ltb filesize (size + offset) then resize else some (f, m))

  -- pfs_fuse_write: the code, the bytes that it says it wrote, the file and the volume.
  unfoldable pub fuse_write : Mount → FatFile → List ℕ → ℕ → ℕ → Option (Code × ℕ × FatFile × Mount)
  fuse_write m f buf size offset =
      let writes = (do
        (f1, m1) ← make_room_for m f size offset
        let (ok, f2) = seek_write m1.volume f1 (pos offset) f1.short_entry.file_size
        let refused = some (espipe, 0, f2, m1)
        let done = (do
          (n, f3, d) ← write o.fuel k m1.volume m1.disk f2 buf size o.unset_number
          some (exit_success, n, f3, record m1 { disk = d }))
        if ok then done else refused) in
      if size == 0 then some (exit_success, 0, f, m) else writes

  -- pfs_fuse_flush
  unfoldable pub fuse_flush : Mount → Mount
  fuse_flush m =
      let d = with_fat_store m.disk (fat_cache_flush (fat_store m.disk)) in
      record m {
        disk = if k.habilitada then with_file_store d (file_cache_flush (file_store d)) else d;
      }

  -- pfs_fuse_truncate
  unfoldable pub fuse_truncate : Mount → List ℕ → ℕ → Option (Code × Mount)
  fuse_truncate m path newsize = do
    (f, m1) ← open_in m path
    let absent = some (enoent, m1)
    elim f [
      | none ↦ absent
      | some x ↦ do
        (r, x1, m2) ← truncate o.fuel o.unset_number k m1 x newsize o.now
        some (if r == 0 then exit_success else enoent, m2)
    ]

  -- pfs_fuse_unlink
  unfoldable pub fuse_unlink : Mount → List ℕ → Option (Code × Mount)
  fuse_unlink m path = do
    (f, m1) ← open_in m path
    let absent = some (enoent, m1)
    elim f [ none ↦ absent | some x ↦ do m2 ← unlink o.fuel o.tail k m1 x; some (exit_success, m2) ]

  -- pfs_fuse_rmdir
  unfoldable pub fuse_rmdir : Mount → List ℕ → Option (Code × Mount)
  fuse_rmdir m path = do
    (f, m1) ← open_in m path
    let absent = some (enoent, m1)
    elim f [
      | none ↦ absent
      | some x ↦
          let remove = (do
            (empty, d) ← is_directory_empty o.fuel k m1.volume m1.disk x
            let removed = (do
              m2 ← rmdir o.tail k (record m1 { disk = d }) x
              some (exit_success, m2))
            if empty then removed else some (enoent, record m1 { disk = d })) in
          if x.short_entry.attr == 16 then remove else absent
    ]

  -- pfs_fuse_getattr
  unfoldable pub fuse_getattr : Mount → List ℕ → Option (Code × Option Stat × Mount)
  fuse_getattr m path = do
    (f, m1) ← open_in m path
    let absent = some (enoent, none, m1)
    elim f [ none ↦ absent | some x ↦ some (exit_success, some (file_stat m1.volume x), m1) ]

  -- The loop of pfs_fuse_readdir, with a filler that takes every name.
  unfoldable pub read_each : ℕ → Mount → FatFile → Option (List Dirent × Mount)
  read_each zero m f = none
  read_each (suc fuel) m f = do
    (e, f1, d) ← read_directory o.fuel o.utf8 k m.volume m.disk f
    let m1 = record m { disk = d }
    let rest = read_each fuel m1 f1
    elim e [ none ↦ some ([], m1) | some x ↦ do (l, m2) ← rest; some (x ∷ l, m2) ]

  -- pfs_fuse_readdir
  unfoldable pub fuse_readdir : Mount → List ℕ → Option (Code × List Dirent × Mount)
  fuse_readdir m path = do
    (f, m1) ← open_in m path
    let absent = some (enoent, [], m1)
    elim f [
      | none ↦ absent
      | some x ↦ do (l, m2) ← read_each o.fuel m1 x; some (exit_success, l, m2)
    ]

  -- The new entries of a file for pfs_fuse_rename: in its directory, or in that of the new path, the
  -- fields of NULL being taken where there is none.
  unfoldable pub rename_to : Mount → FatFile → List ℕ → List ℕ → List ℕ → Option Mount
  rename_to m f name old_dir new_dir =
      let stays = (do
        (f1, d) ← rename k m.volume m.disk f (o.name_of name)
        some (record m { disk = d })) in
      let leaves = (do
        (parent, m1) ← open_in m new_dir
        elim parent [
          | none ↦ none
          | some p ↦ do
            d ←
                move_file o.fuel o.tail o.unset_number k m1.volume m1.disk m.disk.file_cache f p
                  (o.name_of name)
            some (record m1 { disk = d })
        ]) in
      if string_equals old_dir new_dir then stays else leaves

  -- pfs_fuse_rename, whose arrays have 66 and 14 characters
  unfoldable pub fuse_rename : Mount → List ℕ → List ℕ → Option (Code × Mount)
  fuse_rename m path newpath = do
    (found, m1) ← open_in m newpath
    let exists = some (minus_exit_failure, m1)
    let free = (do
      (file, m2) ← open_in m1 path
      name ← get_file_name_from_path 14 newpath
      let absent = some (minus_exit_failure, m2)
      elim file [
        | none ↦ absent
        | some f ↦ do
          old_dir ← get_dir_name_from_path 66 path
          new_dir ← get_dir_name_from_path 66 newpath
          m3 ← rename_to m2 f name old_dir new_dir
          some (exit_success, m3)
      ])
    elim found [ none ↦ free | some x ↦ exists ]
