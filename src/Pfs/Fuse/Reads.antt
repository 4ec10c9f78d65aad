-- ===== src/Pfs/Fuse/Reads.antt =====
-- What pfs_fuse_read gives for every offset of a file.
use grage.Prelude.{
  ℕ, suc, ◌+◌, ◌-◌, ◌*◌, ◌^◌, ◌<◌, ◌≤◌, ◌≡◌, ◌≢◌, refl, ap, sym, ◌∙◌, true, false, some, List, [],
  ◌∷◌, ◌==◌, if◌then◌else◌, >>=-some, ne→==, ltb, lt→ltb, length, take, drop, arith,
}
use grage.Splice.{take-drop-take}
use grage.Pfs.Volume.{Volume, get_first_cluster}
use grage.Pfs.Fat.Entry.{IsFat, IsTable, entry_at}
use grage.Pfs.Fat.Chain.{IsChain, AreEntries}
use grage.Pfs.Seek.{FatFile, bpc, pos, place_at, seek}
use grage.Pfs.Mknod.{Caches}
use grage.Pfs.Read.{read, fat_store}
use grage.Pfs.Read.Content.{AreData, contents}
use grage.Pfs.Read.Whole.{read_lem}
use grage.Pfs.Files.{Mount}
use grage.Pfs.Fuse.{Outside, exit_success, espipe, read_size, fuse_read}

-- As many bytes as were asked for, and no more than the file has from the offset on.
abbrev pub available : ℕ → ℕ → ℕ → ℕ
available size offset filesize = if ltb filesize (offset + size) then filesize - offset else size

-- The bytes of a file of some size whose clusters hold `content`, from an offset on.
abbrev pub bytes_of : List ℕ → ℕ → ℕ → ℕ → List ℕ
bytes_of content filesize offset size =
    take (available size offset filesize) (drop offset (take filesize content))

read_size-available :
    (size offset filesize : ℕ)
    → offset < filesize
    → filesize < 2 ^ 32
    → 0 < size
    → (read_size size offset filesize ≡ available size offset filesize)
      × (offset + available size offset filesize ≤ filesize)
      × ((read_size size offset filesize == 0) ≡ false)
read_size-available size offset filesize h b p = (ground arith, ground arith, ground arith)

-- A call for an offset behind the end of the file is refused and changes nothing.
pub fuse_read-beyond :
    (o : Outside) (k : Caches) (m : Mount) (f : FatFile) (size offset : ℕ)
    → f.short_entry.file_size < offset
    → offset < 2 ^ 32
    → fuse_read o k m f size offset ≡ some (espipe, [], f, m)
unfolding fuse_read seek
fuse_read-beyond o k m f size offset h b =
    let fs = f.short_entry.file_size in
    let e : (offset == fs) ≡ false = ground (arith, h) in
    let z : (read_size size offset fs == 0) ≡ false = ground (arith, h, b) in
    let l : ltb fs offset ≡ true = lt→ltb fs offset h in rw (e, z, l) refl

seek_first :
    (v : Volume) (f : FatFile) (offset : ℕ)
    → bpc v ≡ 4096
    → offset < 4096
    → offset < f.short_entry.file_size
    → f.short_entry.attr ≢ 16
    → seek v f (pos offset) f.short_entry.file_size ≡ (true, place_at v f offset)
unfolding seek
seek_first v f offset w l h a =
    let e : ltb f.short_entry.file_size offset ≡ false = ground (arith, h) in
    rw (e, ne→== f.short_entry.attr 16 a) refl

place_first :
    (v : Volume) (f : FatFile) (offset : ℕ)
    → bpc v ≡ 4096
    → offset < 4096
    → ((place_at v f offset).file_cluster_number ≤ 1)
      × ((place_at v f offset).file_cluster_offset ≡ offset)
unfolding place_at
place_first v f offset w l = rw w (ground arith, omega arith)

-- With the cache of files off, a call for an offset of the first cluster of a file that was not read
-- yet gives the bytes of the file from there on: as many as were asked for, or all that are left.
pub fuse_read_lem :
    (o : Outside) (k : Caches) (m : Mount) (f : FatFile) (size offset : ℕ) (ds : List ℕ)
    → 0 < k.fat_max_count
    → k.habilitada ≡ false
    → bpc m.volume ≡ 4096
    → IsFat m.volume
    → IsTable m.volume (fat_store m.disk)
    → f.file_absolute_cluster_number_read ≡ 0
    → f.short_entry.attr ≢ 16
    → 0 < size
    → offset < 4096
    → offset < f.short_entry.file_size
    → f.short_entry.file_size < 2 ^ 32
    → f.short_entry.file_size ≤ 4096 * suc (length ds)
    → AreEntries m.volume (get_first_cluster f.short_entry ∷ ds)
    → AreData m.volume (get_first_cluster f.short_entry ∷ ds)
    → IsChain (entry_at m.volume (fat_store m.disk)) (get_first_cluster f.short_entry) ds
    → length ds < o.fuel
    → (f' : FatFile) × (m' : Mount) × (fuse_read o k m f size offset
        ≡ some (
          exit_success,
          bytes_of
              (contents m.volume m.disk.sectors (get_first_cluster f.short_entry ∷ ds))
              f.short_entry.file_size
              offset
              size,
          f',
          m',
        ))
      × IsTable m'.volume (fat_store m'.disk)
unfolding fuse_read place_at
fuse_read_lem o k m f size offset ds p u w i t z a s l h b r e d c g =
    let v = m.volume in
    let fs = f.short_entry.file_size in
    let content = contents v m.disk.sectors (get_first_cluster f.short_entry ∷ ds) in
    let (q, fit, some_bytes) = read_size-available size offset fs h b s in
    let f1 = place_at v f offset in
    let (number, place) = place_first v f offset w l in
    let n = available size offset fs in
    let (f', d', got, t') =
      read_lem o.fuel k v m.disk f1 n o.unset_block ds p u w i t z number (omega (arith, place)) e d
        c (omega (arith, place, fit, r)) g in
    let at : (offset == fs) ≡ false = ground (arith, h) in
    let same : take n (drop f1.file_cluster_offset content) ≡ bytes_of content fs offset size =
      ap (λ x. take n (drop x content)) place ∙ sym (take-drop-take offset n fs content fit) in
    (
      f',
      record m { disk = d' },
      rw (at, some_bytes, seek_first v f offset w l h a)
          (>>=-some _ (ap (λ x. read o.fuel k v m.disk f1 x o.unset_block) q ∙ got)
            (ap (λ x. some (exit_success, x, f', record m { disk = d' })) same)),
      t',
    )
