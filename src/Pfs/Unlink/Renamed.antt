-- ===== src/Pfs/Unlink/Renamed.antt =====
-- What pfs_fat32_rename leaves of the entries of a file.
use grage.Prelude.{
  ℕ, ◌+◌, ◌^◌, ◌<◌, ◌≤◌, ◌≡◌, ◌≢◌, ◌⊎◌, refl, ◌∙◌, false, true, some, >>=-some, leb, length, arith,
}
use grage.Splice.{spliced, length-spliced}
use grage.Pfs.Volume.{Volume, get_first_cluster, get_first_sector_of_cluster}
use grage.Pfs.Block.{Block}
use grage.Pfs.Fat.Entry.{copied}
use grage.Pfs.LongName.{
  get_name_length, extract_name, with_chars, load_long_entry_filename, extract_name-with_chars,
}
use grage.Pfs.ShortName.{load_entry_filename}
use grage.Pfs.Seek.{FatFile, bpc}
use grage.Pfs.Mknod.{Disk, Caches, FileName, get_block, long_bytes, short_bytes}
use grage.Pfs.Read.Content.{block_lem}
use grage.Pfs.Read.Whole.{block_of}
use grage.Pfs.Files.{is_long}
use grage.Pfs.Unlink.{renamed, rename_pair, rename}
use grage.Pfs.Unlink.Removed.{Writes, put_without_file_lem}

-- A block with the two entries of a file at their offset.
abbrev pub with_file : FatFile → Block → Block
with_file f b = record b {
  content =
      spliced (spliced b.content f.source_offset (long_bytes f.long_entry)) (f.source_offset + 32)
        (short_bytes f.short_entry);
}

-- The block of the entries of a file.
abbrev pub source_block : Volume → Disk → FatFile → Block
source_block v d f = record { id = f.source; content = block_of v d f.source }

rename_pair_lem :
    (k : Caches) (v : Volume) (d : Disk) (f : FatFile) (b : Block)
    → k.habilitada ≡ false
    → bpc v ≡ 4096
    → get_first_sector_of_cluster v b.id + 8 < 2 ^ 32
    → length b.content ≡ 4096
    → f.source_offset + 64 ≤ 4096
    → Writes k v d (with_file f b) (rename_pair k v d f b)
unfolding rename_pair
rename_pair_lem k v d f b u w h l r =
    let o = f.source_offset in
    let c0 = b.content in
    let c1 = spliced c0 o (long_bytes f.long_entry) in
    let l1 : length c1 ≡ 4096 =
      length-spliced c0 o (long_bytes f.long_entry) (omega (arith, l, r)) ∙ l in
    let c2 = spliced c1 (o + 32) (short_bytes f.short_entry) in
    let l2 : length c2 ≡ 4096 =
      length-spliced c1 (o + 32) (short_bytes f.short_entry) (omega (arith, l1, r)) ∙ l1 in
    let (d', q, back, same) = put_without_file_lem k v d (record b { content = c2 }) u h l2 in
    let inside : leb 4096 (o + 32) ≡ false = ground (arith, r) in
    (
      d',
      rw (w, inside)
          (>>=-some _ (copied c0 (long_bytes f.long_entry) o (omega (arith, l, r)))
            (>>=-some _ (copied c1 (short_bytes f.short_entry) (o + 32) (omega (arith, l1, r))) q)),
      back,
      same,
    )

-- With the cache of files off and clusters of 4096 bytes, renaming a file with a long name, whose
-- two entries lie in one block, to a name of at most 12 characters, each of one byte and none of
-- which is zero, writes entries of that name over them: the block reads back with them, no sector
-- outside of it changes, the name in the long entry is the new one, and the short entry keeps the
-- size and the first cluster.
pub rename_lem :
    (k : Caches) (v : Volume) (d : Disk) (f : FatFile) (n : FileName) (dest : ℕ → ℕ)
    → k.habilitada ≡ false
    → bpc v ≡ 4096
    → get_first_sector_of_cluster v f.source + 8 < 2 ^ 32
    → length (block_of v d f.source) ≡ 4096
    → f.source_offset + 64 ≤ 4096
    → is_long f.long_entry.ldir_attr ≡ true
    → n.utf16_length < 13
    → ((j : ℕ) → j < n.utf16_length → n.utf16 j ≢ 0)
    → (f' : FatFile) × (d' : Disk) × (name : ℕ → ℕ) × (rename k v d f n ≡ some (f', d'))
      × (f'.source_offset ≡ f.source_offset)
      × (get_block k v d' f.source ≡ some (with_file f' (source_block v d f), d'))
      × ((m : ℕ)
          → (m < get_first_sector_of_cluster v f.source)
            ⊎ (get_first_sector_of_cluster v f.source + 8 ≤ m)
          → d'.sectors m ≡ d.sectors m)
      × (get_name_length f'.long_entry ≡ n.utf16_length + 1)
      × (extract_name 13 f'.long_entry dest (get_name_length f'.long_entry) ≡ some name)
      × ((j : ℕ) → j < n.utf16_length → name j ≡ n.utf16 j)
      × (name n.utf16_length ≡ 0)
      × (f'.short_entry.file_size ≡ f.short_entry.file_size)
      × (get_first_cluster f'.short_entry ≡ get_first_cluster f.short_entry)
unfolding rename renamed load_long_entry_filename load_entry_filename get_first_cluster
rename_lem k v d f n dest u w h l r g a used =
    let f' : FatFile = record f {
      short_entry = load_entry_filename n.toupper f.short_entry n.name n.name_length n.extension;
      long_entry = with_chars f.long_entry n.utf16 n.utf16_length;
    } in
    let b = source_block v d f in
    let (d', q, back, same) = rename_pair_lem k v d f' b u w h l r in
    let (name, e, got, named, ended) =
      extract_name-with_chars f.long_entry n.utf16 dest n.utf16_length a used in
    let fits : leb (n.utf16_length + 1) 13 ≡ true = ground (arith, a) in
    (
      f',
      d',
      name,
      >>=-some _ (block_lem k v d f.source u)
          (>>=-some {m = renamed f n} {a = f'} _ (rw (g, fits) refl) (rw g (>>=-some _ q refl))),
      refl,
      back,
      same,
      e,
      got,
      named,
      ended,
      refl,
      refl,
    )
