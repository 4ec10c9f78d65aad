-- ===== src/Pfs/Tests/Directory.antt =====
-- A directory in cluster 5 whose first entry is in use.
use grage.Prelude.{
  ℕ, zero, suc, ◌+◌, ◌*◌, ◌^◌, ◌<◌, ◌≤◌, false, none, some, [], ◌∷◌, ◌≡◌, refl, replicate,
  if◌then◌else◌, ◌==◌, ◌&&◌, ◌⊎◌, length, arith,
}
use grage.Pfs.Volume.{DirEntry, get_first_sector_of_cluster, get_first_cluster}
use grage.Pfs.Block.{Block, get_each, blocks_call_get_block, call_get_block}
use grage.Pfs.Mknod.{
  Disk, Caches, FileName, file_store, is_free_entry, new_long_entry, new_short_entry, mknod,
}
use grage.Pfs.Mknod.Slots.{IsFirstPair, with_entries, mknod_lem}
use grage.Pfs.LongName.{LongDirEntry, with_chars, load_long_entry_filename}
use grage.Pfs.Tests.{volume, entry}
use grage.Pfs.Tests.Names.{long_entry, letters, toupper, noon}

abbrev disk : Disk
disk = record {
  sectors = λ n. if n == 1080 then 65 ∷ replicate 511 0 else replicate 512 0;
  fat_cache = record { elements = []; size = 0 };
  file_cache = record { elements = []; size = 0 };
}

abbrev caches : Caches
caches = record { fat_max_count = 102; file_max_count = 204; habilitada = false }

abbrev pub file_name : FileName
file_name = record {
  toupper = toupper;
  name = letters;
  name_length = 3;
  extension = none;
  utf16 = letters;
  utf16_length = 3;
}

abbrev directory : DirEntry
directory = record entry { fst_clus_lo = 5; attr = 16 }

abbrev old_block : Block
old_block = blocks_call_get_block volume disk.sectors 5

first_sector_of_directory : get_first_sector_of_cluster volume 5 ≡ 1080
unfolding get_first_sector_of_cluster
first_sector_of_directory = refl

reads_block :
    call_get_block false volume 204
      (file_store disk)
      (if false then 2 else get_first_cluster directory)
    ≡ some (old_block, file_store disk)
unfolding call_get_block get_first_cluster
reads_block = refl

length-old_block : length old_block.content ≡ 4096
unfolding blocks_call_get_block get_each get_first_sector_of_cluster
length-old_block = refl

in_use :
    (m : ℕ)
    → 0 ≤ m
    → m < 1
    → (is_free_entry old_block.content (m * 32) && is_free_entry old_block.content (m * 32 + 32))
      ≡ false
unfolding blocks_call_get_block get_each get_first_sector_of_cluster
in_use zero a b = refl
in_use (suc m) a b = absurd (omega arith)

old_block-IsFirstPair : IsFirstPair old_block.content 0 1
unfolding blocks_call_get_block get_each get_first_sector_of_cluster
old_block-IsFirstPair = (omega arith, refl, refl, in_use)

room : get_first_sector_of_cluster volume old_block.id + 8 < 2 ^ 32
unfolding blocks_call_get_block get_first_sector_of_cluster
room = omega arith

-- The long entry of the new file.
abbrev filled : LongDirEntry
filled = record (with_chars (record long_entry { ldir_ord = 65 }) letters 3) { ldir_attr = 15 }

fills : new_long_entry long_entry file_name ≡ some filled
unfolding new_long_entry load_long_entry_filename
fills = refl

mknod_lem_example :
    (d' : Disk) × (mknod 2 caches volume disk false 2 directory file_name noon long_entry entry
      ≡ some d')
    × (call_get_block false volume 204 (file_store d') old_block.id
        ≡ some
            (with_entries old_block 1 filled (new_short_entry entry file_name noon), file_store d'))
    × ((m : ℕ)
        → (m < get_first_sector_of_cluster volume old_block.id)
          ⊎ (get_first_sector_of_cluster volume old_block.id + 8 ≤ m)
        → d'.sectors m ≡ disk.sectors m)
mknod_lem_example =
    mknod_lem 2 caches volume disk false 2 directory file_name noon long_entry entry old_block 1
      filled refl refl reads_block length-old_block room (omega arith) old_block-IsFirstPair fills
