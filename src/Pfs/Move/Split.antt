-- ===== src/Pfs/Move/Split.antt =====
-- Moving a file writes its two entries to two blocks if they do not fit in the first sector.
use grage.Prelude.{ℕ}
use grage.Commons.LinkedList.{LinkedList}
use grage.Splice.{spliced}
use grage.Pfs.Volume.{Volume}
use grage.Pfs.Block.{Block}
use grage.Pfs.LongName.{with_chars}
use grage.Pfs.ShortName.{load_entry_filename}
use grage.Pfs.Seek.{FatFile}
use grage.Pfs.Mknod.{Disk, FileName, short_bytes}
use grage.Pfs.Read.Whole.{block_of}

-- The file with a name that its long entry has room for.
abbrev pub file_with : FatFile → FileName → FatFile
file_with f n = record f {
  short_entry = load_entry_filename n.toupper f.short_entry n.name n.name_length n.extension;
  long_entry = with_chars f.long_entry n.utf16 n.utf16_length;
}

-- The block behind the old directory, with the short entry at its start.
abbrev pub split_block : Volume → Disk → FatFile → ℕ → Block
split_block v d f c = record {
  id = c;
  content = spliced (block_of v d c) 0 (short_bytes f.short_entry);
}
