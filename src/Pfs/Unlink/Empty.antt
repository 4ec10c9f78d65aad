-- ===== src/Pfs/Unlink/Empty.antt =====
-- What pfs_fat32_unlink does for a file that has no cluster, as pfs_fat32_mknod makes it.
use grage.Prelude.{ℕ, ◌<◌, ◌≡◌, ◌≢◌, refl, ap, sym, ◌∙◌, true, some, List, [], >>=-some, arith}
use grage.Pfs.Block.{Block}
use grage.Pfs.Fat.{is_eoc, unlink_chain}
use grage.Pfs.Fat.Entry.{IsFat, IsEntry, IsTable, entry_at}
use grage.Pfs.Fat.Unlink.{freed, unlink_chain_lem}
use grage.Pfs.Seek.{FatFile}
use grage.Pfs.Mknod.{Disk, Caches, get_block}
use grage.Pfs.Read.{fat_store}
use grage.Pfs.Files.{Mount, with_fat_store}
use grage.Pfs.Unlink.{unlink_dir_entry, unlink}

-- If the first entry of the table still marks the end of a chain, as it does until a first such
-- removal, then, once the entries of a file that has no cluster are removed, that entry is set to zero
-- and counted as one more free cluster; no other entry changes.
pub unlink-empty :
    (fuel : ℕ) (tail : List ℕ) (k : Caches) (m : Mount) (f : FatFile) (b : Block) (d1 d2 : Disk)
    → 0 < k.fat_max_count
    → 0 < fuel
    → IsFat m.volume
    → 0 < m.volume.fat_size
    → f.next_cluster ≡ 0
    → get_block k m.volume m.disk f.source ≡ some (b, d1)
    → unlink_dir_entry tail k m.volume d1 f b ≡ some d2
    → IsTable m.volume (fat_store d2)
    → is_eoc (entry_at m.volume (fat_store d2) 0) ≡ true
    → (m' : Mount) × (unlink fuel tail k m f ≡ some m')
      × (m'.volume ≡ freed m.volume 1)
      × (entry_at m.volume (fat_store m'.disk) 0 ≡ 0)
      × ((x : ℕ)
          → IsEntry m.volume x
          → x ≢ 0
          → entry_at m.volume (fat_store m'.disk) x ≡ entry_at m.volume (fat_store d2) x)
unfolding unlink
unlink-empty fuel tail k m f b d1 d2 p g i n z q r t e =
    let v = m.volume in
    let (s, chain, t', free, other) =
      unlink_chain_lem k.fat_max_count p v (fat_store d2) 0 [] fuel i t (omega arith, tt) (tt, tt) e
        (omega arith) in
    (
      record m { volume = freed v 1; disk = with_fat_store d2 s },
      >>=-some _ q (
          >>=-some _ r
            (>>=-some _ (ap (unlink_chain k.fat_max_count fuel v (fat_store d2)) z ∙ chain) refl)),
      refl,
      free.0,
      (λ x ex ne. other x ex (λ y. ne (sym y), tt)),
    )
