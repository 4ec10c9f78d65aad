-- ===== src/Pfs/Directory/Empty.antt =====
-- When pfs_fat32_isDirectoryEmpty takes a directory for empty.
use grage.Prelude.{
  ℕ, zero, suc, ◌+◌, ◌*◌, ◌<◌, ◌≤◌, ◌≡◌, ◌≢◌, refl, ap, sym, ◌∙◌, true, false, some, List, ◌==◌,
  >>=-some, ne→==, ==_iff, leb, le→leb, length, get_or, take, drop, arith,
}
use grage.Ppd.Persistence.{copy_from}
use grage.Pfs.Volume.{Volume}
use grage.Pfs.Block.{Block}
use grage.Pfs.Seek.{FatFile, bpc}
use grage.Pfs.Mknod.{Disk, Caches, get_block}
use grage.Pfs.Files.{is_long}
use grage.Pfs.Directory.{empty_from, is_directory_empty}

-- The bytes of entry number `i` of a block.
abbrev pub entry_bytes : List ℕ → ℕ → List ℕ
entry_bytes content i = take 32 (drop (i * 32) content)

-- Every entry from number `j` to `i` was removed and is a short one.
abbrev pub AreRemoved : List ℕ → ℕ → ℕ → Type 0
AreRemoved content j i =
    (m : ℕ)
    → j ≤ m
    → m < i
    → (get_or (entry_bytes content m) 0 0 ≡ 229)
      × (is_long (get_or (entry_bytes content m) 11 0) ≡ false)

entry_read :
    (content : List ℕ) (i : ℕ)
    → length content ≡ 4096
    → i < 128
    → copy_from content (i * 32) 32 ≡ some (entry_bytes content i)
entry_read content i l h = rw (le→leb (i * 32 + 32) (length content) (omega (arith, l))) refl

empty_from_lem :
    (gap j fuel : ℕ) (k : Caches) (v : Volume) (d : Disk) (b : Block)
    → bpc v ≡ 4096
    → length b.content ≡ 4096
    → gap + j < 128
    → gap < fuel
    → AreRemoved b.content j (gap + j)
    → get_or (entry_bytes b.content (gap + j)) 0 0 ≢ 229
    → empty_from fuel k v d b (j * 32) ≡ some (get_or (entry_bytes b.content (gap + j)) 0 0 == 0, d)
unfolding empty_from
empty_from_lem gap j zero k v d b w l h g r u = absurd (omega arith)
empty_from_lem zero j (suc fuel) k v d b w l h g r u =
    let z : 0 + j ≡ j = omega arith in
    let e : (get_or (entry_bytes b.content j) 0 0 == 229) ≡ false =
      ap (λ x. get_or (entry_bytes b.content x) 0 0 == 229) (sym z)
      ∙ ne→== (get_or (entry_bytes b.content (0 + j)) 0 0) 229 u in
    >>=-some _ (entry_read b.content j l (omega arith))
      (rw e (ap (λ x. some (get_or (entry_bytes b.content x) 0 0 == 0, d)) (sym z)))
empty_from_lem (suc gap) j (suc fuel) k v d b w l h g r u =
    let here = r j (omega arith) (omega arith) in
    let e : (get_or (entry_bytes b.content j) 0 0 == 229) ≡ true = (==_iff _ 229).1 here.0 in
    let inside : leb (bpc v) (j * 32 + 32) ≡ false = ground (arith, w, h) in
    let o : j * 32 + 32 ≡ suc j * 32 = omega arith in
    let s : gap + suc j ≡ suc gap + j = omega arith in
    >>=-some _ (entry_read b.content j l (omega arith)) (
      rw (e, here.1, inside)
        (ap (empty_from fuel k v d b) o
          ∙ empty_from_lem gap (suc j) fuel k v d b w l (omega arith) (omega arith)
              (λ m a c. r m (omega arith) (omega (arith, c)))
              (λ q. u (ap (λ x. get_or (entry_bytes b.content x) 0 0) (sym s) ∙ q))
          ∙ ap (λ x. some (get_or (entry_bytes b.content x) 0 0 == 0, d)) s))

-- A directory is taken for empty exactly if the first entry behind its first two that was not
-- removed ends it, where that entry is in the first block and those before it are short ones.
pub is_directory_empty_lem :
    (fuel : ℕ) (k : Caches) (v : Volume) (d d1 : Disk) (f : FatFile) (b : Block) (i : ℕ)
    → bpc v ≡ 4096
    → get_block k v d f.next_cluster ≡ some (b, d1)
    → length b.content ≡ 4096
    → 2 ≤ i
    → i < 128
    → i < fuel
    → AreRemoved b.content 2 i
    → get_or (entry_bytes b.content i) 0 0 ≢ 229
    → is_directory_empty fuel k v d f ≡ some (get_or (entry_bytes b.content i) 0 0 == 0, d1)
unfolding is_directory_empty
is_directory_empty_lem fuel k v d d1 f b zero w q l a h g r u = absurd (omega arith)
is_directory_empty_lem fuel k v d d1 f b (suc zero) w q l a h g r u = absurd (omega arith)
is_directory_empty_lem fuel k v d d1 f b (suc (suc i)) w q l a h g r u =
    let s : i + 2 ≡ suc (suc i) = omega arith in
    >>=-some _ q (
      empty_from_lem i 2 fuel k v d1 b w l (omega arith) (omega arith)
        (λ m x y. r m x (omega (arith, y)))
        (λ e. u (ap (λ x. get_or (entry_bytes b.content x) 0 0) (sym s) ∙ e))
      ∙ ap (λ x. some (get_or (entry_bytes b.content x) 0 0 == 0, d1)) s)
