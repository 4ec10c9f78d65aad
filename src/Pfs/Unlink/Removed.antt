-- ===== src/Pfs/Unlink/Removed.antt =====
-- What pfs_fat32_unlink_dirEntry leaves of the entries of a file.
use grage.Prelude.{
  ℕ, zero, suc, ◌+◌, ◌*◌, ◌^◌, ◌<◌, ◌≤◌, ◌≡◌, refl, ap, sym, ◌∙◌, ◌⊎◌, true, false, not, Option,
  none, some, List, [], ◌∷◌, ◌==◌, ◌&&◌, ◌||◌, if◌then◌else◌, ◌>>=◌, >>=-some, Bool-cases, inl, inr,
  ltb, lt→ltb, le→leb, length, get_or, take, drop, arith,
}
use grage.Splice.{spliced, spliced_self, spliced_before, length-spliced}
use grage.Ppd.Persistence.{copy_from}
use grage.Pfs.Volume.{Volume, get_first_sector_of_cluster}
use grage.Pfs.Block.{Block, call_put_block}
use grage.Pfs.Block.Roundtrip.{call_get_block-call_put_block}
use grage.Pfs.Fat.Entry.{copied}
use grage.Pfs.Seek.{FatFile, bpc}
use grage.Pfs.Mknod.{
  Disk, Caches, file_store, with_file_store, get_block, is_free_entry, put_without_file,
}
use grage.Pfs.Files.{is_long}
use grage.Pfs.Unlink.{phantom, following_ord, unlink_pair, unlink_dir_entry}

-- What writing a block with no file does, with the cache of files off.
abbrev pub Writes : Caches → Volume → Disk → Block → Option Disk → Type 0
Writes k v d b r =
    (d' : Disk) × (r ≡ some d')
    × (get_block k v d' b.id ≡ some (b, d'))
    × ((m : ℕ)
        → (m < get_first_sector_of_cluster v b.id) ⊎ (get_first_sector_of_cluster v b.id + 8 ≤ m)
        → d'.sectors m ≡ d.sectors m)

pub put_without_file_lem :
    (k : Caches) (v : Volume) (d : Disk) (b : Block)
    → k.habilitada ≡ false
    → get_first_sector_of_cluster v b.id + 8 < 2 ^ 32
    → length b.content ≡ 4096
    → Writes k v d b (put_without_file k v d b)
unfolding put_without_file get_block
put_without_file_lem k v d b u h l =
    let off : (k.habilitada && not (b.id == v.root)) ≡ false =
      ap (λ c. c && not (b.id == v.root)) u in
    let (s', q, g, same) =
      call_get_block-call_put_block k.habilitada v k.file_max_count (file_store d) b off h l in
    (
      with_file_store d s',
      ap
            (λ c.
              if c
              then none
              else (call_put_block k.habilitada v k.file_max_count (file_store d) b
                  >>= (λ s. some (with_file_store d s))))
            off
          ∙ >>=-some _ q refl,
      >>=-some _ g refl,
      same,
    )

module _ {ℓ} {A : Type ℓ} where
  get_or-take-drop :
      (o n : ℕ) (xs : List A) (a : A) → get_or (take (suc n) (drop o xs)) 0 a ≡ get_or xs o a
  get_or-take-drop zero n [] a = refl
  get_or-take-drop zero n (x ∷ xs) a = refl
  get_or-take-drop (suc o) n [] a = refl
  get_or-take-drop (suc o) n (x ∷ xs) a = get_or-take-drop o n xs a

-- The entry where a filling starts is free, and so is the one before, if that was.
phantom_free :
    (d : List ℕ) (o : ℕ) (tail : List ℕ) (following : ℕ)
    → o + suc (length tail) ≤ length d
    → is_free_entry (spliced d o (phantom tail following)) o ≡ true
phantom_free d o tail following h =
    ap (λ x. (x == 229) || (x == 0))
      (sym (get_or-take-drop o (length tail) (spliced d o (phantom tail following)) 1)
        ∙ ap (λ l. get_or l 0 1) (spliced_self d o (phantom tail following) h))
    ∙ (elim (Bool-cases (following == 0)) [ inl e ↦ rw e refl | inr e ↦ rw e refl ])

free_before :
    (d : List ℕ) (o p : ℕ) (b : List ℕ)
    → o + length b ≤ length d
    → p < o
    → is_free_entry (spliced d o b) p ≡ is_free_entry d p
free_before d o p b h l =
    ap (λ x. (x == 229) || (x == 0))
      (sym (get_or-take-drop p 0 (spliced d o b) 1)
        ∙ ap (λ x. get_or x 0 1) (spliced_before d o b h p 1 (omega arith))
        ∙ get_or-take-drop p 0 d 1)

-- The content of a block without its entries number `i` and `i + 1`.
abbrev pub without_pair : List ℕ → List ℕ → ℕ → List ℕ
without_pair tail content i =
    let filling = phantom tail (get_or (take 32 (drop (i * 32 + 64) content)) 0 0) in
    spliced (spliced content (i * 32) filling) (i * 32 + 32) filling

pub read_at :
    (content : List ℕ) (o : ℕ)
    → o + 32 ≤ length content
    → copy_from content o 32 ≡ some (take 32 (drop o content))
read_at content o h = rw (le→leb (o + 32) (length content) h) refl

unlink_pair_lem :
    (tail : List ℕ) (k : Caches) (v : Volume) (d : Disk) (b : Block) (i : ℕ)
    → k.habilitada ≡ false
    → bpc v ≡ 4096
    → get_first_sector_of_cluster v b.id + 8 < 2 ^ 32
    → length b.content ≡ 4096
    → length tail ≡ 31
    → i + 2 < 128
    → Writes k v d
        (record b { content = without_pair tail b.content i })
        (unlink_pair tail k v d b (i * 32))
unfolding unlink_pair following_ord
unlink_pair_lem tail k v d b i u w h l t r =
    let c0 = b.content in
    let x = get_or (take 32 (drop (i * 32 + 64) c0)) 0 0 in
    let filling = phantom tail x in
    let c1 = spliced c0 (i * 32) filling in
    let l1 : length c1 ≡ 4096 = length-spliced c0 (i * 32) filling (omega (arith, l, t)) ∙ l in
    let c2 = spliced c1 (i * 32 + 32) filling in
    let l2 : length c2 ≡ 4096 =
      length-spliced c1 (i * 32 + 32) filling (omega (arith, l1, t)) ∙ l1 in
    let (d', q, back, same) = put_without_file_lem k v d (record b { content = c2 }) u h l2 in
    let inside : ltb (i * 32 + 64) 4096 ≡ true = lt→ltb (i * 32 + 64) 4096 (omega arith) in
    (
      d',
      rw (w, inside)
          (>>=-some _
            (>>=-some _ (>>=-some _ (read_at c0 (i * 32 + 64) (omega (arith, l))) refl) refl)
            (>>=-some _ (copied c0 filling (i * 32) (omega (arith, l, t)))
              (>>=-some _ (copied c1 filling (i * 32 + 32) (omega (arith, l1, t))) q))),
      back,
      same,
    )

without_pair_free :
    (tail content : List ℕ) (i : ℕ)
    → length content ≡ 4096
    → length tail ≡ 31
    → i + 2 < 128
    → (is_free_entry (without_pair tail content i) (i * 32) ≡ true)
      × (is_free_entry (without_pair tail content i) (i * 32 + 32) ≡ true)
without_pair_free tail c0 i l t r =
    let x = get_or (take 32 (drop (i * 32 + 64) c0)) 0 0 in
    let filling = phantom tail x in
    let c1 = spliced c0 (i * 32) filling in
    let l1 : length c1 ≡ 4096 = length-spliced c0 (i * 32) filling (omega (arith, l, t)) ∙ l in
    (
      free_before c1 (i * 32 + 32) (i * 32) filling (omega (arith, l1, t)) (omega arith)
          ∙ phantom_free c0 (i * 32) tail x (omega (arith, l, t)),
      phantom_free c1 (i * 32 + 32) tail x (omega (arith, l1, t)),
    )

-- With the cache of files off, removing the entries of a file with a long name, which do not lie at
-- the end of their block, fills both: the block reads back so, both entries are then free, and no
-- sector outside of the block changes.
pub unlink_dir_entry_lem :
    (tail : List ℕ) (k : Caches) (v : Volume) (d : Disk) (f : FatFile) (b : Block) (i : ℕ)
    → k.habilitada ≡ false
    → bpc v ≡ 4096
    → get_first_sector_of_cluster v b.id + 8 < 2 ^ 32
    → length b.content ≡ 4096
    → length tail ≡ 31
    → i + 2 < 128
    → f.source_offset ≡ i * 32
    → is_long (get_or (take 32 (drop (i * 32) b.content)) 11 0) ≡ true
    → let content = without_pair tail b.content i in
      Writes k v d (record b { content = content }) (unlink_dir_entry tail k v d f b)
      × (is_free_entry content (i * 32) ≡ true)
      × (is_free_entry content (i * 32 + 32) ≡ true)
unfolding unlink_dir_entry
unlink_dir_entry_lem tail k v d f b i u w h l t r s g =
    let (d', q, back, same) = unlink_pair_lem tail k v d b i u w h l t r in
    let inside : ltb (i * 32 + 32) (bpc v) ≡ true =
      lt→ltb (i * 32 + 32) (bpc v) (omega (arith, w)) in
    let read = read_at b.content (i * 32) (omega (arith, l, r)) in
    (
      (d', rw s (>>=-some _ read (rw (g, inside) q)), back, same),
      (without_pair_free tail b.content i l t r).0,
      (without_pair_free tail b.content i l t r).1,
    )
