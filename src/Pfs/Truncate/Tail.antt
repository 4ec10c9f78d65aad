-- ===== src/Pfs/Truncate/Tail.antt =====
-- What pfs_fat32_truncate does to the clusters of a file.
use grage.Prelude.{
  ℕ, zero, suc, ◌+◌, ◌*◌, ◌%◌, ◌^◌, ◌<◌, ◌≤◌, ◌≡◌, ◌≢◌, refl, ap, ◌∙◌, true, false, Option, some,
  List, ne→==, ◌>>=◌, >>=-some, ltb, length, length-replicate, replicate, arith,
}
use grage.Splice.{spliced, length-spliced}
use grage.Ppd.Persistence.{copy_to}
use grage.Pfs.Write.{put_block}
use grage.Pfs.Volume.{
  Volume, get_fat_entry_sector, get_fat_entry_offset, get_first_sector_of_cluster,
}
use grage.Pfs.Block.{Block}
use grage.Pfs.Fat.{is_eoc, mark_end_of_chain}
use grage.Pfs.Fat.Entry.{
  IsFat, IsEntry, IsTable, entry_at, entry_at-same, copied, get_next_cluster_in_chain_lem,
  get_put_lem,
}
use grage.Pfs.Fat.Chain.{mark_end_of_chain_lem}
use grage.Pfs.Dates.{Tm}
use grage.Pfs.Seek.{FatFile, bpc}
use grage.Pfs.Mknod.{Disk, Caches, get_block, get_next}
use grage.Pfs.Read.{fat_store}
use grage.Pfs.Read.Content.{IsData, block_lem}
use grage.Pfs.Read.Whole.{block_of, length-block_of}
use grage.Pfs.Files.{Mount, with_fat_store}
use grage.Pfs.Files.Apart.{put_block-apart}
use grage.Pfs.Truncate.{
  count_free, clear_rest, release_entry, free_tail, cut_chain, resize_entry, walk_to, shrink, dated,
  truncate,
}

-- The new volume and disk, where the table is coherent and has every entry but that of `c` as it was.
abbrev FreesOne : Volume → Disk → ℕ → Volume → Option (Volume × Disk) → Type 0
FreesOne v d c v' r =
    (d' : Disk) × (r ≡ some (v', d'))
    × IsTable v (fat_store d')
    × (entry_at v (fat_store d') c ≡ 0)
    × ((x : ℕ) → IsEntry v x → x ≢ c → entry_at v (fat_store d') x ≡ entry_at v (fat_store d) x)

module _ (k : Caches) (positive : 0 < k.fat_max_count) (off : k.habilitada ≡ false) where
  -- Zeros over a whole cluster.
  clear_all :
      (v : Volume) (d : Disk) (c : ℕ)
      → bpc v ≡ 4096
      → IsFat v
      → IsTable v (fat_store d)
      → IsData v c
      → (d' : Disk) × (clear_rest k v d c 0 ≡ some d')
        × IsTable v (fat_store d')
        × ((x : ℕ) → IsEntry v x → entry_at v (fat_store d') x ≡ entry_at v (fat_store d) x)
  unfolding clear_rest
  clear_all v d c w f t a =
      let zeros = replicate 4096 0 in
      let content = block_of v d c in
      let l = length-block_of v d c t a in
      let z : length zeros ≡ 4096 = length-replicate {A = ℕ} 4096 0 in
      let fit : 0 + length zeros ≤ length content = omega (arith, l, z) in
      let (d', q, t', same) =
        put_block-apart k v d (record { id = c; content = spliced content 0 zeros }) off f t a
          (length-spliced content 0 zeros fit ∙ l) in
      (
        d',
        >>=-some _ (block_lem k v d c off) (rw w (>>=-some _ (copied content zeros 0 fit) q)),
        t',
        same,
      )

  release_entry_lem :
      (v : Volume) (d : Disk) (c : ℕ)
      → IsFat v
      → IsTable v (fat_store d)
      → IsEntry v c
      → (d' : Disk) × (release_entry k.fat_max_count v d c ≡ some (entry_at v (fat_store d) c, d'))
        × IsTable v (fat_store d')
        × (entry_at v (fat_store d') c ≡ 0)
        × ((x : ℕ) → IsEntry v x → x ≢ c → entry_at v (fat_store d') x ≡ entry_at v (fat_store d) x)
  unfolding release_entry
  release_entry_lem v d c f t e =
      let (s1, s2, q1, q2, q3, t2, self, other) =
        get_put_lem k.fat_max_count positive v f (fat_store d) c 0 t e (omega arith) in
      (with_fat_store d s2, >>=-some _ q1 (>>=-some _ q2 (>>=-some _ q3 refl)), t2, self, other)

  free_tail-end :
      (fuel : ℕ) (v : Volume) (d : Disk) (c : ℕ)
      → is_eoc c ≡ true
      → free_tail (suc fuel) k v d c ≡ some (v, d)
  unfolding free_tail
  free_tail-end fuel v d c e = rw e refl

  free_tail-step :
      (fuel : ℕ) (v : Volume) (d d1 d2 d3 : Disk) (c entry : ℕ) (b : Block) (content : List ℕ)
      → is_eoc c ≡ false
      → get_block k v d c ≡ some (b, d1)
      → copy_to b.content 0 (replicate (bpc v) 0) ≡ some content
      → put_block k v d1 (record b { content = content }) ≡ some d2
      → release_entry k.fat_max_count v d2 c ≡ some (entry, d3)
      → free_tail (suc fuel) k v d c ≡ free_tail fuel k (count_free v) d3 entry
  unfolding free_tail
  free_tail-step fuel v d d1 d2 d3 c entry b content e q1 q2 q3 q4 =
      rw e (>>=-some _ q1 (>>=-some _ q2 (>>=-some _ q3 (>>=-some _ q4 refl))))

  -- The loop stops after a cluster that ends its chain.
  free_tail-one :
      (fuel : ℕ) (v : Volume) (d : Disk) (c : ℕ)
      → 1 < fuel
      → bpc v ≡ 4096
      → IsFat v
      → IsTable v (fat_store d)
      → IsEntry v c
      → IsData v c
      → is_eoc (entry_at v (fat_store d) c) ≡ true
      → FreesOne v d c (count_free v) (free_tail fuel k v d c)
  free_tail-one zero v d c g w f t e a end = absurd (omega arith)
  free_tail-one (suc zero) v d c g w f t e a end = absurd (omega arith)
  free_tail-one (suc (suc fuel)) v d c g w f t e a end =
      let zeros = replicate 4096 0 in
      let content = block_of v d c in
      let l = length-block_of v d c t a in
      let z : length zeros ≡ 4096 = length-replicate {A = ℕ} 4096 0 in
      let fit : 0 + length zeros ≤ length content = omega (arith, l, z) in
      let (d1, q1, t1, same) =
        put_block-apart k v d (record { id = c; content = spliced content 0 zeros }) off f t a
          (length-spliced content 0 zeros fit ∙ l) in
      let (d2, q2, t2, self, other) = release_entry_lem v d1 c f t1 e in
      let stop : is_eoc (entry_at v (fat_store d1) c) ≡ true = ap is_eoc (same c e) ∙ end in
      (
        d2,
        free_tail-step (suc fuel) v d d d1 d2 c (entry_at v (fat_store d1) c)
              (record { id = c; content = content }) (spliced content 0 zeros) a.2
              (block_lem k v d c off)
              (ap (λ x. copy_to content 0 (replicate x 0)) w ∙ copied content zeros 0 fit) q1 q2
            ∙ free_tail-end fuel (count_free v) d2 (entry_at v (fat_store d1) c) stop,
        t2,
        self,
        (λ x ex n. other x ex n ∙ same x ex),
      )

  -- From the mark on: a cluster whose next one is the one behind it.
  mark_and_free :
      (fuel : ℕ) (v : Volume) (d : Disk) (c : ℕ)
      → 1 < fuel
      → bpc v ≡ 4096
      → IsFat v
      → IsTable v (fat_store d)
      → IsEntry v c
      → IsEntry v (c + 1)
      → c % 128 < 127
      → IsData v (c + 1)
      → entry_at v (fat_store d) c ≡ c + 1
      → FreesOne v d (c + 1) (count_free v) (
          get_next k v d c >>= (λ p.
            mark_end_of_chain k.fat_max_count v (fat_store p.1) c
            >>= (λ s. free_tail fuel k v (with_fat_store p.1 s) p.0)))
  unfolding get_next
  mark_and_free fuel v d c g w f t e e1 b a n =
      let (s1, q1, t1, same1) =
        get_next_cluster_in_chain_lem k.fat_max_count positive v f (fat_store d) c t e in
      let (s2, q2, t2, self2, other2) =
        mark_end_of_chain_lem k.fat_max_count positive v s1 c f t1 e b in
      let (d3, q3, t3, self3, other3) =
        free_tail-one fuel v (with_fat_store d s2) (c + 1) g w f t2 e1 a (ap is_eoc self2) in
      (
        d3,
        >>=-some _ (>>=-some _ q1 refl)
            (>>=-some _ q2 (ap (λ x. free_tail fuel k v (with_fat_store d s2) x) n ∙ q3)),
        t3,
        self3,
        (λ x ex ne. other3 x ex ne ∙ other2 x ex ne ∙ entry_at-same v (fat_store d) s1 x same1),
      )

  -- The cluster where the file ends and the one behind it count as free.
  cut_chain-contiguous :
      (fuel : ℕ) (v : Volume) (d : Disk) (c : ℕ)
      → 1 < fuel
      → bpc v ≡ 4096
      → IsFat v
      → IsTable v (fat_store d)
      → IsEntry v c
      → IsEntry v (c + 1)
      → c % 128 < 127
      → IsData v c
      → IsData v (c + 1)
      → entry_at v (fat_store d) c ≡ c + 1
      → FreesOne v d (c + 1) (count_free (count_free v)) (cut_chain fuel k v d c 0)
  unfolding cut_chain get_fat_entry_sector get_fat_entry_offset get_first_sector_of_cluster
  cut_chain-contiguous fuel v d c g w f t e e1 b a a1 n =
      let (d1, q1, t1, same1) = clear_all v d c w f t a in
      let (d2, q2, t2, self, other) =
        mark_and_free fuel (count_free v) d1 c g w f t1 e e1 b a1 (same1 c e ∙ n) in
      (d2, >>=-some _ q1 q2, t2, self, (λ x ex ne. other x ex ne ∙ same1 x ex))

walk_to-zero :
    (fuel : ℕ) (k : Caches) (v : Volume) (d : Disk) (c : ℕ)
    → walk_to (suc fuel) k v d 0 0 c ≡ some (c, d)
unfolding walk_to
walk_to-zero fuel k v d c = let e : ltb ((0 * bpc v) % 2 ^ 32) 0 ≡ false = ground arith in rw e refl

shrink-zero :
    (fuel : ℕ) (k : Caches) (m : Mount) (f : FatFile) (d1 d2 : Disk) (v : Volume)
    → resize_entry k m.volume m.disk f 0 ≡ some d1
    → cut_chain (suc fuel) k m.volume d1 f.next_cluster 0 ≡ some (v, d2)
    → shrink (suc fuel) k m f 0 ≡ some (record m { volume = v; disk = d2 })
unfolding shrink
shrink-zero fuel k m f d1 d2 v q r =
    let z : 0 % bpc m.volume ≡ 0 = omega arith in
    >>=-some _ q (
      >>=-some _ (walk_to-zero fuel k m.volume d1 f.next_cluster)
        (>>=-some _ (ap (cut_chain (suc fuel) k m.volume d1 f.next_cluster) z ∙ r) refl))

-- With the cache of files off and clusters of 4096 bytes, and once the entry of the file has its new
-- size, a file that is cut to nothing, is not the root directory, and whose second cluster lies behind its first one in the same sector of the table, loses that
-- second cluster alone, however long its chain is: its entry is zero, those of the first cluster and of
-- the others stay as they were, and two clusters are counted as free.
pub truncate-contiguous :
    (fuel unset : ℕ) (k : Caches) (m : Mount) (f : FatFile) (t : Tm) (d1 : Disk)
    → 0 < k.fat_max_count
    → k.habilitada ≡ false
    → 1 < fuel
    → bpc m.volume ≡ 4096
    → IsFat m.volume
    → f.next_cluster ≢ m.volume.root
    → resize_entry k m.volume m.disk (dated f t) 0 ≡ some d1
    → IsTable m.volume (fat_store d1)
    → IsEntry m.volume f.next_cluster
    → IsEntry m.volume (f.next_cluster + 1)
    → f.next_cluster % 128 < 127
    → IsData m.volume f.next_cluster
    → IsData m.volume (f.next_cluster + 1)
    → entry_at m.volume (fat_store d1) f.next_cluster ≡ f.next_cluster + 1
    → (d' : Disk) × (truncate fuel unset k m f 0 t
        ≡ some (0, dated f t, record m { volume = count_free (count_free m.volume); disk = d' }))
      × (entry_at m.volume (fat_store d') (f.next_cluster + 1) ≡ 0)
      × ((x : ℕ)
          → IsEntry m.volume x
          → x ≢ f.next_cluster + 1
          → entry_at m.volume (fat_store d') x ≡ entry_at m.volume (fat_store d1) x)
unfolding truncate
truncate-contiguous zero unset k m f t d1 p u g w i r q tb e e1 b a a1 n = absurd (omega arith)
truncate-contiguous (suc fuel) unset k m f t d1 p u g w i r q tb e e1 b a a1 n =
    let v = m.volume in
    let (d', q', t', self, other) =
      cut_chain-contiguous k p u (suc fuel) v d1 f.next_cluster g w i tb e e1 b a a1 n in
    let small : ltb f.short_entry.file_size 0 ≡ false = ground arith in
    (
      d',
      rw (ne→== f.next_cluster v.root r, small)
          (>>=-some _ (shrink-zero fuel k m (dated f t) d1 d' (count_free (count_free v)) q q')
            refl),
      self,
      other,
    )
