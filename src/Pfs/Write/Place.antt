-- ===== src/Pfs/Write/Place.antt =====
-- Where pfs_fat32_write puts the bytes of a write that starts in the first cluster of a file.
use grage.Prelude.{
  ℕ, zero, suc, ◌+◌, ◌-◌, ◌^◌, ◌<◌, ◌≤◌, ◌≡◌, refl, ap, sym, ◌∙◌, true, false, not, Option, some,
  List, ◌==◌, ◌&&◌, ◌⊎◌, inl, inr, Bool-cases, if◌then◌else◌, >>=-some, leb, le→leb, leb→le, ltb,
  length, length-drop, length-take, take, drop, take-length, arith,
}
use grage.Splice.{spliced, length-spliced}
use grage.Ppd.Persistence.{copy_to}
use grage.Pfs.Volume.{Volume, get_first_cluster, get_first_sector_of_cluster}
use grage.Pfs.Fat.Entry.{IsTable, copied}
use grage.Pfs.Block.{Block}
use grage.Pfs.Block.Roundtrip.{call_get_block-call_put_block}
use grage.Pfs.Seek.{FatFile, bpc, nth_cluster, nth_cluster_write, walk_chain}
use grage.Pfs.Mknod.{Disk, Caches, file_store, with_file_store, get_block}
use grage.Pfs.Read.{fat_store}
use grage.Pfs.Read.Content.{IsData, block_lem}
use grage.Pfs.Read.Whole.{block_of, length-block_of}
use grage.Pfs.Write.{put_block, write_block, write_loop, write}

-- The content of a cluster after a write at an offset of it: of a write that goes on behind its end,
-- the rest lies at the start of the same cluster.
abbrev pub after_write : List ℕ → ℕ → List ℕ → List ℕ
after_write content offset buf =
    if leb (length buf + offset) 4096
    then spliced content offset buf
    else spliced (spliced content offset (take (4096 - offset) buf)) 0 (drop (4096 - offset) buf)

-- What writing a block does, with the cache of files off.
abbrev Writes : Caches → Volume → Disk → Block → Option Disk → Type 0
Writes k v d b r =
    (d' : Disk) × (r ≡ some d')
    × (get_block k v d' b.id ≡ some (b, d'))
    × ((m : ℕ)
        → (m < get_first_sector_of_cluster v b.id) ⊎ (get_first_sector_of_cluster v b.id + 8 ≤ m)
        → d'.sectors m ≡ d.sectors m)

put_block_lem :
    (k : Caches) (v : Volume) (d : Disk) (b : Block)
    → k.habilitada ≡ false
    → get_first_sector_of_cluster v b.id + 8 < 2 ^ 32
    → length b.content ≡ 4096
    → Writes k v d b (put_block k v d b)
unfolding put_block get_block
put_block_lem k v d b u h l =
    let off : (k.habilitada && not (b.id == v.root)) ≡ false =
      ap (λ c. c && not (b.id == v.root)) u in
    let (s', q, g, same) =
      call_get_block-call_put_block k.habilitada v k.file_max_count (file_store d) b off h l in
    (with_file_store d s', >>=-some _ q refl, >>=-some _ g refl, same)

-- The loop with at most a cluster left writes it to the start of the block that it is given.
write_loop_lem :
    (fuel : ℕ) (k : Caches) (v : Volume) (d : Disk) (current : ℕ) (b : Block) (rest : List ℕ)
    → k.habilitada ≡ false
    → bpc v ≡ 4096
    → get_first_sector_of_cluster v b.id + 8 < 2 ^ 32
    → length b.content ≡ 4096
    → 0 < length rest
    → length rest ≤ 4096
    → 1 < fuel
    → Writes k v d
        (record b { content = spliced b.content 0 rest })
        (write_loop fuel k v d current b rest (length rest))
unfolding write_loop
write_loop_lem zero k v d current b rest u w h l p r g = absurd (omega arith)
write_loop_lem (suc zero) k v d current b rest u w h l p r g = absurd (omega arith)
write_loop_lem (suc (suc fuel)) k v d current b rest u w h l p r g =
    let c = spliced b.content 0 rest in
    let (d', q, back, same) =
      put_block_lem k v d (record b { content = c }) u h
        (length-spliced b.content 0 rest (omega (arith, l)) ∙ l) in
    let e : (length rest == 0) ≡ false = ground (arith, p) in
    let f : leb (length rest) 4096 ≡ true = le→leb (length rest) 4096 r in
    let z : length rest - length rest ≡ 0 = omega arith in
    (
      d',
      rw (e, w, f)
          (>>=-some _
            (ap (copy_to b.content 0) (take-length (length rest) rest refl)
              ∙ copied b.content rest 0 (omega (arith, l)))
            (>>=-some _ q (rw z refl))),
      back,
      same,
    )

write_block_lem :
    (k : Caches) (v : Volume) (d : Disk) (f : FatFile) (unset : ℕ)
    → k.habilitada ≡ false
    → f.file_absolute_cluster_number_write ≡ 0
    → f.file_cluster_number ≤ 1
    → write_block k v d f unset
      ≡ some (
        record {
          id = get_first_cluster f.short_entry;
          content = block_of v d (get_first_cluster f.short_entry);
        },
        unset,
        record f { file_absolute_cluster_number_write = get_first_cluster f.short_entry },
        d,
      )
unfolding write_block nth_cluster_write nth_cluster walk_chain
write_block_lem k v d f unset u z n =
    let c = get_first_cluster f.short_entry in
    let s : f.file_cluster_number - 1 ≡ 0 = omega arith in
    let b : ltb 65535 f.file_cluster_number ≡ false = ground (arith, n) in
    rw (z, b, s) (>>=-some _ (block_lem k v d c u) refl)

-- With the cache of files off, the first write of a file, at an offset of its first cluster, writes
-- all of its bytes to that cluster, and none to any other, if they are no more than the rest of the
-- cluster and another one: what goes on behind the end of the cluster lies at its start.
pub write_lem :
    (fuel : ℕ) (k : Caches) (v : Volume) (d : Disk) (f : FatFile) (buf : List ℕ) (unset : ℕ)
    → k.habilitada ≡ false
    → bpc v ≡ 4096
    → IsTable v (fat_store d)
    → f.file_absolute_cluster_number_write ≡ 0
    → f.file_cluster_number ≤ 1
    → f.file_cluster_offset ≤ 4096
    → IsData v (get_first_cluster f.short_entry)
    → length buf + f.file_cluster_offset ≤ 8192
    → 1 < fuel
    → let c = get_first_cluster f.short_entry in
      (f' : FatFile) × (d' : Disk) × (write fuel k v d f buf (length buf) unset
        ≡ some (length buf, f', d'))
      × (get_block k v d' c
          ≡ some (
            record { id = c; content = after_write (block_of v d c) f.file_cluster_offset buf },
            d',
          ))
      × ((m : ℕ)
          → (m < get_first_sector_of_cluster v c) ⊎ (get_first_sector_of_cluster v c + 8 ≤ m)
          → d'.sectors m ≡ d.sectors m)
unfolding write
write_lem fuel k v d f buf unset u w t z n o a h g =
    let c = get_first_cluster f.short_entry in
    let b : Block = record { id = c; content = block_of v d c } in
    let l = length-block_of v d c t a in
    let f1 = record f { file_absolute_cluster_number_write = c } in
    let q = write_block_lem k v d f unset u z n in
    let off = f.file_cluster_offset in
    elim (Bool-cases (leb (length buf + off) 4096)) [
      | inl y ↦
          let fit : off + length buf ≤ length b.content =
            omega (arith, l, leb→le (length buf + off) 4096 y) in
          let (d', q', back, same) =
            put_block_lem k v d (record b { content = spliced b.content off buf }) u a.1
              (length-spliced b.content off buf fit ∙ l) in
          (
            f1,
            d',
            >>=-some _ q (
                rw (w, y)
                  (>>=-some _
                    (ap (copy_to b.content off) (take-length (length buf) buf refl)
                      ∙ copied b.content buf off fit)
                    (>>=-some _ q' refl))),
            rw y back,
            same,
          )
      | inr y ↦
          let far : 4096 < length buf + off = ground (arith, y) in
          let head = take (4096 - off) buf in
          let rest = drop (4096 - off) buf in
          let lh : length head ≡ 4096 - off = omega (arith, length-take (4096 - off) buf) in
          let lr : length rest ≡ length buf - (4096 - off) = length-drop (4096 - off) buf in
          let fit : off + length head ≤ length b.content = omega (arith, l, lh) in
          let b1 : Block = record b { content = spliced b.content off head } in
          let l1 : length b1.content ≡ 4096 = length-spliced b.content off head fit ∙ l in
          let (d2, q2, back2, same2) = put_block_lem k v d b1 u a.1 l1 in
          let (d3, q3, back3, same3) =
            write_loop_lem fuel k v d2 unset b1 rest u w a.1 l1 (omega (arith, lr))
              (omega (arith, lr)) g in
          (
            f1,
            d3,
            >>=-some _ q (
                rw (w, y)
                  (>>=-some _ (copied b.content head off fit) (
                    >>=-some _ q2 (
                      >>=-some _ (ap (write_loop fuel k v d2 unset b1 rest) (sym lr) ∙ q3) refl)))),
            rw y back3,
            (λ m r. same3 m r ∙ same2 m r),
          )
    ]
