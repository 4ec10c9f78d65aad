-- ===== src/Pfs/Read/Whole.antt =====
-- A read from the first cluster of a file to the end of its chain at most.
use grage.Prelude.{
  ℕ, zero, suc, ◌+◌, ◌-◌, ◌*◌, ◌<◌, ◌≤◌, ◌≡◌, refl, ap, sym, ◌∙◌, false, Option, none, some, List,
  [], ◌∷◌, ◌++◌, append-nil, append_assoc, ◌==◌, ==_iff, inl, inr, Bool-cases, if◌then◌else◌,
  >>=-some, leb, leb→le, ltb, length, length-drop, take, drop, take-length, arith,
}
use grage.Splice.{take-take_append, take-append_le, take-append_ge, drop-append_le}
use grage.Pfs.Volume.{Volume, get_first_cluster, get_first_sector_of_cluster}
use grage.Pfs.Fat.Entry.{IsFat, IsTable, entry_at, entry_at-same}
use grage.Pfs.Fat.Chain.{IsChain, AreEntries, IsChain-same}
use grage.Pfs.Block.{Block, get_each}
use grage.Pfs.Seek.{FatFile, bpc, nth_cluster, nth_cluster_read, walk_chain}
use grage.Pfs.Mknod.{Disk, Caches}
use grage.Pfs.Read.{fat_store, read_loop, first_block, read}
use grage.Pfs.Read.Content.{
  IsData, AreData, contents, contents-same, length-get_each, data_seen, next_lem, block_lem,
}

-- A round takes the next part of what is left.
part :
    (left : ℕ) (xs ys : List ℕ)
    → length xs ≡ 4096
    → take (if leb left 4096 then left else 4096) xs
        ++ take (left - (if leb left 4096 then left else 4096)) ys
      ≡ take left (xs ++ ys)
part left xs ys l = elim (Bool-cases (leb left 4096)) [
  | inl e ↦
      let h = leb→le left 4096 e in
      let z : left - left ≡ 0 = omega arith in
      rw (e, z) (append-nil (take left xs) ∙ sym (take-append_le left xs ys (omega (arith, l, h))))
  | inr e ↦
      let h : 4096 ≤ left = ground (arith, e) in
      rw e (
        ap (λ x. x ++ take (left - 4096) ys) (take-length 4096 xs l)
        ∙ ap (λ k. xs ++ take (left - k) ys) (sym l)
        ∙ sym (take-append_ge left xs ys (omega (arith, l, h))))
]

part_bound :
    (left m : ℕ) → left ≤ 4096 * suc m → left - (if leb left 4096 then left else 4096) ≤ 4096 * m
part_bound left m h = elim (Bool-cases (leb left 4096)) [
  | inl e ↦ rw e (omega arith)
  | inr e ↦ rw e (omega arith)
]

-- The content of one cluster.
abbrev pub block_of : Volume → Disk → ℕ → List ℕ
block_of v d c = get_each 8 (get_first_sector_of_cluster v c) d.sectors

pub length-block_of :
    (v : Volume) (d : Disk) (c : ℕ)
    → IsTable v (fat_store d)
    → IsData v c
    → length (block_of v d c) ≡ 4096
length-block_of v d c t a =
    length-get_each 8 (get_first_sector_of_cluster v c) d.sectors a.1
      (λ m h. sym (ap length (data_seen v (fat_store d) m t (omega (arith, a.0)))) ∙ t.1 m)

-- The loop reads on from the cluster after the one it is given, to the end of its chain at most.
read_loop_lem :
    (fuel : ℕ) (k : Caches) (v : Volume) (d : Disk) (c : ℕ) (ds buf : List ℕ) (left : ℕ)
    → 0 < k.fat_max_count
    → k.habilitada ≡ false
    → bpc v ≡ 4096
    → IsFat v
    → IsTable v (fat_store d)
    → AreEntries v (c ∷ ds)
    → AreData v (c ∷ ds)
    → IsChain (entry_at v (fat_store d)) c ds
    → left ≤ 4096 * length ds
    → length ds < fuel
    → (end : Option ℕ) × (d' : Disk) × (read_loop fuel k v d c buf left
        ≡ some (buf ++ take left (contents v d.sectors ds), end, d'))
      × IsTable v (fat_store d')
unfolding read_loop
read_loop_lem zero k v d c ds buf left p u w f t e a h b g = absurd (omega arith)
read_loop_lem (suc fuel) k v d c [] buf left p u w f t e a h b g =
    let z : left ≡ 0 = omega arith in
    (some c, d, rw z (ap (λ x. some (x, some c, d)) (sym (append-nil buf))), t)
read_loop_lem (suc fuel) k v d c (x ∷ xs) buf left p u w f t e a (n, q, h) b g =
    elim (Bool-cases (left == 0)) [
      | inl y ↦ (
        some c,
        d,
        rw y (
            ap (λ r. some (r, some c, d))
              (sym (append-nil buf)
                ∙ ap (λ m. buf ++ take m (contents v d.sectors (x ∷ xs)))
                    (sym ((==_iff left 0).0 y)))),
        t,
      )
      | inr y ↦
          let (d1, q1, t1, same, keeps) = next_lem k v d c p f t e.0 in
          let r = if leb left 4096 then left else 4096 in
          let (end, d', q', t') =
            read_loop_lem fuel k v d1 x xs (buf ++ take r (block_of v d1 x)) (left - r) p u w f t1
              e.1 a.1
              (IsChain-same (entry_at v (fat_store d)) (entry_at v (fat_store d1)) x xs
                (λ m. entry_at-same v (fat_store d) (fat_store d1) m same) h)
              (part_bound left (length xs) b) (omega arith) in
          let i : contents v d1.sectors (x ∷ xs) ≡ contents v d.sectors (x ∷ xs) =
            contents-same v d.sectors d1.sectors (x ∷ xs) a.1 keeps in
          (
            end,
            d',
            rw (y, a.0.2, w)
                  (>>=-some _ (q1 ∙ ap (λ m. some (m, d1)) q)
                    (>>=-some _ (block_lem k v d1 x u) q'))
                ∙ ap (λ m. some (m, end, d'))
                    (append_assoc buf (take r (block_of v d1 x))
                        (take (left - r) (contents v d1.sectors xs))
                      ∙ ap (λ m. buf ++ m)
                          (part left (block_of v d1 x) (contents v d1.sectors xs)
                            (length-block_of v d1 x t1 a.1.0))
                      ∙ ap (λ m. buf ++ take left m) i),
            t',
          )
    ]

-- A file whose place is in its first cluster starts there.
first_block_lem :
    (k : Caches) (v : Volume) (d : Disk) (f : FatFile) (unset : Block)
    → k.habilitada ≡ false
    → f.file_absolute_cluster_number_read ≡ 0
    → f.file_cluster_number ≤ 1
    → first_block k v d f unset
      ≡ some (
        record {
          id = get_first_cluster f.short_entry;
          content = block_of v d (get_first_cluster f.short_entry);
        },
        record f { file_absolute_cluster_number_read = get_first_cluster f.short_entry },
        d,
      )
unfolding first_block nth_cluster_read nth_cluster walk_chain
first_block_lem k v d f unset u z n =
    let c = get_first_cluster f.short_entry in
    let s : f.file_cluster_number - 1 ≡ 0 = omega arith in
    let b : ltb 65535 f.file_cluster_number ≡ false = ground (arith, n) in
    rw (z, b, s) (>>=-some _ (block_lem k v d c u) refl)

-- With the cache of files off, a read from an offset in the first cluster of a file, to the end of
-- its chain at most, ends and gives the content of its clusters from that offset on.
pub read_lem :
    (fuel : ℕ) (k : Caches) (v : Volume) (d : Disk) (f : FatFile) (size : ℕ) (unset : Block)
    (ds : List ℕ)
    → 0 < k.fat_max_count
    → k.habilitada ≡ false
    → bpc v ≡ 4096
    → IsFat v
    → IsTable v (fat_store d)
    → f.file_absolute_cluster_number_read ≡ 0
    → f.file_cluster_number ≤ 1
    → f.file_cluster_offset ≤ 4096
    → AreEntries v (get_first_cluster f.short_entry ∷ ds)
    → AreData v (get_first_cluster f.short_entry ∷ ds)
    → IsChain (entry_at v (fat_store d)) (get_first_cluster f.short_entry) ds
    → f.file_cluster_offset + size ≤ 4096 * suc (length ds)
    → length ds < fuel
    → (f' : FatFile) × (d' : Disk) × (read fuel k v d f size unset
        ≡ some (
          take size (
              drop f.file_cluster_offset
                (contents v d.sectors (get_first_cluster f.short_entry ∷ ds))),
          f',
          d',
        ))
      × IsTable v (fat_store d')
unfolding read
read_lem fuel k v d f size unset ds p u w i t z n o e a h b g =
    let c = get_first_cluster f.short_entry in
    let first = block_of v d c in
    let l = length-block_of v d c t a.0 in
    let f1 = record f { file_absolute_cluster_number_read = c } in
    let q = first_block_lem k v d f unset u z n in
    let off = f.file_cluster_offset in
    elim (Bool-cases (leb (off + size) 4096)) [
      | inl y ↦ (
        f1,
        d,
        >>=-some _ q (
            rw (w, y)
              (ap (λ m. some (m, f1, d))
                (sym (
                  take-take_append off size first (contents v d.sectors ds)
                    (omega (arith, l, leb→le (off + size) 4096 y)))))),
        t,
      )
      | inr y ↦
          let far : 4096 < off + size = ground (arith, y) in
          let (end, d', q', t') =
            read_loop_lem fuel k v d c ds (take (4096 - off) (drop off first)) (size - (4096 - off))
              p u w i t e a h (omega (arith, b)) g in
          let m : length (drop off first) ≡ 4096 - off =
            length-drop off first ∙ ap (λ x. x - off) l in
          (
            elim end [ none ↦ f1 | some x ↦ record f1 { file_absolute_cluster_number_read = x } ],
            d',
            >>=-some _ q (
                rw (w, y)
                  (>>=-some _ q' (
                    ap
                      (λ x. some (
                        x,
                        elim end [
                          | none ↦ f1
                          | some x ↦ record f1 { file_absolute_cluster_number_read = x }
                        ],
                        d',
                      ))
                      (ap (λ x. x ++ take (size - (4096 - off)) (contents v d.sectors ds))
                          (take-length (4096 - off) (drop off first) m)
                        ∙ ap (λ x. drop off first ++ take (size - x) (contents v d.sectors ds))
                            (sym m)
                        ∙ sym (
                            take-append_ge size (drop off first) (contents v d.sectors ds)
                              (omega (arith, m, far)))
                        ∙ ap (take size) (
                            sym (
                              drop-append_le off first (contents v d.sectors ds)
                                (omega (arith, l)))))))),
            t',
          )
    ]
