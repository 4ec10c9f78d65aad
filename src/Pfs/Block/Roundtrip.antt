-- ===== src/Pfs/Block/Roundtrip.antt =====
-- A block that is written is read back.
use grage.Prelude.{
  ℕ, zero, suc, ◌+◌, ◌*◌, ◌%◌, ◌^◌, ◌<◌, ◌≤◌, Bool, true, false, not, some, List, ◌++◌, ◌≡◌, ◌≢◌,
  refl, ap, sym, ◌∙◌, ◌⊎◌, inl, ◌==◌, ==_iff, ◌&&◌, if◌then◌else◌, >>=-some, ltb, lt→ltb, arith,
  length, take, drop, take-append-drop, drop-length,
}
use grage.Splice.{drop-drop}
use grage.Pfs.Volume.{Volume, get_first_sector_of_cluster}
use grage.Pfs.Cache.{Store, call_put_sector}
use grage.Pfs.Cache.Coherent.{view, IsCoherent, ShowsSame}
use grage.Pfs.Block.{
  Block, rounds, put_sectors_each, get_each, blocks_call_get_block, call_put_block, call_get_block,
}
use grage.Pfs.Block.FileCache.{views, get_cached_each_lem}

pub rounds_lem : (n : ℕ) → n + 8 < 2 ^ 32 → rounds n ≡ 8
unfolding rounds
rounds_lem n h =
    let e : ltb n ((n + 8) % 2 ^ 32) ≡ true = lt→ltb n ((n + 8) % 2 ^ 32) (omega arith) in rw e refl

-- The sectors before and behind those that are written.
pub put_each_outside :
    (k n o : ℕ) (c : List ℕ) (device : ℕ → List ℕ) (m : ℕ)
    → (m < n) ⊎ (n + k ≤ m)
    → put_sectors_each k n o c device m ≡ device m
unfolding put_sectors_each
put_each_outside zero n o c device m h = refl
put_each_outside (suc k) n o c device m h =
    put_each_outside k (n + 1) (o + 512) c
      (call_put_sector device (record { sector_number = n; sector_content = take 512 (drop o c) }))
      m (ground (arith, h))
    ∙ (let e : (m == n) ≡ false = ground (arith, h) in rw e refl)

-- Reading the sectors that were written gives the content from the offset on.
get_each-put_sectors_each :
    (k n o : ℕ) (c : List ℕ) (device : ℕ → List ℕ)
    → n + k < 2 ^ 32
    → length c ≡ o + k * 512
    → get_each k n (put_sectors_each k n o c device) ≡ drop o c
unfolding get_each put_sectors_each
get_each-put_sectors_each zero n o c device h l = sym (drop-length o c (omega (arith, l)))
get_each-put_sectors_each (suc k) n o c device h l =
    let e : n % 2 ^ 32 ≡ n = omega arith in
    let d1 =
      call_put_sector device (record { sector_number = n; sector_content = take 512 (drop o c) }) in
    ap
      (λ x.
        put_sectors_each k (n + 1) (o + 512) c d1 x
        ++ get_each k (n + 1) (put_sectors_each k (n + 1) (o + 512) c d1))
      e
    ∙ ap (λ x. x ++ get_each k (n + 1) (put_sectors_each k (n + 1) (o + 512) c d1))
        (put_each_outside k (n + 1) (o + 512) c d1 n (inl (omega arith))
          ∙ ap (λ b. if b then take 512 (drop o c) else device n) ((==_iff n n).1 refl))
    ∙ ap (λ x. take 512 (drop o c) ++ x)
        (get_each-put_sectors_each k (n + 1) (o + 512) c d1 (omega arith) (omega (arith, l))
          ∙ sym (drop-drop 512 o c))
    ∙ take-append-drop 512 (drop o c)

-- Without a cache, or for the root directory, a block of 4096 bytes that pfs_fat32_utils_callPutBlock
-- writes is what pfs_fat32_utils_callGetBlock then reads, and no sector outside of it changes.
pub call_get_block-call_put_block :
    (habilitada : Bool) (v : Volume) (max_count : ℕ) (s : Store) (b : Block)
    → (habilitada && not (b.id == v.root)) ≡ false
    → get_first_sector_of_cluster v b.id + 8 < 2 ^ 32
    → length b.content ≡ 4096
    → (s' : Store) × (call_put_block habilitada v max_count s b ≡ some s')
      × (call_get_block habilitada v max_count s' b.id ≡ some (b, s'))
      × ((m : ℕ)
          → (m < get_first_sector_of_cluster v b.id) ⊎ (get_first_sector_of_cluster v b.id + 8 ≤ m)
          → s'.device m ≡ s.device m)
unfolding call_put_block call_get_block blocks_call_get_block
call_get_block-call_put_block habilitada v max_count s b u h l =
    let n = get_first_sector_of_cluster v b.id in
    let r = rounds_lem n h in
    let s' : Store = record s { device = put_sectors_each 8 n 0 b.content s.device } in
    (
      s',
      rw (u, r) refl,
      rw u (
          ap (λ c. some (record { id = b.id; content = c }, s'))
            (get_each-put_sectors_each 8 n 0 b.content s.device h (omega (arith, l)))),
      (λ m o. put_each_outside 8 n 0 b.content s.device m o),
    )

-- With a cache, pfs_fat32_utils_callGetBlock gives the eight sectors of the block as they are seen.
pub call_get_block_lem :
    (v : Volume) (max_count : ℕ) (s : Store) (id : ℕ)
    → 0 < max_count
    → (id == v.root) ≡ false
    → IsCoherent s
    → get_first_sector_of_cluster v id ≢ 0
    → get_first_sector_of_cluster v id + 8 < 2 ^ 32
    → (s' : Store) × (call_get_block true v max_count s id
        ≡ some
            (record { id = id; content = views 8 (get_first_sector_of_cluster v id) (view s) }, s'))
      × IsCoherent s'
      × ShowsSame s s'
unfolding call_get_block
call_get_block_lem v max_count s id p u c z h =
    let (s', q, c', same) =
      get_cached_each_lem max_count p 8 (get_first_sector_of_cluster v id) s c z in
    (s', rw (u, rounds_lem (get_first_sector_of_cluster v id) h) (>>=-some _ q refl), c', same)
