-- ===== src/Pfs/Fat/Chain.antt =====
-- The chain of clusters of a file: its end, its growth, and that it is given back.
use grage.Prelude.{
  ℕ, zero, suc, ◌+◌, ◌%◌, ◌^◌, ◌<◌, true, false, none, some, List, [], ◌∷◌, ◌≡◌, ◌≢◌, ap, subst,
  ◌∙◌, if◌then◌else◌, >>=-some, >>=-none, leb, arith, length,
}
use grage.Splice.{spliced}
use grage.Nipc.Wire.Bytes.{le_bytes}
use grage.Pfs.Volume.{Volume, get_fat_entry_sector, get_fat_entry_offset}
use grage.Pfs.Cache.{Store}
use grage.Pfs.Cache.Coherent.{view, ShowsSame}
use grage.Pfs.Cache.Requests.{call_cached_get_sector_lem}
use grage.Pfs.Fat.{is_eoc, fat_eoc, put_entry, mark_end_of_chain, expand_chain, find_eoc}
use grage.Pfs.Fat.Entry.{
  IsFat, IsEntry, IsTable, entry_at, Sets, sector_is, offset_is, sector_ne_zero, entry_at-same,
  IsTable-same, put_entry_lem,
}

-- From a cluster the table leads through these clusters, the last of which ends the chain.
abbrev pub IsChain : (ℕ → ℕ) → ℕ → List ℕ → Type 0
IsChain fat c [] = is_eoc (fat c) ≡ true
IsChain fat c (d ∷ ds) = (is_eoc (fat c) ≡ false) × (fat c ≡ d) × IsChain fat d ds

abbrev pub AreEntries : Volume → List ℕ → Type 0
AreEntries v [] = Unit {0}
AreEntries v (c ∷ cs) = IsEntry v c × AreEntries v cs

abbrev pub Lacks : ℕ → List ℕ → Type 0
Lacks c [] = Unit {0}
Lacks c (d ∷ ds) = (d ≢ c) × Lacks c ds

abbrev pub NoRepeat : List ℕ → Type 0
NoRepeat [] = Unit {0}
NoRepeat (c ∷ cs) = Lacks c cs × NoRepeat cs

abbrev pub last_of : ℕ → List ℕ → ℕ
last_of c [] = c
last_of c (d ∷ ds) = last_of d ds

-- A chain depends on the entries of its clusters alone.
pub IsChain-cong :
    (v : Volume) (fat fat' : ℕ → ℕ) (c a : ℕ) (ds : List ℕ)
    → ((x : ℕ) → IsEntry v x → x ≢ a → fat' x ≡ fat x)
    → IsEntry v c
    → AreEntries v ds
    → c ≢ a
    → Lacks a ds
    → IsChain fat c ds
    → IsChain fat' c ds
IsChain-cong v fat fat' c a [] h e es i is k = rw (h c e i) k
IsChain-cong v fat fat' c a (d ∷ ds) h e es i is (n, p, k) =
    (rw (h c e i) n, h c e i ∙ p, IsChain-cong v fat fat' d a ds h es.0 es.1 is.0 is.1 k)

pub IsChain-same :
    (fat fat' : ℕ → ℕ) (c : ℕ) (ds : List ℕ)
    → ((x : ℕ) → fat' x ≡ fat x)
    → IsChain fat c ds
    → IsChain fat' c ds
IsChain-same fat fat' c [] h k = rw (h c) k
IsChain-same fat fat' c (d ∷ ds) h (n, p, k) = (rw (h c) n, h c ∙ p, IsChain-same fat fat' d ds h k)

module _ (max_count : ℕ) (positive : 0 < max_count) where
  -- On a chain pfs_fat32_utils_findEOC ends after as many rounds as the chain has clusters, with the
  -- last one, and leaves every sector as it was seen.
  pub find_eoc_lem :
      (v : Volume) (s : Store) (c : ℕ) (ds : List ℕ) (fuel : ℕ)
      → IsFat v
      → IsTable v s
      → IsEntry v c
      → AreEntries v ds
      → IsChain (entry_at v s) c ds
      → length ds < fuel
      → (s' : Store) × (find_eoc max_count fuel v s c ≡ some (last_of c ds, s'))
        × IsTable v s'
        × ShowsSame s s'
  unfolding find_eoc
  find_eoc_lem v s c ds zero f t e es h b = absurd (omega arith)
  find_eoc_lem v s c [] (suc k) f t e es h b =
      let (s1, q, c1, same, found) =
        call_cached_get_sector_lem v max_count positive s (get_fat_entry_sector v c) t.0
          (sector_ne_zero v c f e) in
      (
        s1,
        >>=-some _ q
            (ap (λ b. if b then some (c, s1) else find_eoc max_count k v s1 (entry_at v s c)) h),
        IsTable-same v s s1 t c1 same,
        same,
      )
  find_eoc_lem v s c (d ∷ ds) (suc k) f t e es (n, p, h) b =
      let (s1, q, c1, same, found) =
        call_cached_get_sector_lem v max_count positive s (get_fat_entry_sector v c) t.0
          (sector_ne_zero v c f e) in
      let (s2, q2, t2, same2) =
        find_eoc_lem v s1 d ds k f (IsTable-same v s s1 t c1 same) es.0 es.1
          (IsChain-same (entry_at v s) (entry_at v s1) d ds (λ x. entry_at-same v s s1 x same) h)
          (omega arith) in
      (
        s2,
        >>=-some _ q (
            ap (λ b. if b then some (c, s1) else find_eoc max_count k v s1 (entry_at v s c)) n
            ∙ ap (λ x. find_eoc max_count k v s1 x) p
            ∙ q2),
        t2,
        (λ m. same2 m ∙ same m),
      )

  -- pfs_fat32_utils_expandChain makes one cluster lead to another, and changes no other entry.
  pub expand_chain_lem :
      (v : Volume) (s : Store) (last free : ℕ)
      → IsFat v
      → IsTable v s
      → IsEntry v last
      → free < 2 ^ 32
      → Sets v s last free (expand_chain max_count v s last free)
  unfolding expand_chain
  expand_chain_lem v s last free f t e b =
      let o : get_fat_entry_offset v last % 2 ^ 16 ≡ get_fat_entry_offset v last =
        omega (arith, offset_is v last f e) in
      rw o (put_entry_lem max_count positive v f s last free t e b)

  -- pfs_fat32_utils_markEndOfChain ends the chain at the cluster after the one it is given, and
  -- changes no other entry, unless the given entry is the last of its sector.
  pub mark_end_of_chain_lem :
      (v : Volume) (s : Store) (c : ℕ)
      → IsFat v
      → IsTable v s
      → IsEntry v c
      → c % 128 < 127
      → Sets v s (c + 1) fat_eoc (mark_end_of_chain max_count v s c)
  unfolding mark_end_of_chain
  mark_end_of_chain_lem v s c f t e h =
      let a : get_fat_entry_sector v (c + 1) ≡ get_fat_entry_sector v c =
        omega (arith, sector_is v c f e, sector_is v (c + 1) f (omega arith)) in
      let b : get_fat_entry_offset v (c + 1) ≡ get_fat_entry_offset v c + 4 =
        omega (arith, offset_is v c f e, offset_is v (c + 1) f (omega arith)) in
      subst
        (λ n.
          Sets v s (c + 1) fat_eoc
            (put_entry max_count v s n (get_fat_entry_offset v c + 4) fat_eoc))
        a
        (subst
          (λ o.
            Sets v s (c + 1) fat_eoc
              (put_entry max_count v s (get_fat_entry_sector v (c + 1)) o fat_eoc))
          b (put_entry_lem max_count positive v f s (c + 1) fat_eoc t (omega arith) (omega arith)))

  -- For the last entry of a sector it writes behind the sector.
  pub mark_end_of_chain_past :
      (v : Volume) (s : Store) (c : ℕ)
      → IsFat v
      → IsTable v s
      → IsEntry v c
      → c % 128 ≡ 127
      → mark_end_of_chain max_count v s c ≡ none
  unfolding mark_end_of_chain put_entry
  mark_end_of_chain_past v s c f t e h =
      let (s1, q, c1, same, found) =
        call_cached_get_sector_lem v max_count positive s (get_fat_entry_sector v c) t.0
          (sector_ne_zero v c f e) in
      let b : get_fat_entry_offset v c + 4 ≡ 512 = omega (arith, offset_is v c f e) in
      let g : leb (get_fat_entry_offset v c + 4 + 4) (length (view s (get_fat_entry_sector v c)))
          ≡ false =
        ground (arith, b, t.1 (get_fat_entry_sector v c)) in
      >>=-some _ q (
        >>=-none _ (
          ap
            (λ x.
              if x
              then some (
                  spliced (view s (get_fat_entry_sector v c)) (get_fat_entry_offset v c + 4)
                    (le_bytes 4 fat_eoc))
              else none)
            g))
