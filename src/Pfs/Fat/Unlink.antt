-- ===== src/Pfs/Fat/Unlink.antt =====
-- The chain of a file that is removed goes back to the free clusters.
use grage.Prelude.{
  ℕ, zero, suc, ◌+◌, ◌%◌, ◌^◌, ◌<◌, true, false, some, List, [], ◌∷◌, ◌≡◌, ◌≢◌, refl, ap, sym, ◌∙◌,
  if◌then◌else◌, >>=-some, arith, length,
}
use grage.Pfs.Volume.{Volume, get_fat_entry_sector, get_fat_entry_offset}
use grage.Pfs.Cache.{Store}
use grage.Pfs.Fat.{is_eoc, unlink_fat_entry_chain, unlink_chain}
use grage.Pfs.Fat.Entry.{
  IsFat, IsEntry, IsTable, entry_at, entry_at-same, get_next_cluster_in_chain_lem, get_put_lem,
}
use grage.Pfs.Fat.Chain.{IsChain, AreEntries, Lacks, NoRepeat, IsChain-cong}

-- The volume with more free clusters.
abbrev pub freed : Volume → ℕ → Volume
freed v n = record v { free_cluster_count = (v.free_cluster_count + n) % 2 ^ 32 }

abbrev pub AreFree : (ℕ → ℕ) → List ℕ → Type 0
AreFree fat [] = Unit {0}
AreFree fat (c ∷ cs) = (fat c ≡ 0) × AreFree fat cs

AreFree-same :
    (fat fat' : ℕ → ℕ) (cs : List ℕ) → ((x : ℕ) → fat' x ≡ fat x) → AreFree fat cs → AreFree fat' cs
AreFree-same fat fat' [] h a = tt
AreFree-same fat fat' (c ∷ cs) h a = (h c ∙ a.0, AreFree-same fat fat' cs h a.1)

module _ (max_count : ℕ) (positive : 0 < max_count) where
  -- One step frees the cluster it is given, and says where to go on.
  unlink_fat_entry_chain_lem :
      (v : Volume) (s : Store) (c : ℕ)
      → IsFat v
      → IsTable v s
      → IsEntry v c
      → (s' : Store) × (unlink_fat_entry_chain max_count v s c ≡ (
          if is_eoc (entry_at v s c)
          then some (false, c, freed v 1, s')
          else some (true, entry_at v s c, freed v 1, s')))
        × IsTable v s'
        × (entry_at v s' c ≡ 0)
        × ((x : ℕ) → IsEntry v x → x ≢ c → entry_at v s' x ≡ entry_at v s x)
  unfolding unlink_fat_entry_chain
  unlink_fat_entry_chain_lem v s c f t e =
      let (s1, q1, t1, same1) = get_next_cluster_in_chain_lem max_count positive v f s c t e in
      let (s2, s3, q2, q3, q4, t3, self, other) =
        get_put_lem max_count positive v f s1 c 0 t1 e (omega arith) in
      (
        s3,
        >>=-some _ q1 (
            >>=-some _ q2 (
              >>=-some _ q3 (
                >>=-some _ q4 (
                  ap
                    (λ x.
                      if is_eoc x
                      then some (false, c, freed v 1, s3)
                      else some (true, entry_at v s c, freed v 1, s3))
                    (entry_at-same v s s1 c same1))))),
        t3,
        self,
        (λ x ex i. other x ex i ∙ entry_at-same v s s1 x same1),
      )

  entry_at-freed :
      (v : Volume) (n : ℕ) (s : Store) (x : ℕ) → entry_at (freed v n) s x ≡ entry_at v s x
  unfolding get_fat_entry_sector get_fat_entry_offset
  entry_at-freed v n s x = refl

  freed-freed : (v : Volume) (n : ℕ) → freed (freed v 1) n ≡ freed v (suc n)
  freed-freed v n =
      ap (λ k. record v { free_cluster_count = k })
        (let e : (((v.free_cluster_count + 1) % 2 ^ 32) + n) % 2 ^ 32
              ≡ (v.free_cluster_count + suc n) % 2 ^ 32 =
            omega arith in
          e)

  AreEntries-freed :
      (v : Volume) (n : ℕ) (cs : List ℕ) → AreEntries v cs → AreEntries (freed v n) cs
  AreEntries-freed v n [] h = tt
  AreEntries-freed v n (c ∷ cs) h = (h.0, AreEntries-freed v n cs h.1)

  -- The loop of pfs_fat32_unlink frees exactly the clusters of the file's chain, which it counts as
  -- free, and ends, with a chain that has no cluster twice.
  pub unlink_chain_lem :
      (v : Volume) (s : Store) (c : ℕ) (ds : List ℕ) (fuel : ℕ)
      → IsFat v
      → IsTable v s
      → AreEntries v (c ∷ ds)
      → NoRepeat (c ∷ ds)
      → IsChain (entry_at v s) c ds
      → length ds < fuel
      → (s' : Store) × (unlink_chain max_count fuel v s c ≡ some (freed v (length (c ∷ ds)), s'))
        × IsTable v s'
        × AreFree (entry_at v s') (c ∷ ds)
        × ((x : ℕ) → IsEntry v x → Lacks x (c ∷ ds) → entry_at v s' x ≡ entry_at v s x)
  unfolding unlink_chain
  unlink_chain_lem v s c ds zero f t es r h b = absurd (omega arith)
  unlink_chain_lem v s c [] (suc k) f t es r h b =
      let (s1, q, t1, zero_at, other) = unlink_fat_entry_chain_lem v s c f t es.0 in
      (
        s1,
        >>=-some _
            (q
              ∙ ap
                  (λ b.
                    if b
                    then some (false, c, freed v 1, s1)
                    else some (true, entry_at v s c, freed v 1, s1))
                  h)
            refl,
        t1,
        (zero_at, tt),
        (λ x e l. other x e (λ p. l.0 (sym p))),
      )
  unlink_chain_lem v s c (d ∷ ds) (suc k) f t es r (n, p, h) b =
      let (s1, q, t1, zero_at, other) = unlink_fat_entry_chain_lem v s c f t es.0 in
      let w = freed v 1 in
      let ih =
        unlink_chain_lem w s1 d ds k f t1 (AreEntries-freed v 1 (d ∷ ds) es.1) r.1
          (IsChain-cong v (entry_at v s) (entry_at w s1) d c ds
            (λ x ex i. entry_at-freed v 1 s1 x ∙ other x ex i) es.1.0 es.1.1 r.0.0 r.0.1 h)
          (omega arith) in
      let (s2, q2, t2, free, same) = ih in
      (
        s2,
        >>=-some _
            (q
              ∙ ap (λ b. if b then some (false, c, w, s1) else some (true, entry_at v s c, w, s1)) n
              ∙ ap (λ x. some (true, x, w, s1)) p)
            (q2 ∙ ap (λ (u : Volume). some (u, s2)) (freed-freed v (length (d ∷ ds)))),
        t2,
        (
          sym (entry_at-freed v 1 s2 c) ∙ same c es.0 r.0 ∙ entry_at-freed v 1 s1 c ∙ zero_at,
          AreFree-same (entry_at w s2) (entry_at v s2) (d ∷ ds) (λ x. sym (entry_at-freed v 1 s2 x))
              free,
        ),
        (λ x e l.
            sym (entry_at-freed v 1 s2 x)
            ∙ same x e l.1
            ∙ entry_at-freed v 1 s1 x
            ∙ other x e (λ p. l.0 (sym p))),
      )
