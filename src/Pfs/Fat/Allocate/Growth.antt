-- ===== src/Pfs/Fat/Allocate/Growth.antt =====
-- What pfs_fat32_utils_assignCluster and pfs_fat32_utils_allocateNewCluster do to the table.
use grage.Prelude.{
  ℕ, ◌+◌, ◌-◌, ◌*◌, ◌%◌, ◌^◌, ◌<◌, true, false, Option, some, List, [], ◌∷◌, ◌++◌, ◌≡◌, ◌≢◌, refl,
  ap, sym, ◌∙◌, ◌>>=◌, >>=-some, arith,
}
use grage.Pfs.Volume.{Volume, get_fat_entry_sector, get_fat_entry_offset}
use grage.Pfs.Cache.{Store}
use grage.Pfs.Cache.Coherent.{view}
use grage.Pfs.Cache.Requests.{call_cached_get_sector_lem}
use grage.Pfs.Fat.{is_free, is_eoc, fat_eoc, read_entry, expand_chain}
use grage.Pfs.Fat.Entry.{
  IsFat, IsEntry, IsTable, entry_at, sector_is, offset_is, sector_ne_zero, entry_at-same,
  IsTable-same,
}
use grage.Pfs.Fat.Chain.{
  IsChain, AreEntries, Lacks, NoRepeat, last_of, mark_end_of_chain_lem, expand_chain_lem,
}
use grage.Pfs.Fat.Allocate.{Table, take_from, take_cluster, assign_cluster, allocate_new_cluster}
use grage.Pfs.Fat.Allocate.First.{scan-first}

-- The entries of `busy` clusters from the one after the next free cluster are in use, that of the
-- cluster after them is free, and all of them are in one sector.
abbrev pub IsAhead : Table → ℕ → Type 0
IsAhead t busy =
    (t.volume.next_free_cluster % 128 + 1 + busy < 128)
    × (t.volume.next_free_cluster + 1 + busy < t.volume.clusters)
    × IsEntry t.volume (t.volume.next_free_cluster + 1 + busy)
    × ((i : ℕ)
        → i < busy
        → is_free (entry_at t.volume t.store (t.volume.next_free_cluster + 1 + i)) ≡ false)
    × (is_free (entry_at t.volume t.store (t.volume.next_free_cluster + 1 + busy)) ≡ true)

-- The table when the next free cluster was given and the one after `busy` others is the next.
abbrev pub taken : Table → ℕ → Store → Table
taken t busy s = record t {
  volume = record (t.volume) {
    next_free_cluster = t.volume.next_free_cluster + 1 + busy;
    free_cluster_count = (t.volume.free_cluster_count + 2 ^ 32 - 1) % 2 ^ 32;
  };
  store = s;
  fat_lock = false;
}

-- An entry of the same sector.
entry_near :
    (v : Volume) (s : Store) (a i : ℕ)
    → IsFat v
    → IsEntry v (a + i)
    → a % 128 + i < 128
    → read_entry (view s (get_fat_entry_sector v a)) (get_fat_entry_offset v a + i * 4)
      ≡ entry_at v s (a + i)
entry_near v s a i f e h =
    let n : get_fat_entry_sector v a ≡ get_fat_entry_sector v (a + i) =
      omega (arith, sector_is v a f (omega arith), sector_is v (a + i) f e) in
    let o : get_fat_entry_offset v a + i * 4 ≡ get_fat_entry_offset v (a + i) =
      omega (arith, offset_is v a f (omega arith), offset_is v (a + i) f e) in
    ap (λ k. read_entry (view s k) (get_fat_entry_offset v a + i * 4)) n
    ∙ ap (λ k. read_entry (view s (get_fat_entry_sector v (a + i))) k) o

-- A chain that keeps all entries but the last.
abbrev Kept : (ℕ → ℕ) → (ℕ → ℕ) → ℕ → List ℕ → Type 0
Kept fat fat' c [] = Unit {0}
Kept fat fat' c (d ∷ ds) = (fat' c ≡ fat c) × Kept fat fat' d ds

append :
    (fat fat' : ℕ → ℕ) (n c : ℕ) (ds : List ℕ)
    → IsChain fat c ds
    → Kept fat fat' c ds
    → fat' (last_of c ds) ≡ n
    → is_eoc n ≡ false
    → is_eoc (fat' n) ≡ true
    → IsChain fat' c (ds ++ (n ∷ []))
append fat fat' n c [] k h p e e' = (ap is_eoc p ∙ e, p, e')
append fat fat' n c (d ∷ ds) (x, q, k) (y, h) p e e' =
    (ap is_eoc y ∙ x, y ∙ q, append fat fat' n d ds k h p e e')

Lacks-last : (a c : ℕ) (ds : List ℕ) → Lacks a (c ∷ ds) → last_of c ds ≢ a
Lacks-last a c [] h = h.0
Lacks-last a c (d ∷ ds) h = Lacks-last a d ds h.1

IsEntry-last : (v : Volume) (c : ℕ) (ds : List ℕ) → AreEntries v (c ∷ ds) → IsEntry v (last_of c ds)
IsEntry-last v c [] h = h.0
IsEntry-last v c (d ∷ ds) h = IsEntry-last v d ds h.1

all_but_last :
    (v : Volume) (fat fat' : ℕ → ℕ) (a last c : ℕ) (ds : List ℕ)
    → last ≡ last_of c ds
    → AreEntries v (c ∷ ds)
    → NoRepeat (c ∷ ds)
    → Lacks a (c ∷ ds)
    → ((x : ℕ) → IsEntry v x → x ≢ last → x ≢ a → fat' x ≡ fat x)
    → Kept fat fat' c ds
all_but_last v fat fat' a last c [] p es r l old = tt
all_but_last v fat fat' a last c (d ∷ ds) p es r l old = (
  old c es.0 (λ q. Lacks-last c d ds r.0 (sym (q ∙ p))) l.0,
  all_but_last v fat fat' a last d ds p es.1 r.1 l.1 old,
)

module _ (max_count : ℕ) (positive : 0 < max_count) where
  -- What is left once the next free cluster was found and marked.
  take_cluster_lem :
      (link_to : Volume → Store → ℕ → Option Store) (t : Table) (busy : ℕ)
      → IsFat t.volume
      → IsTable t.volume t.store
      → t.fat_lock ≡ false
      → IsAhead t busy
      → (s3 : Store) × (take_cluster max_count link_to t ≡ (
          link_to t.volume s3 t.volume.next_free_cluster
          >>= (λ s4. some (t.volume.next_free_cluster, taken t busy s4))))
        × IsTable t.volume s3
        × (entry_at t.volume s3 (t.volume.next_free_cluster + 1) ≡ fat_eoc)
        × ((x : ℕ)
            → IsEntry t.volume x
            → x ≢ t.volume.next_free_cluster + 1
            → entry_at t.volume s3 x ≡ entry_at t.volume t.store x)
  unfolding take_cluster take_from
  take_cluster_lem link_to t busy f h l (near, below, e, used, free) =
      let v = t.volume in
      let cf = v.next_free_cluster in
      let e1 : IsEntry v (cf + 1) = omega arith in
      let next : (cf + 1) % 2 ^ 32 ≡ cf + 1 = omega (arith, f.3) in
      let (s1, q, c1, same, found) =
        call_cached_get_sector_lem v max_count positive t.store (get_fat_entry_sector v (cf + 1))
          h.0 (sector_ne_zero v (cf + 1) f e1) in
      let content = view t.store (get_fat_entry_sector v (cf + 1)) in
      let scanned =
        scan-first max_count v f.0 (get_fat_entry_sector v (cf + 1)) cf busy (v.clusters - (cf + 1))
          (cf + 1) (get_fat_entry_offset v (cf + 1)) (get_fat_entry_sector v (cf + 1)) content s1
          (omega arith) (omega (arith, offset_is v (cf + 1) f e1))
          (λ i b.
            ap is_free (entry_near v t.store (cf + 1) i f (omega arith) (omega arith)) ∙ used i b)
          (ap is_free (entry_near v t.store (cf + 1) busy f e (omega arith)) ∙ free) in
      let (s3, q3, t3, self, other) =
        mark_end_of_chain_lem max_count positive v s1 cf f (IsTable-same v t.store s1 h c1 same)
          (omega arith) (omega arith) in
      (
        s3,
        ap (take_from max_count link_to t) next
            ∙ rw l (>>=-some _ q (>>=-some _ scanned (>>=-some _ q3 refl))),
        t3,
        self,
        (λ x ex i. other x ex i ∙ entry_at-same v t.store s1 x same),
      )

  -- pfs_fat32_utils_assignCluster gives the next free cluster, ends the chain at the cluster after
  -- it, changes no other entry, moves on to the first free cluster that follows, takes one from the
  -- count of free clusters and gives its lock back, if that cluster is in the same sector.
  pub assign_cluster_lem :
      (t : Table) (busy : ℕ)
      → IsFat t.volume
      → IsTable t.volume t.store
      → t.fat_lock ≡ false
      → IsAhead t busy
      → (s' : Store) × (assign_cluster max_count t
          ≡ some (t.volume.next_free_cluster, taken t busy s'))
        × IsTable t.volume s'
        × (entry_at t.volume s' (t.volume.next_free_cluster + 1) ≡ fat_eoc)
        × ((x : ℕ)
            → IsEntry t.volume x
            → x ≢ t.volume.next_free_cluster + 1
            → entry_at t.volume s' x ≡ entry_at t.volume t.store x)
  unfolding assign_cluster
  assign_cluster_lem t busy f h l a = take_cluster_lem (λ v s free. some s) t busy f h l a

  -- pfs_fat32_utils_allocateNewCluster appends the next free cluster to a chain whose last cluster it
  -- is given, if the chain repeats no cluster and has neither that one nor the one behind it, the table
  -- ends a chain at the cluster that is appended, the lock is free, and the next free cluster lies
  -- behind it in the same sector of the table.
  pub allocate_new_cluster_lem :
      (t : Table) (busy c : ℕ) (ds : List ℕ)
      → IsFat t.volume
      → IsTable t.volume t.store
      → t.fat_lock ≡ false
      → IsAhead t busy
      → AreEntries t.volume (c ∷ ds)
      → NoRepeat (c ∷ ds)
      → Lacks t.volume.next_free_cluster (c ∷ ds)
      → Lacks (t.volume.next_free_cluster + 1) (c ∷ ds)
      → IsChain (entry_at t.volume t.store) c ds
      → is_eoc t.volume.next_free_cluster ≡ false
      → is_eoc (entry_at t.volume t.store t.volume.next_free_cluster) ≡ true
      → (s' : Store) × (allocate_new_cluster max_count (last_of c ds) t
          ≡ some (t.volume.next_free_cluster, taken t busy s'))
        × IsTable t.volume s'
        × IsChain (entry_at t.volume s') c (ds ++ (t.volume.next_free_cluster ∷ []))
  unfolding allocate_new_cluster
  allocate_new_cluster_lem t busy c ds f h l a es r i j k notend ends =
      let v = t.volume in
      let cf = v.next_free_cluster in
      let last = last_of c ds in
      let (s3, q, t3, self, other) =
        take_cluster_lem (λ v s free. expand_chain max_count v s last free) t busy f h l a in
      let (s4, q4, t4, self4, other4) =
        expand_chain_lem max_count positive v s3 last cf f t3 (IsEntry-last v c ds es)
          (omega (arith, a.2, f.3)) in
      let old : (x : ℕ)
          → IsEntry v x
          → x ≢ last
          → x ≢ cf + 1
          → entry_at v s4 x ≡ entry_at v t.store x =
        λ x ex u w. other4 x ex u ∙ other x ex w in
      (
        s4,
        q ∙ >>=-some _ q4 refl,
        t4,
        append (entry_at v t.store) (entry_at v s4) cf c ds k
            (all_but_last v (entry_at v t.store) (entry_at v s4) (cf + 1) last c ds refl es r j old)
            self4 notend
            (ap is_eoc (
                old cf (omega (arith, a.2)) (λ p. Lacks-last cf c ds i (sym p))
                  (λ p. omega (arith, p)))
              ∙ ends),
      )
