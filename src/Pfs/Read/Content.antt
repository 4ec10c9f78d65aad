-- ===== src/Pfs/Read/Content.antt =====
-- What a read gives is the content of the clusters of the file.
use grage.Prelude.{
  ℕ, zero, suc, ◌+◌, ◌*◌, ◌%◌, ◌^◌, ◌<◌, ◌≤◌, ◌≡◌, refl, ap, sym, ◌∙◌, false, some, List, [], ◌∷◌,
  ◌++◌, >>=-some, length, length-append, arith,
}
use grage.Pfs.Volume.{Volume, get_first_sector_of_cluster}
use grage.Pfs.Cache.{Store}
use grage.Pfs.Cache.Coherent.{view, ShowsSame, seen_absent}
use grage.Pfs.Fat.{is_eoc}
use grage.Pfs.Fat.Entry.{IsFat, IsTable, IsEntry, entry_at, get_next_cluster_in_chain_lem}
use grage.Pfs.Block.{get_each, blocks_call_get_block, call_get_block}
use grage.Pfs.Mknod.{Disk, Caches, get_block, get_next}
use grage.Pfs.Read.{fat_store}

-- A cluster whose sectors lie behind the table, and that is no mark of an end.
abbrev pub IsData : Volume → ℕ → Type 0
IsData v c =
    (v.rsv + v.fat_size < get_first_sector_of_cluster v c)
    × (get_first_sector_of_cluster v c + 8 < 2 ^ 32)
    × (is_eoc c ≡ false)

abbrev pub AreData : Volume → List ℕ → Type 0
AreData v [] = Unit {0}
AreData v (c ∷ cs) = IsData v c × AreData v cs

-- The content of clusters, one after the other.
abbrev pub contents : Volume → (ℕ → List ℕ) → List ℕ → List ℕ
contents v device [] = []
contents v device (c ∷ cs) =
    get_each 8 (get_first_sector_of_cluster v c) device ++ contents v device cs

get_each-same :
    (k n : ℕ) (f g : ℕ → List ℕ)
    → n + k < 2 ^ 32
    → ((m : ℕ) → n ≤ m → g m ≡ f m)
    → get_each k n g ≡ get_each k n f
unfolding get_each
get_each-same zero n f g b h = refl
get_each-same (suc k) n f g b h =
    let e : n % 2 ^ 32 ≡ n = omega arith in
    ap (λ x. x ++ get_each k (n + 1) g) (ap g e ∙ h n (omega arith) ∙ ap f (sym e))
    ∙ ap (λ x. f (n % 2 ^ 32) ++ x)
        (get_each-same k (n + 1) f g (omega arith) (λ m a. h m (omega arith)))

pub length-get_each :
    (k n : ℕ) (f : ℕ → List ℕ)
    → n + k < 2 ^ 32
    → ((m : ℕ) → n ≤ m → length (f m) ≡ 512)
    → length (get_each k n f) ≡ k * 512
unfolding get_each
length-get_each zero n f b h = omega arith
length-get_each (suc k) n f b h =
    let e : n % 2 ^ 32 ≡ n = omega arith in
    omega (
      arith,
      length-append (f (n % 2 ^ 32)) (get_each k (n + 1) f),
      ap (λ x. length (f x)) e,
      h n (omega arith),
      length-get_each k (n + 1) f (omega arith) (λ m a. h m (omega arith)),
    )

-- A sector behind the table is seen as it is on the device.
pub data_seen :
    (v : Volume) (s : Store) (m : ℕ) → IsTable v s → v.rsv + v.fat_size < m → view s m ≡ s.device m
data_seen v s m t h = seen_absent s.device s.cache.elements m (t.0.1 m (ground (arith, h)))

pub contents-same :
    (v : Volume) (f g : ℕ → List ℕ) (cs : List ℕ)
    → AreData v cs
    → ((m : ℕ) → v.rsv + v.fat_size < m → g m ≡ f m)
    → contents v g cs ≡ contents v f cs
contents-same v f g [] a h = refl
contents-same v f g (c ∷ cs) a h =
    ap (λ x. x ++ contents v g cs)
      (get_each-same 8 (get_first_sector_of_cluster v c) f g a.0.1
        (λ m b. h m (omega (arith, a.0.0))))
    ∙ ap (λ x. get_each 8 (get_first_sector_of_cluster v c) f ++ x) (contents-same v f g cs a.1 h)

-- A step along the chain keeps what is behind the table.
pub next_lem :
    (k : Caches) (v : Volume) (d : Disk) (c : ℕ)
    → 0 < k.fat_max_count
    → IsFat v
    → IsTable v (fat_store d)
    → IsEntry v c
    → (d' : Disk) × (get_next k v d c ≡ some (entry_at v (fat_store d) c, d'))
      × IsTable v (fat_store d')
      × ShowsSame (fat_store d) (fat_store d')
      × ((m : ℕ) → v.rsv + v.fat_size < m → d'.sectors m ≡ d.sectors m)
unfolding get_next
next_lem k v d c p f t e =
    let (s', q, t', same) =
      get_next_cluster_in_chain_lem k.fat_max_count p v f (fat_store d) c t e in
    (
      record d { sectors = s'.device; fat_cache = s'.cache },
      >>=-some _ q refl,
      t',
      same,
      (λ m h. sym (data_seen v s' m t' h) ∙ same m ∙ data_seen v (fat_store d) m t h),
    )

-- With the cache of files off a block is read from the device.
pub block_lem :
    (k : Caches) (v : Volume) (d : Disk) (c : ℕ)
    → k.habilitada ≡ false
    → get_block k v d c
      ≡ some
          (record { id = c; content = get_each 8 (get_first_sector_of_cluster v c) d.sectors }, d)
unfolding get_block call_get_block blocks_call_get_block
block_lem k v d c u = rw u refl
