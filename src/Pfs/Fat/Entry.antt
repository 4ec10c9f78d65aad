-- ===== src/Pfs/Fat/Entry.antt =====
-- The entries of the table, as the file system sees them.
use grage.Prelude.{
  ℕ, ◌+◌, ◌*◌, ◌/◌, ◌%◌, ◌^◌, ◌<◌, ◌≤◌, true, Option, some, List, ◌≡◌, ◌≢◌, refl, ap, sym, ◌∙◌, ◌⊎◌,
  inl, inr, ◌==◌, ==_iff, ne→==, if◌then◌else◌, >>=-some, le→leb, arith, length, take, Bool-cases,
}
use grage.Splice.{spliced, spliced_self, spliced_before, spliced_after, length-spliced}
use grage.Nipc.Message.{DiskSector}
use grage.Nipc.Wire.Bytes.{le_bytes, of_le, of_le-le_bytes}
use grage.Ppd.Persistence.{copy_to}
use grage.Pfs.Volume.{Volume, get_fat_entry_sector, get_fat_entry_offset}
use grage.Pfs.Cache.{Store, call_cached_get_sector, call_cached_put_sector, is_fat_sector_reserved}
use grage.Pfs.Cache.Coherent.{view, ShowsSame}
use grage.Pfs.Cache.Writes.{call_cached_put_sector_lem}
use grage.Pfs.Cache.Requests.{IsCache, call_cached_get_sector_lem}
use grage.Pfs.Fat.{read_entry, get_next_cluster_in_chain, put_entry}

-- A volume with sectors of 512 bytes whose table ends below sector 2^31.
abbrev pub IsFat : Volume → Type 0
IsFat v = (v.bps ≡ 512) × (0 < v.rsv) × (v.rsv < 2 ^ 16) × (v.fat_size < 2 ^ 22)

-- The table has an entry for the cluster.
abbrev pub IsEntry : Volume → ℕ → Type 0
IsEntry v cluster = cluster < v.fat_size * 128

-- The cache is coherent and every sector has 512 bytes.
abbrev pub IsTable : Volume → Store → Type 0
IsTable v s = IsCache v s × ((n : ℕ) → length (view s n) ≡ 512)

-- The entry of a cluster.
abbrev pub entry_at : Volume → Store → ℕ → ℕ
entry_at v s cluster =
    read_entry (view s (get_fat_entry_sector v cluster)) (get_fat_entry_offset v cluster)

pub sector_is :
    (v : Volume) (c : ℕ) → IsFat v → IsEntry v c → get_fat_entry_sector v c ≡ v.rsv + c / 128
unfolding get_fat_entry_sector
sector_is v c (b, p, r, f) e = rw b (omega arith)

pub offset_is :
    (v : Volume) (c : ℕ) → IsFat v → IsEntry v c → get_fat_entry_offset v c ≡ (c % 128) * 4
unfolding get_fat_entry_offset
offset_is v c (b, p, r, f) e = rw b (omega arith)

pub sector_reserved :
    (v : Volume) (c : ℕ)
    → IsFat v
    → IsEntry v c
    → is_fat_sector_reserved v (get_fat_entry_sector v c) ≡ true
sector_reserved v c f e =
    rw (sector_is v c f e) (le→leb (v.rsv + c / 128) (v.rsv + v.fat_size) (omega arith))

pub sector_ne_zero : (v : Volume) (c : ℕ) → IsFat v → IsEntry v c → get_fat_entry_sector v c ≢ 0
sector_ne_zero v c f e z = omega (arith, sector_is v c f e, z, f.1)

-- The store after a read shows the table that it did.
pub entry_at-same :
    (v : Volume) (s s' : Store) (c : ℕ) → ShowsSame s s' → entry_at v s' c ≡ entry_at v s c
entry_at-same v s s' c h =
    ap (λ x. read_entry x (get_fat_entry_offset v c)) (h (get_fat_entry_sector v c))

pub IsTable-same :
    (v : Volume) (s s' : Store) → IsTable v s → IsCache v s' → ShowsSame s s' → IsTable v s'
IsTable-same v s s' t c h = (c, (λ n. ap length (h n) ∙ t.1 n))

-- A sector with a word written at another place reads back the words that were there.
pub read_entry-spliced_self :
    (d : List ℕ) (o value : ℕ)
    → o + 4 ≤ length d
    → value < 2 ^ 32
    → read_entry (spliced d o (le_bytes 4 value)) o ≡ value
read_entry-spliced_self d o value h b =
    ap of_le (spliced_self d o (le_bytes 4 value) (h)) ∙ of_le-le_bytes 4 value (omega arith)

pub read_entry-spliced_other :
    (d : List ℕ) (o p value : ℕ)
    → o + 4 ≤ length d
    → (p + 4 ≤ o) ⊎ (o + 4 ≤ p)
    → read_entry (spliced d o (le_bytes 4 value)) p ≡ read_entry d p
read_entry-spliced_other d o p value h (inl l) =
    ap of_le (spliced_before d o (le_bytes 4 value) h p 4 l)
read_entry-spliced_other d o p value h (inr l) =
    ap (λ x. of_le (take 4 x)) (spliced_after d o (le_bytes 4 value) h p l)

-- Two entries of one sector do not overlap.
apart :
    (v : Volume) (c t : ℕ)
    → IsFat v
    → IsEntry v c
    → IsEntry v t
    → c ≢ t
    → get_fat_entry_sector v c ≡ get_fat_entry_sector v t
    → (get_fat_entry_offset v c + 4 ≤ get_fat_entry_offset v t)
      ⊎ (get_fat_entry_offset v t + 4 ≤ get_fat_entry_offset v c)
apart v c t f ec et i s =
    ground
      (arith, sector_is v c f ec, sector_is v t f et, offset_is v c f ec, offset_is v t f et, i, s)

fits : (v : Volume) (c : ℕ) → IsFat v → IsEntry v c → get_fat_entry_offset v c + 4 ≤ 512
fits v c f e = omega (arith, offset_is v c f e)

-- What setting an entry gives: that entry has the value, and every other one is as it was.
abbrev pub Sets : Volume → Store → ℕ → ℕ → Option Store → Type 0
Sets v s t value r =
    (s' : Store) × (r ≡ some s')
    × IsTable v s'
    × (entry_at v s' t ≡ value)
    × ((c : ℕ) → IsEntry v c → c ≢ t → entry_at v s' c ≡ entry_at v s c)

-- A copy that fits is made.
pub copied : (d b : List ℕ) (o : ℕ) → o + length b ≤ length d → copy_to d o b ≡ some (spliced d o b)
copied d b o h = rw (le→leb (o + length b) (length d) h) refl

module _ (max_count : ℕ) (positive : 0 < max_count) (v : Volume) (f : IsFat v) where
  -- The next cluster is what the table has for a cluster.
  pub get_next_cluster_in_chain_lem :
      (s : Store) (c : ℕ)
      → IsTable v s
      → IsEntry v c
      → (s' : Store) × (get_next_cluster_in_chain max_count v s c ≡ some (entry_at v s c, s'))
        × IsTable v s'
        × ShowsSame s s'
  unfolding get_next_cluster_in_chain
  get_next_cluster_in_chain_lem s c t e =
      let (s', q, c', same, found) =
        call_cached_get_sector_lem v max_count positive s (get_fat_entry_sector v c) t.0
          (sector_ne_zero v c f e) in
      (s', >>=-some _ q refl, IsTable-same v s s' t c' same, same)

  -- The request of the sector of an entry, the copy of a word into it and the write.
  pub get_put_lem :
      (s : Store) (t value : ℕ)
      → IsTable v s
      → IsEntry v t
      → value < 2 ^ 32
      → let n = get_fat_entry_sector v t in
        let o = get_fat_entry_offset v t in
        (s1 : Store) × (s2 : Store) × (call_cached_get_sector v max_count s n
          ≡ some (record { sector_number = n; sector_content = view s n }, s1))
        × (copy_to (view s n) o (le_bytes 4 value) ≡ some (spliced (view s n) o (le_bytes 4 value)))
        × (call_cached_put_sector v max_count s1 (record {
          sector_number = n;
          sector_content = spliced (view s n) o (le_bytes 4 value);
        })
            ≡ some s2)
        × IsTable v s2
        × (entry_at v s2 t ≡ value)
        × ((c : ℕ) → IsEntry v c → c ≢ t → entry_at v s2 c ≡ entry_at v s c)
  get_put_lem s t value h e b =
      let n = get_fat_entry_sector v t in
      let o = get_fat_entry_offset v t in
      let (s1, q, c1, same, found) =
        call_cached_get_sector_lem v max_count positive s n h.0 (sector_ne_zero v t f e) in
      let fit : o + 4 ≤ length (view s n) = omega (arith, h.1 n, fits v t f e) in
      let d : DiskSector = record {
        sector_number = n;
        sector_content = spliced (view s n) o (le_bytes 4 value);
      } in
      let (s2, q2, c2, put) = call_cached_put_sector_lem v max_count s1 d (view s n) c1 found in
      let self : view s2 n ≡ spliced (view s n) o (le_bytes 4 value) =
        put n ∙ ap (λ b. if b then d.sector_content else view s1 n) ((==_iff n n).1 refl) in
      let other : (m : ℕ) → m ≢ n → view s2 m ≡ view s m =
        λ m i. put m ∙ ap (λ b. if b then d.sector_content else view s1 m) (ne→== m n i) ∙ same m in
      (
        s1,
        s2,
        q,
        copied (view s n) (le_bytes 4 value) o fit,
        q2,
        (
          c2,
          (λ m. elim (Bool-cases (m == n)) [
            | inl p ↦
                ap (λ k. length (view s2 k)) ((==_iff m n).0 p)
                ∙ ap length self
                ∙ length-spliced (view s n) o (le_bytes 4 value) fit
                ∙ h.1 n
            | inr p ↦ ap length (other m (λ r. ground (arith, p, r))) ∙ h.1 m
          ]),
        ),
        ap (λ x. read_entry x o) self ∙ read_entry-spliced_self (view s n) o value fit b,
        (λ c ec i. elim (Bool-cases (get_fat_entry_sector v c == n)) [
          | inl p ↦
              let r = (==_iff (get_fat_entry_sector v c) n).0 p in
              ap (λ k. read_entry (view s2 k) (get_fat_entry_offset v c)) r
              ∙ ap (λ x. read_entry x (get_fat_entry_offset v c)) self
              ∙ read_entry-spliced_other (view s n) o (get_fat_entry_offset v c) value fit
                  (apart v c t f ec e i r)
              ∙ ap (λ k. read_entry (view s k) (get_fat_entry_offset v c)) (sym r)
          | inr p ↦
              ap (λ x. read_entry x (get_fat_entry_offset v c))
                (other (get_fat_entry_sector v c) (λ r. ground (arith, p, r)))
        ]),
      )

  pub put_entry_lem :
      (s : Store) (t value : ℕ)
      → IsTable v s
      → IsEntry v t
      → value < 2 ^ 32
      → Sets v s t value
          (put_entry max_count v s (get_fat_entry_sector v t) (get_fat_entry_offset v t) value)
  unfolding put_entry
  put_entry_lem s t value h e b =
      let (s1, s2, q1, q2, q3, h2, self, other) = get_put_lem s t value h e b in
      (s2, >>=-some _ q1 (>>=-some _ q2 q3), h2, self, other)
