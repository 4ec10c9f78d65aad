-- ===== src/Ppd/Persistence/Laws.antt =====
-- What a disk reads back.
use grage.Prelude.{
  ℕ, ◌+◌, ◌*◌, ◌^◌, ◌<◌, ◌≤◌, none, some, List, ◌≡◌, ◌≢◌, refl, ap, sym, ◌∙◌, arith, if◌then◌else◌,
  leb, le→leb, leb→le, length, take, drop, take-length, Bool-cases, inl, inr, ◌⊎◌,
}
use mathlib.Core.Option.{some-injective, none-ne-some}
use grage.Nipc.Message.{DiskSector}
use grage.Splice.{spliced, spliced_self, spliced_before, spliced_after, length-spliced}
use grage.Ppd.Persistence.{sector_size, offset_of, copy_to, write_sector, read_sector}

-- A copy that is made lies inside its target, and leaves what was spliced in.
copy_to-some :
    (to out b : List ℕ) (o : ℕ)
    → copy_to to o b ≡ some out
    → (o + length b ≤ length to) × (out ≡ spliced to o b)
copy_to-some to out b o e = elim (Bool-cases (leb (o + length b) (length to))) [
  | inl t ↦ (
    leb→le (o + length b) (length to) t,
    some-injective _ _ (sym e ∙ ap (λ c. if c then some (spliced to o b) else none) t),
  )
  | inr f ↦
      absurd (none-ne-some out (sym (ap (λ c. if c then some (spliced to o b) else none) f) ∙ e))
]

write_sector-some :
    (disk disk' : List ℕ) (s : DiskSector)
    → length s.sector_content ≡ sector_size
    → write_sector disk s ≡ some disk'
    → (offset_of s.sector_number + sector_size ≤ length disk)
      × (disk' ≡ spliced disk (offset_of s.sector_number) s.sector_content)
unfolding write_sector
write_sector-some disk disk' s h e =
    let t = take-length sector_size s.sector_content h in
    let w =
      copy_to-some disk disk' (take sector_size s.sector_content) (offset_of s.sector_number) e in
    (omega (arith, w.0, h, ap length t), w.1 ∙ ap (spliced disk (offset_of s.sector_number)) t)

offset_of-small : (m : ℕ) → m < 2 ^ 23 → offset_of m ≡ m * 512
offset_of-small m h = omega arith

-- A read depends on the disk's length and on the sector's bytes.
read_sector-same :
    (disk disk' : List ℕ) (m : ℕ)
    → length disk' ≡ length disk
    → take sector_size (drop (offset_of m) disk') ≡ take sector_size (drop (offset_of m) disk)
    → read_sector disk' m ≡ read_sector disk m
unfolding read_sector
read_sector-same disk disk' m n t = rw (read_sector, n, t) refl

read_sector-inside :
    (disk : List ℕ) (m : ℕ)
    → offset_of m + sector_size ≤ length disk
    → read_sector disk m
      ≡ some (record {
        sector_number = m;
        sector_content = take sector_size (drop (offset_of m) disk);
      })
unfolding read_sector
read_sector-inside disk m h =
    rw (le→leb (offset_of m + sector_size) (length disk) h, read_sector) refl

-- The sector's own bytes after a write, and another sector's.
write_sector-bytes :
    (disk disk' : List ℕ) (s : DiskSector)
    → length s.sector_content ≡ sector_size
    → write_sector disk s ≡ some disk'
    → take sector_size (drop (offset_of s.sector_number) disk') ≡ s.sector_content
write_sector-bytes disk disk' s h e =
    let w = write_sector-some disk disk' s h e in
    let o = offset_of s.sector_number in
    ap (λ d. take sector_size (drop o d)) (w.1)
    ∙ ap (λ k. take k (drop o (spliced disk o s.sector_content))) (sym h)
    ∙ spliced_self disk o s.sector_content (omega (arith, w.0, h))

write_sector-length :
    (disk disk' : List ℕ) (s : DiskSector)
    → length s.sector_content ≡ sector_size
    → write_sector disk s ≡ some disk'
    → length disk' ≡ length disk
write_sector-length disk disk' s h e =
    let w = write_sector-some disk disk' s h e in
    ap length (w.1)
    ∙ length-spliced disk (offset_of s.sector_number) s.sector_content (omega (arith, w.0, h))

write_sector-other_bytes :
    (disk disk' : List ℕ) (s : DiskSector) (m : ℕ)
    → length s.sector_content ≡ sector_size
    → write_sector disk s ≡ some disk'
    → s.sector_number < 2 ^ 23
    → m < 2 ^ 23
    → (m < s.sector_number) ⊎ (s.sector_number < m)
    → take sector_size (drop (offset_of m) disk') ≡ take sector_size (drop (offset_of m) disk)
write_sector-other_bytes disk disk' s m h e bs bm side =
    let w = write_sector-some disk disk' s h e in
    let b = s.sector_content in
    let fits : offset_of s.sector_number + length b ≤ length disk = omega (arith, w.0, h) in
    let os = offset_of-small s.sector_number bs in
    let om = offset_of-small m bm in
    ap (λ d. take sector_size (drop (offset_of m) d)) (w.1) ∙ elim side [
      | inl l ↦
          spliced_before disk (offset_of s.sector_number) b fits (offset_of m) sector_size
            (omega (arith, os, om, l))
      | inr g ↦ ap (take sector_size) (
          spliced_after disk (offset_of s.sector_number) b fits (offset_of m)
            (omega (arith, os, om, g, h)))
    ]

-- A sector that was written reads back as it was written.
pub read_sector-write_sector_self :
    (disk disk' : List ℕ) (s : DiskSector)
    → length s.sector_content ≡ sector_size
    → write_sector disk s ≡ some disk'
    → read_sector disk' s.sector_number ≡ some s
read_sector-write_sector_self disk disk' s h e =
    let w = write_sector-some disk disk' s h e in
    let l = write_sector-length disk disk' s h e in
    read_sector-inside disk' s.sector_number (omega (arith, w.0, l))
    ∙ ap (λ c. some (record { sector_number = s.sector_number; sector_content = c }))
        (write_sector-bytes disk disk' s h e)

-- Any other sector below number 2^23, where a byte offset still fits 32 bits, reads as before, and
-- the disk keeps its length.
pub read_sector-write_sector_ne :
    (disk disk' : List ℕ) (s : DiskSector) (m : ℕ)
    → length s.sector_content ≡ sector_size
    → write_sector disk s ≡ some disk'
    → s.sector_number < 2 ^ 23
    → m < 2 ^ 23
    → m ≢ s.sector_number
    → (read_sector disk' m ≡ read_sector disk m) × (length disk' ≡ length disk)
read_sector-write_sector_ne disk disk' s m h e bs bm ne =
    let n = write_sector-length disk disk' s h e in
    let side : (m < s.sector_number) ⊎ (s.sector_number < m) = omega arith in
    (read_sector-same disk disk' m n (write_sector-other_bytes disk disk' s m h e bs bm side), n)
