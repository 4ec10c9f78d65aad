-- ===== src/Pfs/Cache/Lookup.antt =====
-- The sectors of a cache by their numbers.
use grage.Prelude.{
  ℕ, true, Option, none, some, List, [], ◌∷◌, map, ◌≡◌, ◌≢◌, refl, ap, sym, ◌∙◌, ◌⊎◌, inl, inr,
  ◌==◌, ==_iff, if◌then◌else◌, leb, arith, Bool-cases,
}
use mathlib.Core.Option.{none-ne-some}
use grage.Commons.LinkedList.{find}
use grage.Pfs.Cache.{CacheSectorRecord, touch, victim}

-- The content that a list of records has for a sector.
abbrev pub lookup : ℕ → List CacheSectorRecord → Option (List ℕ)
lookup n [] = none
lookup n (r ∷ rs) =
    let rest = lookup n rs in
    if r.sector.sector_number == n then some r.sector.sector_content else rest

-- No record is for the sector.
abbrev pub IsAbsent : ℕ → List CacheSectorRecord → Type 0
IsAbsent n [] = Unit {0}
IsAbsent n (r ∷ rs) = (r.sector.sector_number ≢ n) × IsAbsent n rs

-- No two records are for one sector.
abbrev pub AreDistinct : List CacheSectorRecord → Type 0
AreDistinct [] = Unit {0}
AreDistinct (r ∷ rs) = IsAbsent r.sector.sector_number rs × AreDistinct rs

-- A record that is not marked as modified has what the device has.
abbrev pub AreClean : (ℕ → List ℕ) → List CacheSectorRecord → Type 0
AreClean device [] = Unit {0}
AreClean device (r ∷ rs) =
    ((r.modificado ≡ true) ⊎ (device r.sector.sector_number ≡ r.sector.sector_content))
    × AreClean device rs

-- What a list that registers an access keeps.
pub lookup-touch : (n : ℕ) (rs : List CacheSectorRecord) → lookup n (map touch rs) ≡ lookup n rs
lookup-touch n [] = refl
lookup-touch n (r ∷ rs) = rw (lookup-touch n rs) refl

pub IsAbsent-touch :
    (n : ℕ) (rs : List CacheSectorRecord) → IsAbsent n rs → IsAbsent n (map touch rs)
IsAbsent-touch n [] a = tt
IsAbsent-touch n (r ∷ rs) a = (a.0, IsAbsent-touch n rs a.1)

pub AreDistinct-touch : (rs : List CacheSectorRecord) → AreDistinct rs → AreDistinct (map touch rs)
AreDistinct-touch [] a = tt
AreDistinct-touch (r ∷ rs) a =
    (IsAbsent-touch r.sector.sector_number rs a.0, AreDistinct-touch rs a.1)

pub AreClean-touch :
    (device : ℕ → List ℕ) (rs : List CacheSectorRecord)
    → AreClean device rs
    → AreClean device (map touch rs)
AreClean-touch device [] a = tt
AreClean-touch device (r ∷ rs) a = (a.0, AreClean-touch device rs a.1)

-- A sector is absent exactly if it is not found.
pub lookup_absent : (n : ℕ) (rs : List CacheSectorRecord) → IsAbsent n rs → lookup n rs ≡ none
lookup_absent n [] a = refl
lookup_absent n (r ∷ rs) a = ground (arith, a.0, lookup_absent n rs a.1)

pub IsAbsent-of_none : (n : ℕ) (rs : List CacheSectorRecord) → lookup n rs ≡ none → IsAbsent n rs
IsAbsent-of_none n [] h = tt
IsAbsent-of_none n (r ∷ rs) h = elim (Bool-cases (r.sector.sector_number == n)) [
  | inl e ↦
      absurd (
        none-ne-some _
          (sym h ∙ ap (λ c. if c then some r.sector.sector_content else lookup n rs) e))
  | inr e ↦ (λ k. ground arith, IsAbsent-of_none n rs (ground (arith, h)))
]

-- What a criterion on the number finds has the content.
pub find-lookup :
    (n : ℕ) (rs : List CacheSectorRecord)
    → ((find (λ r. r.sector.sector_number == n) rs ≡ none) × (lookup n rs ≡ none))
      ⊎ ((r : CacheSectorRecord) × (find (λ r. r.sector.sector_number == n) rs ≡ some r)
          × (lookup n rs ≡ some r.sector.sector_content)
          × (r.sector.sector_number ≡ n))
unfolding find
find-lookup n [] = inl (refl, refl)
find-lookup n (r ∷ rs) = elim (Bool-cases (r.sector.sector_number == n)) [
  | inl e ↦ inr (r, rw e refl, rw e refl, (==_iff _ n).0 e)
  | inr e ↦ rw e (find-lookup n rs)
]

-- The first record is given back.
pub victim-cons : (r : CacheSectorRecord) (rs : List CacheSectorRecord) → victim (r ∷ rs) ≡ some r
unfolding victim
victim-cons r rs = let e : leb 0 r.estado ≡ true = ground arith in rw e refl
