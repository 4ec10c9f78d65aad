-- ===== src/Pfs/Fat/Allocate/First.antt =====
-- The next free cluster that is found in the sector where the search starts.
use grage.Prelude.{
  ℕ, zero, suc, ◌+◌, ◌*◌, ◌<◌, ◌≤◌, true, false, some, List, ◌≡◌, refl, ap, sym, ◌∙◌, leb, arith,
}
use grage.Pfs.Volume.{Volume}
use grage.Pfs.Cache.{Store}
use grage.Pfs.Fat.{is_free, read_entry}
use grage.Pfs.Fat.Allocate.{scan}

module _ (max_count : ℕ) (v : Volume) (wide : v.bps ≡ 512) (sector_id current_free : ℕ) where
  -- The loop passes the entries that are in use and ends at the first free one, if that is in the
  -- same sector.
  pub scan-first :
      (busy left next offset sector_number : ℕ) (content : List ℕ) (s : Store)
      → busy < left
      → offset + busy * 4 + 4 ≤ 512
      → ((i : ℕ) → i < busy → is_free (read_entry content (offset + i * 4)) ≡ false)
      → is_free (read_entry content (offset + busy * 4)) ≡ true
      → scan max_count v sector_id current_free left next offset sector_number false content s
        ≡ some (some (next + busy), s)
  unfolding scan
  scan-first busy zero next offset number content s b w used free = absurd (omega arith)
  scan-first zero (suc left) next offset number content s b w used free =
      let o : offset + 0 * 4 ≡ offset = omega arith in
      let e : is_free (read_entry content offset) ≡ true =
        ap (λ k. is_free (read_entry content k)) (sym o) ∙ free in
      let n : next + 0 ≡ next = omega arith in rw (e, n) refl
  scan-first (suc busy) (suc left) next offset number content s b w used free =
      let o : offset + 0 * 4 ≡ offset = omega arith in
      let e : is_free (read_entry content offset) ≡ false =
        ap (λ k. is_free (read_entry content k)) (sym o) ∙ used 0 (omega arith) in
      let l : leb v.bps (offset + 4) ≡ false = ground (arith, wide) in
      let n : next + 1 + busy ≡ next + suc busy = omega arith in
      let p : (i : ℕ) → offset + 4 + i * 4 ≡ offset + suc i * 4 = λ i. omega arith in
      rw (e, l)
        (scan-first busy left (next + 1) (offset + 4) number content s (omega arith) (omega arith)
            (λ i h. ap (λ k. is_free (read_entry content k)) (p i) ∙ used (suc i) (omega arith))
            (ap (λ k. is_free (read_entry content k)) (p busy) ∙ free)
          ∙ ap (λ k. some (some k, s)) n)
