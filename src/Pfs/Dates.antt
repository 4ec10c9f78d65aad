-- ===== src/Pfs/Dates.antt =====
-- pfs_fat32_utils_fillTime, pfs_fat32_utils_getTime and pfs_fat32_utils_processTime of
-- grage-pfs/app/src/core/pfs-fat-utils.c. The C library's localtime_r and mktime, which turn a time
-- into a Tm and back, are not modelled: the functions take and give the Tm.
use grage.Prelude.{ℕ, ◌+◌, ◌-◌, ◌*◌, ◌/◌, ◌%◌, ◌^◌, ◌<◌, ◌≤◌, ◌≡◌, arith}

-- struct tm; a negative month is its 32-bit pattern.
pub record Tm : Type 0 where
  pub sec : ℕ
  pub min : ℕ
  pub hour : ℕ
  pub mday : ℕ
  pub mon : ℕ
  pub year : ℕ

-- pfs_fat32_utils_fillTime: the date and the time, of 16 bits. Each `|` joins a word with bits that
-- it does not have.
unfoldable pub fill_time : Tm → ℕ × ℕ
fill_time t = (
  ((t.mday % 2 ^ 5 + (t.mon + 1) * 2 ^ 5) % 2 ^ 9 + ((t.year + 2 ^ 16 - 80) % 2 ^ 16) * 2 ^ 9)
      % 2 ^ 16,
  ((((t.sec / 2) % 2 ^ 5 + t.min * 2 ^ 5) % 2 ^ 16) % 2 ^ 11 + t.hour * 2 ^ 11) % 2 ^ 16,
)

-- pfs_fat32_utils_processTime, up to its call of mktime
unfoldable pub process_time : ℕ → ℕ → ℕ → ℕ → ℕ → ℕ → Tm
process_time s m h d mo y = record {
  sec = s;
  min = m;
  hour = h;
  mday = d;
  mon = (mo + 2 ^ 32 - 1) % 2 ^ 32;
  year = y;
}

-- pfs_fat32_utils_getTime, from the date and the time of an entry
unfoldable pub get_time : ℕ × ℕ → Tm
get_time (date, time) =
    process_time (((time % 256) % 2 ^ 5) * 2)
      (((time / 256) % 2 ^ 3) * 2 ^ 3 + (time % 256) / 2 ^ 5) ((time / 256) / 2 ^ 3)
      ((date % 256) % 2 ^ 5) (((date / 256) % 2) * 2 ^ 3 + (date % 256) / 2 ^ 5)
      ((date / 256) / 2 + 80)

-- The fields of a Tm are in their ranges, from 1980 to 2107.
abbrev pub IsTm : Tm → Type 0
IsTm t =
    (t.sec < 60)
    × (t.min < 60)
    × (t.hour < 24)
    × (t.mday < 32)
    × (t.mon < 12)
    × (80 ≤ t.year)
    × (t.year < 208)

Tm-cong :
    {s m h d o y s' m' h' d' o' y' : ℕ}
    → s ≡ s'
    → m ≡ m'
    → h ≡ h'
    → d ≡ d'
    → o ≡ o'
    → y ≡ y'
    → ◌≡◌ {A = Tm}
        (record { sec = s; min = m; hour = h; mday = d; mon = o; year = y })
        (record { sec = s'; min = m'; hour = h'; mday = d'; mon = o'; year = y' })
Tm-cong e1 e2 e3 e4 e5 e6 = cc

-- The last change of a file reads back as it was written, down to two seconds.
pub get_time-fill_time :
    (t : Tm) → IsTm t → get_time (fill_time t) ≡ record t { sec = t.sec / 2 * 2 }
unfolding get_time fill_time process_time
get_time-fill_time t (s, m, h, d, o, y, z) =
    Tm-cong (omega arith) (omega arith) (omega arith) (omega arith) (omega arith) (omega arith)
