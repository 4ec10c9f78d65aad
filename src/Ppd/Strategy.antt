-- ===== src/Ppd/Strategy.antt =====
-- grage-ppd/app/src/planifier/ppd-algorythm-strategy.c: which of two jobs is served first, with
-- the head of the disk at the sector `current`.
pub mod Nearest
use grage.Prelude.{ℕ, ◌+◌, ◌-◌, ◌%◌, ◌^◌, Bool, true, false, ltb, leb, ◌&&◌, if◌then◌else◌, not}
use grage.Ppd.Jobs.{Job}

-- `abs` of a 32-bit word read as an `int`; C leaves the pattern 2^31 undefined.
abbrev pub abs32 : ℕ → ℕ
abs32 w = if ltb w (2 ^ 31) then w else 2 ^ 32 - w

-- `abs(currentPossition - sectorId)`
abbrev pub distance : ℕ → Job → ℕ
distance current job = abs32 ((current + 2 ^ 32 - job.sector_id) % 2 ^ 32)

-- ppd_alg_planif_strategy_sstf
abbrev pub sstf : ℕ → Job → Job → Bool
sstf current old new = if ltb (distance current new) (distance current old) then false else true

-- ppd_alg_planif_strategy_look
abbrev pub look : ℕ → Job → Job → Bool
look current old new =
    if ltb (distance current new) (distance current old) && leb current new.sector_id
    then false
    else true

-- The two values of the configured algorithm for which ppd_queues_initialize makes a queue.
pub data Algorithm : Type 0 where
  is_look : Algorithm
  is_sstf : Algorithm

-- The sorting criterion of the queue that ppd_queues_initialize makes.
abbrev pub strategy : Algorithm → ℕ → Job → Job → Bool
strategy is_look = look
strategy is_sstf = sstf
