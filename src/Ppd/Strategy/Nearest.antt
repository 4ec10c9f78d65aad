-- ===== src/Ppd/Strategy/Nearest.antt =====
-- The order of the strategies, and what the shortest-seek strategy serves first.
use grage.Prelude.{ℕ, ◌-◌, ◌^◌, ◌<◌, ◌≡◌, leb, arith, if◌then◌else◌}
use grage.Commons.LinkedList.Order.{IsTotal, IsTransitive}
use grage.Ppd.Jobs.{Job}
use grage.Ppd.Strategy.{distance, sstf, Algorithm, is_look, is_sstf, strategy}

-- Of two jobs, a strategy accepts at least one order.
pub strategy-IsTotal : (a : Algorithm) (current : ℕ) → IsTotal (strategy a current)
strategy-IsTotal is_look current x y h = ground arith
strategy-IsTotal is_sstf current x y h = ground arith

pub sstf-IsTransitive : (current : ℕ) → IsTransitive (sstf current)
sstf-IsTransitive current x y z h k = ground arith

-- For sector numbers below 2^31 the distance is how far the head has to move.
pub distance_lem :
    (current : ℕ) (job : Job)
    → current < 2 ^ 31
    → job.sector_id < 2 ^ 31
    → distance current job
      ≡ (if leb current job.sector_id then job.sector_id - current else current - job.sector_id)
distance_lem current job h k = ground arith
