-- ===== src/Ppd/Queues/Order.antt =====
-- What the planned queue holds, and in which order.
use grage.Prelude.{ℕ, true, false, List, [], ◌∷◌, ◌++◌, ◌≡◌, refl, ◌==◌, ==_iff, arith, ltb}
use grage.Commons.Queue.{put}
use grage.Commons.LinkedList.{add_node}
use grage.Commons.LinkedList.Order.{IsSorted, LeadsAll, IsSorted-LeadsAll, add_node-IsSorted}
use grage.Commons.LinkedList.Stable.{select, select-insert}
use grage.Commons.LinkedList.Link.{insert-before_two}
use grage.Nipc.Message.{NipcMessage}
use grage.Ppd.Jobs.{Job, build_job}
use grage.Ppd.Strategy.{distance, sstf, is_sstf}
use grage.Ppd.Strategy.Nearest.{strategy-IsTotal, sstf-IsTransitive}
use grage.Ppd.Queues.{Config, State, current_position, put_in_queue}

-- The jobs of a sector, in the order of the queue.
abbrev pub jobs_of : ℕ → List Job → List Job
jobs_of sector = select (λ j. j.sector_id == sector)

same_distance : (current : ℕ) (a b : Job) → a.sector_id ≡ b.sector_id → sstf current a b ≡ true
same_distance current a b h =
    let e : distance current a ≡ distance current b = rw h refl in ground (arith, e)

refuses :
    (current : ℕ) (a b : Job)
    → ltb (distance current b) (distance current a) ≡ true
    → sstf current a b ≡ false
refuses current a b h = rw h refl

-- With the shortest-seek strategy and a queue in order for where the head is now, a new job leaves
-- the queue in that order, behind every queued job for its own sector.
pub put_in_queue-IsSorted :
    (c : Config) (s : State) (mes : NipcMessage)
    → c.algorithm ≡ is_sstf
    → IsSorted (sstf (current_position c s.posicion_actual)) s.jobs_queue.elements
    → IsSorted
        (sstf (current_position c s.posicion_actual))
        (put_in_queue c s mes).jobs_queue.elements
      × (jobs_of mes.payload.disk_sector.sector_number (put_in_queue c s mes).jobs_queue.elements
          ≡ jobs_of mes.payload.disk_sector.sector_number s.jobs_queue.elements
            ++ (build_job s.job_id mes ∷ []))
unfolding put_in_queue put add_node
put_in_queue-IsSorted c s mes e h =
    let current = current_position c s.posicion_actual in
    let job = build_job s.job_id mes in
    let n = mes.payload.disk_sector.sector_number in
    rw e (
      add_node-IsSorted (sstf current) s.jobs_queue job (strategy-IsTotal is_sstf current) h,
      select-insert (sstf current) (λ j. j.sector_id == n) job (sstf-IsTransitive current)
          (ground (arith, ==_iff n n))
          (λ x k. same_distance current x job (ground (arith, ==_iff x.sector_id n, k)))
          s.jobs_queue.elements h,
    )

-- Of a queue in order, the job that is served first is a nearest one.
pub first_IsNearest :
    (current : ℕ) (j : Job) (js : List Job)
    → IsSorted (sstf current) (j ∷ js)
    → LeadsAll (sstf current) j js
first_IsNearest current j js h = IsSorted-LeadsAll (sstf current) j js (sstf-IsTransitive current) h

-- The order of a queue is that of where the head was when each job came. A job that is nearer to
-- the head than the first two of the queue becomes the first, whatever stands further behind: a
-- job for the same sector too.
pub put_in_queue-overtakes :
    (c : Config) (s : State) (mes : NipcMessage) (x y : Job) (rest : List Job)
    → c.algorithm ≡ is_sstf
    → s.jobs_queue.elements ≡ x ∷ y ∷ rest
    → ltb
        (distance (current_position c s.posicion_actual) (build_job s.job_id mes))
        (distance (current_position c s.posicion_actual) x)
      ≡ true
    → ltb
        (distance (current_position c s.posicion_actual) (build_job s.job_id mes))
        (distance (current_position c s.posicion_actual) y)
      ≡ true
    → (put_in_queue c s mes).jobs_queue.elements ≡ build_job s.job_id mes ∷ x ∷ y ∷ rest
unfolding put_in_queue put add_node
put_in_queue-overtakes c s mes x y rest e q nx ny =
    let current = current_position c s.posicion_actual in
    let job = build_job s.job_id mes in
    rw (e, q)
      (insert-before_two (sstf current) job x y rest (refuses current x job nx)
        (refuses current y job ny))
