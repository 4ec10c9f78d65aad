-- ===== src/Ppd/Queues/Nearest.antt =====
-- With the shortest-seek strategy the queue holds the nearest jobs first.
use grage.Prelude.{
  ℕ, ◌+◌, ◌-◌, ◌*◌, ◌^◌, ◌<◌, ◌≤◌, ◌≡◌, refl, true, List, [], ◌∷◌, ◌++◌, arith, subst, sym,
}
use grage.Commons.Queue.{put}
use grage.Commons.LinkedList.{add_node}
use grage.Commons.LinkedList.Link.{insert-Inserts}
use grage.Commons.LinkedList.Order.{IsSorted, LeadsAll, IsSorted-LeadsAll}
use grage.Nipc.Message.{NipcMessage}
use grage.Ppd.Geometry.{sector_from_sector_of_cylinder}
use grage.Ppd.Jobs.{Job, build_job}
use grage.Ppd.Strategy.{sstf, is_sstf}
use grage.Ppd.Strategy.Nearest.{sstf-IsTransitive}
use grage.Ppd.Queues.{Config, State, PistaSector, current_position, put_in_queue}
use grage.Ppd.Queues.Order.{jobs_of, put_in_queue-IsSorted}

-- How many sectors lie between two.
abbrev pub gap : ℕ → ℕ → ℕ
gap a b = (a - b) + (b - a)

-- The sector under the head, which is in the sector `sector_number` of the cylinder `pista`.
abbrev pub under_head : Config → PistaSector → ℕ
under_head c head = head.pista * c.per_cylinder + head.sector_number

abbrev pub IsLess : Job → Type 0
IsLess j = j.sector_id < 2 ^ 31

abbrev pub AreLess : List Job → Type 0
AreLess [] = Unit {0}
AreLess (j ∷ js) = IsLess j × AreLess js

-- No job of a list is nearer to a sector than one.
abbrev pub IsNearest : ℕ → Job → List Job → Type 0
IsNearest here j [] = Unit {0}
IsNearest here j (k ∷ ks) = (gap here j.sector_id ≤ gap here k.sector_id) × IsNearest here j ks

-- No job is nearer to a sector than one before it.
abbrev pub IsNearestFirst : ℕ → List Job → Type 0
IsNearestFirst here [] = Unit {0}
IsNearestFirst here (j ∷ js) = IsNearest here j js × IsNearestFirst here js

-- Below 2^31 the strategy keeps the order of two jobs exactly if the first one is as near.
sstf-gap :
    (here : ℕ) (a b : Job)
    → here < 2 ^ 31
    → IsLess a
    → IsLess b
    → ((gap here a.sector_id ≤ gap here b.sector_id) → sstf here a b ≡ true)
      × (sstf here a b ≡ true → gap here a.sector_id ≤ gap here b.sector_id)
sstf-gap here a b h la lb = (λ p. ground (arith, p), λ p. ground (arith, p))

IsNearestFirst-IsSorted :
    (here : ℕ) (js : List Job)
    → here < 2 ^ 31
    → AreLess js
    → IsNearestFirst here js
    → IsSorted (sstf here) js
IsNearestFirst-IsSorted here [] h l p = tt
IsNearestFirst-IsSorted here (j ∷ []) h l p = (tt, tt)
IsNearestFirst-IsSorted here (j ∷ k ∷ ks) h (l, (m, ls)) (p, q) =
    ((sstf-gap here j k h l m).0 p.0, IsNearestFirst-IsSorted here (k ∷ ks) h (m, ls) q)

LeadsAll-IsNearest :
    (here : ℕ) (j : Job) (js : List Job)
    → here < 2 ^ 31
    → IsLess j
    → AreLess js
    → LeadsAll (sstf here) j js
    → IsNearest here j js
LeadsAll-IsNearest here j [] h l ls p = tt
LeadsAll-IsNearest here j (k ∷ ks) h l (m, ls) (p, q) =
    ((sstf-gap here j k h l m).1 p, LeadsAll-IsNearest here j ks h l ls q)

IsSorted-IsNearestFirst :
    (here : ℕ) (js : List Job)
    → here < 2 ^ 31
    → AreLess js
    → IsSorted (sstf here) js
    → IsNearestFirst here js
IsSorted-IsNearestFirst here [] h l s = tt
IsSorted-IsNearestFirst here (j ∷ js) h (l, ls) s = (
  LeadsAll-IsNearest here j js h l ls
      (IsSorted-LeadsAll (sstf here) j js (sstf-IsTransitive here) s),
  IsSorted-IsNearestFirst here js h ls s.1,
)

AreLess-insert :
    (front back : List Job) (n : Job)
    → AreLess (front ++ back)
    → IsLess n
    → AreLess (front ++ (n ∷ back))
AreLess-insert [] back n h l = (l, h)
AreLess-insert (j ∷ js) back n (m, h) l = (m, AreLess-insert js back n h l)

put-AreLess :
    (here : ℕ) (s : State) (job : Job)
    → AreLess s.jobs_queue.elements
    → IsLess job
    → AreLess (put (sstf here) s.jobs_queue job).elements
unfolding put add_node
put-AreLess here s job h l =
    let (front, back, p, q) = insert-Inserts (sstf here) job s.jobs_queue.elements in
    subst AreLess (sym q) (AreLess-insert front back job (subst AreLess p h) l)

-- With the shortest-seek strategy, and sectors below 2^31, a queue that holds the jobs that are nearest
-- to the head first does so after one more job was put, for that place of the head; the jobs of the
-- new one's sector keep their order, and it is the last of them.
pub put_in_queue-IsNearestFirst :
    (c : Config) (s : State) (mes : NipcMessage)
    → c.algorithm ≡ is_sstf
    → under_head c s.posicion_actual < 2 ^ 31
    → mes.payload.disk_sector.sector_number < 2 ^ 31
    → AreLess s.jobs_queue.elements
    → IsNearestFirst (under_head c s.posicion_actual) s.jobs_queue.elements
    → IsNearestFirst (under_head c s.posicion_actual) (put_in_queue c s mes).jobs_queue.elements
      × (jobs_of mes.payload.disk_sector.sector_number (put_in_queue c s mes).jobs_queue.elements
          ≡ jobs_of mes.payload.disk_sector.sector_number s.jobs_queue.elements
            ++ (build_job s.job_id mes ∷ []))
unfolding put_in_queue sector_from_sector_of_cylinder
put_in_queue-IsNearestFirst c s mes e b n less near =
    let here = under_head c s.posicion_actual in
    let at : current_position c s.posicion_actual ≡ here = omega (arith, b) in
    let sorted : IsSorted (sstf (current_position c s.posicion_actual)) s.jobs_queue.elements =
      subst (λ x. IsSorted (sstf x) s.jobs_queue.elements) (sym at)
        (IsNearestFirst-IsSorted here s.jobs_queue.elements b less near) in
    let (after, kept) = put_in_queue-IsSorted c s mes e sorted in
    let q : (put_in_queue c s mes).jobs_queue
        ≡ put (sstf here) s.jobs_queue (build_job s.job_id mes) =
      rw (e, at) refl in
    let all : AreLess (put_in_queue c s mes).jobs_queue.elements =
      subst (λ x. AreLess x.elements) (sym q)
        (put-AreLess here s (build_job s.job_id mes) less n) in
    (
      IsSorted-IsNearestFirst here (put_in_queue c s mes).jobs_queue.elements b all
          (subst (λ x. IsSorted (sstf x) (put_in_queue c s mes).jobs_queue.elements) at after),
      kept,
    )
