-- ===== src/Praid/Balancer.antt =====
-- grage-praid/app/src/core/praid-balancer.c: which disk gets a job, and what becomes of the jobs of
-- a disk that is gone.
pub mod Select
pub mod Redistribute
use grage.Prelude.{
  ℕ, ◌+◌, ◌*◌, ◌%◌, ◌^◌, Bool, true, false, Option, none, some, List, [], ◌∷◌, ◌==◌, ◌||◌, ltb,
  if◌then◌else◌,
}
use grage.Commons.LinkedList.{order_always_last}
use grage.Commons.Queue.{put}
use grage.Praid.Jobs.{Job}
use grage.Praid.State.{Storage, State, write}

-- praid_balancer_storageRanking, whose queues are never NULL.
abbrev pub storage_ranking : Storage → ℕ
storage_ranking s = (s.pending_jobs.size * 2 + s.pending_responses * 1) % 2 ^ 32

-- `selected == NULL`
abbrev pub is_none {ℓ} : {A : Type ℓ} → Option A → Bool
is_none none = true
is_none (some a) = false

-- The loop of praid_balancer_selectStorage, from the storages still to visit.
unfoldable pub select : (ℕ → Storage) → List ℕ → ℕ → Option ℕ → Option ℕ
select heap [] minimum selected = selected
select heap (p ∷ ps) minimum selected =
    let ranking = storage_ranking (heap p) in
    elim (is_none selected || ltb ranking minimum) [
      | true ↦ elim (ranking == 0) [ true ↦ some p | false ↦ select heap ps ranking (some p) ]
      | false ↦ select heap ps minimum selected
    ]

-- praid_balancer_selectStorage
unfoldable pub select_storage : State → Option ℕ
unfolding select
select_storage s = select s.heap s.ppd_storages.elements 0 none

-- praid_balancer_assignJob
abbrev pub assign_job : State → ℕ → Job → State
assign_job s p job =
    write s p
      (record (s.heap p) { pending_jobs = put order_always_last (s.heap p).pending_jobs job })

-- praid_balancer_redistributeJobs, over the jobs that its iterator visits.
unfoldable pub redistribute_jobs : List Job → State → State
redistribute_jobs [] s = s
redistribute_jobs (job ∷ jobs) s = elim (select_storage s) [
  | none ↦ s
  | some best ↦ redistribute_jobs jobs (assign_job s best job)
]
