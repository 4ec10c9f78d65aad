-- ===== src/Praid/Balancer/Redistribute.antt =====
-- praid_balancer_redistributeJobs gives every job to exactly one of the disks that are left.
use mathlib.Core.List.Perm
use grage.Prelude.{
  ℕ, List, [], ◌∷◌, ◌++◌, ◌≡◌, ◌≢◌, refl, ap, sym, ◌∙◌, inl, inr, arith, Perm, length,
  length-append, perm_middle, append_assoc,
}
use grage.Commons.LinkedList.{order_always_last}
use grage.Commons.Queue.{put}
use grage.Commons.Queue.Put.{elements-put_last}
use grage.Praid.Jobs.{Job}
use grage.Praid.State.{Storage, State, update, update_self}
use grage.Praid.Balancer.{assign_job, redistribute_jobs}
use grage.Praid.Balancer.Select.{select_storage_lem, IsFirstLeast}

-- The jobs that wait for the disks of a list, disk by disk.
abbrev pub all_pending : (ℕ → Storage) → List ℕ → List Job
all_pending heap [] = []
all_pending heap (p ∷ ps) = (heap p).pending_jobs.elements ++ all_pending heap ps

-- No pointer of the list is `p`, and no two pointers of a list are the same.
abbrev pub IsAbsent : ℕ → List ℕ → Type 0
IsAbsent p [] = Unit {0}
IsAbsent p (q ∷ qs) = (q ≢ p) × IsAbsent p qs

abbrev pub IsDistinct : List ℕ → Type 0
IsDistinct [] = Unit {0}
IsDistinct (p ∷ ps) = IsAbsent p ps × IsDistinct ps

pub all_pending-update_absent :
    (heap : ℕ → Storage) (p : ℕ) (v : Storage) (ps : List ℕ)
    → IsAbsent p ps
    → all_pending (update heap p v) ps ≡ all_pending heap ps
all_pending-update_absent heap p v [] a = refl
all_pending-update_absent heap p v (q ∷ qs) a =
    ground (arith, all_pending-update_absent heap p v qs)

all_pending-append :
    (heap : ℕ → Storage) (ps qs : List ℕ)
    → all_pending heap (ps ++ qs) ≡ all_pending heap ps ++ all_pending heap qs
all_pending-append heap [] qs = refl
all_pending-append heap (p ∷ ps) qs =
    ap (◌++◌ (heap p).pending_jobs.elements) (all_pending-append heap ps qs)
    ∙ sym (append_assoc (heap p).pending_jobs.elements (all_pending heap ps) (all_pending heap qs))

IsAbsent-middle : (x p : ℕ) (front back : List ℕ) → IsAbsent x (front ++ (p ∷ back)) → x ≢ p
IsAbsent-middle x p [] back a = λ e. a.0 (sym e)
IsAbsent-middle x p (y ∷ front) back a = IsAbsent-middle x p front back a.1

IsDistinct-middle :
    (p : ℕ) (front back : List ℕ)
    → IsDistinct (front ++ (p ∷ back))
    → IsAbsent p front × IsAbsent p back
IsDistinct-middle p [] back d = (tt, d.0)
IsDistinct-middle p (x ∷ front) back d =
    let r = IsDistinct-middle p front back d.1 in ((IsAbsent-middle x p front back d.0, r.0), r.1)

all_pending-put :
    (heap : ℕ → Storage) (p : ℕ) (front back : List ℕ) (job : Job)
    → IsDistinct (front ++ (p ∷ back))
    → Perm
        (all_pending
          (update heap p
            (record (heap p) { pending_jobs = put order_always_last (heap p).pending_jobs job }))
          (front ++ (p ∷ back)))
        (job ∷ all_pending heap (front ++ (p ∷ back)))
all_pending-put heap p front back job d =
    let v = record (heap p) { pending_jobs = put order_always_last (heap p).pending_jobs job } in
    let a = IsDistinct-middle p front back d in
    rw
      (
        all_pending-append (update heap p v) front (p ∷ back),
        all_pending-append heap front (p ∷ back),
        all_pending-update_absent heap p v front a.0,
        all_pending-update_absent heap p v back a.1,
        update_self heap p v,
        elements-put_last (heap p).pending_jobs job,
        append_assoc (heap p).pending_jobs.elements (job ∷ []) (all_pending heap back),
      )
      (Perm.trans
        (Perm.append_left (all_pending heap front)
          (perm_middle (heap p).pending_jobs.elements (all_pending heap back)))
        (perm_middle (all_pending heap front)
          ((heap p).pending_jobs.elements ++ all_pending heap back)))

-- One job, given to the disk that the balancer picks.
assign_job-perm :
    (s : State) (p : ℕ) (job : Job)
    → IsDistinct s.ppd_storages.elements
    → IsFirstLeast s.heap p s.ppd_storages.elements
    → Perm
        (all_pending (assign_job s p job).heap s.ppd_storages.elements)
        (job ∷ all_pending s.heap s.ppd_storages.elements)
assign_job-perm s p job d (front, back, e, _, _) =
    rw e (all_pending-put s.heap p front back job (rw e at d))

-- With at least one disk left, praid_balancer_redistributeJobs leaves no job out and queues none
-- twice: what the disks of the list hold afterwards is what they held before and the jobs.
pub redistribute_jobs-perm :
    (jobs : List Job) (s : State)
    → IsDistinct s.ppd_storages.elements
    → s.ppd_storages.elements ≢ []
    → Perm
        (all_pending (redistribute_jobs jobs s).heap s.ppd_storages.elements)
        (jobs ++ all_pending s.heap s.ppd_storages.elements)
unfolding redistribute_jobs
redistribute_jobs-perm [] s d n = Perm.refl (all_pending s.heap s.ppd_storages.elements)
redistribute_jobs-perm (job ∷ jobs) s d n = elim (select_storage_lem s) [
  | inl (e, _) ↦ absurd (n e)
  | inr (p, e, least) ↦
      rw (e, redistribute_jobs)
        (Perm.trans (redistribute_jobs-perm jobs (assign_job s p job) d n) (
          Perm.trans (Perm.append_left jobs (assign_job-perm s p job d least))
            (perm_middle jobs (all_pending s.heap s.ppd_storages.elements))))
]

-- With no disk left, the jobs are dropped and nothing changes.
pub redistribute_jobs-no_storage :
    (jobs : List Job) (s : State) → s.ppd_storages.elements ≡ [] → redistribute_jobs jobs s ≡ s
unfolding redistribute_jobs
redistribute_jobs-no_storage [] s e = refl
redistribute_jobs-no_storage (job ∷ jobs) s e = elim (select_storage_lem s) [
  | inl (_, f) ↦ rw (f, redistribute_jobs)
  | inr (p, _, (front, back, f, _, _)) ↦
      absurd (omega (arith, ap length e, ap length f, length-append front (p ∷ back)))
]
