-- ===== src/Praid/Thread/Disconnection.antt =====
-- A disk that is gone: the jobs that read from it go to the disks that are left.
use mathlib.Core.List.Perm
use grage.Prelude.{
  ℕ, ◌<◌, Option-cases, List, [], ◌∷◌, ◌++◌, ◌≡◌, ◌≢◌, refl, ap, inl, inr, arith, Perm, length, ltb,
  ==_iff, if◌then◌else◌,
}
use grage.Commons.LinkedList.{LinkedList, word32}
use grage.Commons.LinkedList.Remove.{Lacks, remove_node_middle}
use grage.Praid.Jobs.{Job, get_reading_jobs}
use grage.Praid.Jobs.Roundtrip.{reads, get_reading_jobs_lem}
use grage.Praid.State.{State, storage_eq, remove_ppd_storage}
use grage.Praid.Balancer.{select_storage, assign_job, redistribute_jobs}
use grage.Praid.Balancer.Redistribute.{all_pending, IsAbsent, IsDistinct, redistribute_jobs-perm}
use grage.Praid.Thread.{check_if_continue_denegating_requests, process_disconnection}

remove_ppd_storage_lem :
    (s : State) (p : ℕ) (front back : List ℕ)
    → s.ppd_storages.elements ≡ front ++ (p ∷ back)
    → Lacks (storage_eq s.heap) p front
    → ((remove_ppd_storage s p).ppd_storages.elements ≡ front ++ back)
      × ((remove_ppd_storage s p).heap ≡ s.heap)
      × ((remove_ppd_storage s p).closed ≡ s.closed ++ ((s.heap p).connection ∷ []))
remove_ppd_storage_lem s p front back e l =
    let r =
      remove_node_middle (storage_eq s.heap) s.ppd_storages p front p back e ((==_iff _ _).1 refl)
        l in
    ground (arith, r)

IsAbsent-remove :
    (x p : ℕ) (front back : List ℕ) → IsAbsent x (front ++ (p ∷ back)) → IsAbsent x (front ++ back)
IsAbsent-remove x p [] back a = a.1
IsAbsent-remove x p (y ∷ front) back a = (a.0, IsAbsent-remove x p front back a.1)

pub IsDistinct-remove :
    (p : ℕ) (front back : List ℕ) → IsDistinct (front ++ (p ∷ back)) → IsDistinct (front ++ back)
IsDistinct-remove p [] back d = d.1
IsDistinct-remove p (x ∷ front) back d =
    (IsAbsent-remove x p front back d.0, IsDistinct-remove p front back d.1)

-- The heap and the list of disks are as they were after praid_ppd_checkIfContinueDenegatingRequests.
check_lem :
    (s : State) (id : ℕ)
    → let s' = check_if_continue_denegating_requests s id in
      (s'.heap ≡ s.heap) × (s'.ppd_storages ≡ s.ppd_storages)
check_lem s id = ground arith

ppd_storages-redistribute_jobs :
    (jobs : List Job) (s : State) → (redistribute_jobs jobs s).ppd_storages ≡ s.ppd_storages
unfolding redistribute_jobs
ppd_storages-redistribute_jobs [] s = refl
ppd_storages-redistribute_jobs (job ∷ jobs) s = elim (Option-cases (select_storage s)) [
  | inl e ↦ rw (e, redistribute_jobs)
  | inr (p, e) ↦
      rw (e, redistribute_jobs) (ppd_storages-redistribute_jobs jobs (assign_job s p job))
]

-- The last part of praid_ppd_processDisconnection, with the reading jobs at hand.
abbrev hand_out : List Job → ℕ → State → State
hand_out jobs size s = if ltb 0 size then redistribute_jobs jobs s else s

hand_out-perm :
    (s : State) (jobs : List Job) (size : ℕ)
    → IsDistinct s.ppd_storages.elements
    → s.ppd_storages.elements ≢ []
    → size ≡ length jobs
    → ((hand_out jobs size s).ppd_storages ≡ s.ppd_storages)
      × Perm
          (all_pending (hand_out jobs size s).heap s.ppd_storages.elements)
          (jobs ++ all_pending s.heap s.ppd_storages.elements)
hand_out-perm s [] size d n e =
    ground (arith, Perm.refl (all_pending s.heap s.ppd_storages.elements))
hand_out-perm s (job ∷ jobs) size d n e = ground (
  arith,
  redistribute_jobs-perm (job ∷ jobs) s d n,
  ppd_storages-redistribute_jobs (job ∷ jobs) s,
)

hand_out-perm_from :
    (s r : State) (jobs wanted : List Job) (size : ℕ) (ps : List ℕ)
    → jobs ≡ wanted
    → r.ppd_storages.elements ≡ ps
    → r.heap ≡ s.heap
    → IsDistinct ps
    → ps ≢ []
    → size ≡ length jobs
    → ((hand_out jobs size r).ppd_storages.elements ≡ ps)
      × Perm (all_pending (hand_out jobs size r).heap ps) (wanted ++ all_pending s.heap ps)
hand_out-perm_from s r jobs wanted size ps ej er hr d n e =
    let h = hand_out-perm r jobs size (rw er d) (rw er n) e in
    rw (← er, ← hr, ← ej) (ap (λ (l : LinkedList ℕ). l.elements) h.0, h.1)

disconnect-perm :
    (s : State) (p : ℕ) (front back : List ℕ)
    → s.ppd_storages.elements ≡ front ++ (p ∷ back)
    → IsDistinct s.ppd_storages.elements
    → Lacks (storage_eq s.heap) p front
    → front ++ back ≢ []
    → length (reads (s.heap p).pending_jobs.elements ++ reads (s.heap p).sended_jobs.elements)
      < word32
    → let q = get_reading_jobs (s.heap p).pending_jobs (s.heap p).sended_jobs in
      let s' = hand_out q.elements q.size (remove_ppd_storage s p) in
      (s'.ppd_storages.elements ≡ front ++ back)
      × Perm (all_pending s'.heap (front ++ back)) (
          (reads (s.heap p).pending_jobs.elements ++ reads (s.heap p).sended_jobs.elements)
          ++ all_pending s.heap (front ++ back))
disconnect-perm s p front back e d l n b =
    let q = get_reading_jobs (s.heap p).pending_jobs (s.heap p).sended_jobs in
    let g = get_reading_jobs_lem (s.heap p).pending_jobs (s.heap p).sended_jobs in
    let r = remove_ppd_storage_lem s p front back e l in
    hand_out-perm_from s (remove_ppd_storage s p) q.elements
      (reads (s.heap p).pending_jobs.elements ++ reads (s.heap p).sended_jobs.elements) q.size
      (front ++ back) g.0 r.0 r.1 (IsDistinct-remove p front back (rw e at d)) n
      (omega (arith, ap length g.0, g.1))

disconnect-perm_from :
    (s t : State) (p : ℕ) (front back : List ℕ)
    → t.heap ≡ s.heap
    → t.ppd_storages ≡ s.ppd_storages
    → s.ppd_storages.elements ≡ front ++ (p ∷ back)
    → IsDistinct s.ppd_storages.elements
    → Lacks (storage_eq s.heap) p front
    → front ++ back ≢ []
    → length (reads (s.heap p).pending_jobs.elements ++ reads (s.heap p).sended_jobs.elements)
      < word32
    → let q = get_reading_jobs (t.heap p).pending_jobs (t.heap p).sended_jobs in
      let s' = hand_out q.elements q.size (remove_ppd_storage t p) in
      (s'.ppd_storages.elements ≡ front ++ back)
      × Perm (all_pending s'.heap (front ++ back)) (
          (reads (s.heap p).pending_jobs.elements ++ reads (s.heap p).sended_jobs.elements)
          ++ all_pending s.heap (front ++ back))
disconnect-perm_from s t p front back ch cl e d l n b =
    rw (← ch) (disconnect-perm t p front back (rw cl e) (rw cl d) (rw ch l) n (rw ch b))

-- praid_ppd_processDisconnection takes the disk out of the cluster and gives each of its jobs that
-- read a sector, pending or sent, to exactly one of the disks that are left, which keep all that
-- they had. The conditions: each disk is listed once, no disk before it has its connection, some
-- disk is left, and the reading jobs can be counted in 32 bits.
pub process_disconnection-perm :
    (s : State) (p : ℕ) (front back : List ℕ)
    → s.ppd_storages.elements ≡ front ++ (p ∷ back)
    → IsDistinct s.ppd_storages.elements
    → Lacks (storage_eq s.heap) p front
    → front ++ back ≢ []
    → length (reads (s.heap p).pending_jobs.elements ++ reads (s.heap p).sended_jobs.elements)
      < word32
    → let s' = process_disconnection s p in
      (s'.ppd_storages.elements ≡ front ++ back)
      × Perm (all_pending s'.heap (front ++ back)) (
          (reads (s.heap p).pending_jobs.elements ++ reads (s.heap p).sended_jobs.elements)
          ++ all_pending s.heap (front ++ back))
process_disconnection-perm s p front back e d l n b =
    let c = check_lem s (s.heap p).id in
    unfold process_disconnection in
    disconnect-perm_from s (check_if_continue_denegating_requests s (s.heap p).id) p front back c.0
      c.1 e d l n b
