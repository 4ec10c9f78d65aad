-- ===== src/Praid/Thread/Listener.antt =====
-- praid_ppd_thread_listener: answers, and the sent job that an answer takes away.
use grage.Prelude.{
  ℕ, ◌+◌, ◌-◌, ◌%◌, ◌^◌, none, some, List, [], ◌∷◌, ◌++◌, ◌≡◌, ◌≢◌, refl, arith, ◌==◌, ==_iff,
}
use grage.Commons.LinkedList.{LinkedList, find, get_node_by_criteria}
use grage.Commons.LinkedList.Remove.{Lacks, remove_node_middle}
use grage.Nipc.Message.{NipcMessage, op_get_sectors}
use grage.Praid.Jobs.{Job, same_sector}
use grage.Praid.State.{State}
use grage.Praid.Thread.{forget_job, listen_answer}

-- No job of the list is for the sector.
abbrev pub LacksSector : ℕ → List Job → Type 0
LacksSector sector [] = Unit {0}
LacksSector sector (j ∷ js) = (j.sector_id ≢ sector) × LacksSector sector js

find_middle :
    (sector : ℕ) (front : List Job) (job : Job) (back : List Job)
    → job.sector_id ≡ sector
    → LacksSector sector front
    → find (λ j. j.sector_id == sector) (front ++ (job ∷ back)) ≡ some job
unfolding find
find_middle sector [] job back e l = ground arith
find_middle sector (j ∷ front) job back e l =
    ground (arith, find_middle sector front job back e l.1)

find-none :
    (sector : ℕ) (js : List Job)
    → LacksSector sector js
    → find (λ j. j.sector_id == sector) js ≡ none
unfolding find
find-none sector [] l = refl
find-none sector (j ∷ js) l = ground (arith, find-none sector js l.1)

Lacks-of_sector :
    (job : Job) (js : List Job) → LacksSector job.sector_id js → Lacks same_sector job js
Lacks-of_sector job [] l = tt
Lacks-of_sector job (j ∷ js) l = (ground arith, Lacks-of_sector job js l.1)

get_node_first :
    (sended : LinkedList Job) (sector : ℕ) (front : List Job) (job : Job) (back : List Job)
    → sended.elements ≡ front ++ (job ∷ back)
    → job.sector_id ≡ sector
    → LacksSector sector front
    → get_node_by_criteria sended (λ j. j.sector_id == sector) ≡ some job
unfolding get_node_by_criteria
get_node_first sended sector front job back e k l = rw e (find_middle sector front job back k l)

-- The first sent job for the sector goes, whatever its operation.
forget_job_first :
    (sended : LinkedList Job) (sector : ℕ) (front : List Job) (job : Job) (back : List Job)
    → sended.elements ≡ front ++ (job ∷ back)
    → job.sector_id ≡ sector
    → LacksSector sector front
    → (forget_job sended sector).elements ≡ front ++ back
unfolding forget_job
forget_job_first sended sector front job back e k l =
    rw (get_node_first sended sector front job back e k l, forget_job)
      (remove_node_middle same_sector sended job front job back e ((==_iff _ _).1 refl)
        (Lacks-of_sector job front (rw k l))).1

get_node_none :
    (sended : LinkedList Job) (sector : ℕ)
    → LacksSector sector sended.elements
    → get_node_by_criteria sended (λ j. j.sector_id == sector) ≡ none
unfolding get_node_by_criteria
get_node_none sended sector l = find-none sector sended.elements l

-- With no sent job for the sector nothing goes.
pub forget_job_none :
    (sended : LinkedList Job) (sector : ℕ)
    → LacksSector sector sended.elements
    → forget_job sended sector ≡ sended
unfolding forget_job
forget_job_none sended sector l = rw (get_node_none sended sector l, forget_job)

-- The answer to a job: it goes to the PFS socket that it names, one response less is awaited, and
-- the first sent job for its sector is forgotten; the pending jobs and the other disks stay.
pub listen_answer_lem :
    (s : State) (p : ℕ) (m : NipcMessage) (front : List Job) (job : Job) (back : List Job)
    → (s.heap p).sended_jobs.elements ≡ front ++ (job ∷ back)
    → job.sector_id ≡ m.payload.disk_sector.sector_number
    → LacksSector m.payload.disk_sector.sector_number front
    → let s' = listen_answer s p m in
      (s'.sent ≡ s.sent ++ ((m.payload.pfs_socket, m) ∷ []))
      × ((s'.heap p).sended_jobs.elements ≡ front ++ back)
      × ((s'.heap p).pending_jobs ≡ (s.heap p).pending_jobs)
      × ((s'.heap p).pending_responses ≡ ((s.heap p).pending_responses + 2 ^ 16 - 1) % 2 ^ 16)
      × ((q : ℕ) → q ≢ p → s'.heap q ≡ s.heap q)
unfolding listen_answer
listen_answer_lem s p m front job back e k l = (
  ground arith,
  ground (
    arith,
    forget_job_first (s.heap p).sended_jobs m.payload.disk_sector.sector_number front job back e k
        l,
  ),
  ground arith,
  ground arith,
  λ q n. ground arith,
)

-- An answered GET stays among the sent jobs when an earlier job for its sector, such as a PUT,
-- which is never answered, is still there: the earlier one goes in its place. So the GET is still
-- handed to another disk when this one is gone.
pub forget_job-keeps_read :
    (sended : LinkedList Job) (front : List Job) (earlier : Job) (mid : List Job) (get : Job)
    (back : List Job)
    → sended.elements ≡ front ++ (earlier ∷ (mid ++ (get ∷ back)))
    → LacksSector get.sector_id front
    → earlier.sector_id ≡ get.sector_id
    → get.operation_id ≡ op_get_sectors
    → (forget_job sended get.sector_id).elements ≡ front ++ (mid ++ (get ∷ back))
forget_job-keeps_read sended front earlier mid get back e l k g =
    forget_job_first sended get.sector_id front earlier (mid ++ (get ∷ back)) e k l
