-- ===== src/Domain/Jobs/Lifecycle.antt =====
-- The states of a job between two operations, and the operations that each state admits.
use rag_anotacoes_sdd.Prelude.{
  ℕ, ◌+◌, ◌≤◌, ◌≡◌, ◌↔◌, ◌⊎◌, codes, true, Option, none, some, Uuid, Instant, seconds, arith, ok,
}
use rag_anotacoes_sdd.Text.{Text}
use rag_anotacoes_sdd.Domain.Jobs.{
  JobStatus, IndexingJob, pending, processing, retry_wait, failed, completed, pending_job,
  is_claimable, claim, fail_transient, complete, obsolete, retried,
}

abbrev IsGiven {ℓ} : {A : Type ℓ} → Option A → Type 0
IsGiven none = ⊥
IsGiven (some a) = Unit

-- How the fields of a job go with its status: a lease stands exactly beside `processing`, an end
-- exactly beside `completed`, the reason of a failure beside `retry_wait` and `failed`; every status
-- but `pending` has at least one attempt, save that a job that ended as obsolete, and says so, may
-- have none.
abbrev Fits : JobStatus → ℕ → Option Instant → Option Instant → Option Text → Type 0
Fits pending n lease ended error = (n ≡ 0) × (lease ≡ none) × (ended ≡ none) × (error ≡ none)
Fits processing n lease ended error = (1 ≤ n) × IsGiven lease × (ended ≡ none)
Fits retry_wait n lease ended error = (1 ≤ n) × (lease ≡ none) × (ended ≡ none) × IsGiven error
Fits failed n lease ended error = (1 ≤ n) × (lease ≡ none) × (ended ≡ none) × IsGiven error
Fits completed n lease ended error =
    (lease ≡ none)
    × IsGiven ended
    × (((1 ≤ n) × (error ≡ none)) ⊎ (error ≡ some (codes "obsolete")))

pub record IsValid (j : IndexingJob) : Type 0 where
  pub fits : Fits j.status j.attempt_count j.lease_expires_at j.completed_at j.last_error_code

-- The operations on a stored job.
pub data Step : IndexingJob → IndexingJob → Type 0 where
  claims : (j k : IndexingJob) (now : Instant) (lease : ℕ) → claim j now lease ≡ ok k → Step j k
  fails :
      (j k : IndexingJob) (code : Text) (now : Instant) (maximum : ℕ)
      → fail_transient j code now maximum ≡ ok k
      → Step j k
  completes : (j k : IndexingJob) (now : Instant) → complete j now ≡ ok k → Step j k
  obsoletes : (j k : IndexingJob) (now : Instant) → k ≡ obsolete j now → Step j k
  retries : (j k : IndexingJob) (now : Instant) → j.status ≡ failed → k ≡ retried j now → Step j k

pub data Reach (j : IndexingJob) : IndexingJob → Type 0 where
  here : Reach j j
  next : {k l : IndexingJob} → Reach j k → Step k l → Reach j l

pub pending_job-IsValid :
    (job_id note_id user_id : Uuid) (version : ℕ) (now : Instant)
    → IsValid (pending_job job_id note_id user_id version now)
unfolding pending_job
pending_job-IsValid job_id note_id user_id version now = ground arith

Step-IsValid : {j k : IndexingJob} → Step j k → IsValid j → IsValid k
unfolding claim fail_transient complete obsolete retried
Step-IsValid (claims j k now lease h) v = ground arith
Step-IsValid (fails j k code now maximum h) v = ground arith
Step-IsValid (completes j k now h) v = ground arith
Step-IsValid (obsoletes j k now e) v = ground arith
Step-IsValid (retries j k now f e) v = ground arith

-- Every job that claims, failed attempts, completions, retries and `obsolete` make from a pending
-- one, in any order, has fields that go with its status.
pub Reach-IsValid :
    (job_id note_id user_id : Uuid) (version : ℕ) (now : Instant) {k : IndexingJob}
    → Reach (pending_job job_id note_id user_id version now) k
    → IsValid k
Reach-IsValid job_id note_id user_id version now here =
    pending_job-IsValid job_id note_id user_id version now
Reach-IsValid job_id note_id user_id version now (next r s) =
    Step-IsValid s (Reach-IsValid job_id note_id user_id version now r)

-- No operation makes a job of another note, owner or version.
abbrev SameTask : IndexingJob → IndexingJob → Type 0
SameTask j k =
    (k.id ≡ j.id)
    × (k.note_id ≡ j.note_id)
    × (k.user_id ≡ j.user_id)
    × (k.note_version ≡ j.note_version)
    × (k.created_at ≡ j.created_at)

Step-SameTask : {j k : IndexingJob} → Step j k → SameTask j k
unfolding claim fail_transient complete obsolete retried
Step-SameTask (claims j k now lease h) = ground arith
Step-SameTask (fails j k code now maximum h) = ground arith
Step-SameTask (completes j k now h) = ground arith
Step-SameTask (obsoletes j k now e) = ground arith
Step-SameTask (retries j k now f e) = ground arith

-- A job that is completed stays completed: of the operations, only `obsolete` applies to it.
pub completed_final : {j k : IndexingJob} → j.status ≡ completed → Step j k → k.status ≡ completed
unfolding claim fail_transient complete obsolete
completed_final e (claims j k now lease h) = ground arith
completed_final e (fails j k code now maximum h) = ground arith
completed_final e (completes j k now h) = ground arith
completed_final e (obsoletes j k now p) = ground arith
completed_final e (retries j k now f p) = cc

-- A claim gives the job to one worker: another claim is possible exactly when the lease has ended.
pub claim-lease :
    (j k : IndexingJob) (now later : Instant) (lease : ℕ)
    → claim j now lease ≡ ok k
    → (is_claimable k later ≡ true) ↔ (now + seconds lease ≤ later)
unfolding claim
claim-lease j k now later lease h = (λ e. ground arith, λ e. ground arith)
