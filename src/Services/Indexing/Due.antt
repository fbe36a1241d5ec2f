-- ===== src/Services/Indexing/Due.antt =====
-- How many jobs of the queue are due, and what makes them fewer.
use rag_anotacoes_sdd.Prelude.{
  ℕ, zero, suc, ◌-◌, ◌^◌, ◌≤◌, ◌<◌, ◌≡◌, Bool, true, false, List, [], ◌∷◌, ◌++◌, if◌then◌else◌,
  Instant, arith, ok,
}
use rag_anotacoes_sdd.Text.{Text}
use rag_anotacoes_sdd.Domain.Jobs.{IndexingJob, complete, fail_transient}
use rag_anotacoes_sdd.Persistence.Tables.{IndexingJobRecord, update_where}
use rag_anotacoes_sdd.Persistence.Jobs.{is_due, claimed_row}

-- How many jobs are due.
unfoldable pub due_jobs : Instant → List IndexingJobRecord → ℕ
due_jobs now [] = 0
due_jobs now (j ∷ js) = if is_due now j then suc (due_jobs now js) else due_jobs now js

-- Rows that are replaced by one that is not due are due no more.
pub due_jobs-update_where :
    (now : Instant) (p : IndexingJobRecord → Bool) (f : IndexingJobRecord → IndexingJobRecord)
    (js : List IndexingJobRecord)
    → ((j : IndexingJobRecord) → is_due now (f j) ≡ false)
    → due_jobs now (update_where p f js) ≤ due_jobs now js
unfolding due_jobs update_where
due_jobs-update_where now p f [] h = ground arith
due_jobs-update_where now p f (j ∷ js) h = ground (arith, h j, due_jobs-update_where now p f js h)

-- Where one of them was due, they are fewer.
pub due_jobs_fewer :
    (now : Instant) (p : IndexingJobRecord → Bool) (f : IndexingJobRecord → IndexingJobRecord)
    (before : List IndexingJobRecord) (r : IndexingJobRecord) (after : List IndexingJobRecord)
    → ((j : IndexingJobRecord) → is_due now (f j) ≡ false)
    → p r ≡ true
    → is_due now r ≡ true
    → due_jobs now (update_where p f (before ++ r ∷ after)) < due_jobs now (before ++ r ∷ after)
unfolding due_jobs update_where
due_jobs_fewer now p f [] r after h e d =
    ground (arith, h r, e, d, due_jobs-update_where now p f after h)
due_jobs_fewer now p f (j ∷ js) r after h e d =
    ground (arith, h j, due_jobs_fewer now p f js r after h e d)

pub claimed_row-not_due :
    (now : Instant) (lease_seconds : ℕ) (r : IndexingJobRecord)
    → 1 ≤ lease_seconds
    → is_due now (claimed_row now lease_seconds r) ≡ false
unfolding is_due claimed_row
claimed_row-not_due now lease_seconds r h = ground arith

pub complete-not_due :
    (now later : Instant) (job after : IndexingJob)
    → complete job later ≡ ok after
    → is_due now after ≡ false
unfolding complete is_due
complete-not_due now later job after h = ground arith

power_positive : (n : ℕ) → 1 ≤ 2 ^ n
power_positive zero = ground arith
power_positive (suc n) = (let h = power_positive n in ground (arith, h))

pub fail_transient-not_due :
    (now later : Instant) (job after : IndexingJob) (code : Text) (n : ℕ)
    → now ≤ later
    → fail_transient job code later n ≡ ok after
    → is_due now after ≡ false
unfolding fail_transient is_due
fail_transient-not_due now later job after code n l h =
    let waits = power_positive (job.attempt_count - 1) in ground (arith, waits)
