-- ===== src/Services/Indexing/Progress.antt =====
-- The worker makes progress: a turn that ends without an exception leaves fewer due jobs.
use rag_anotacoes_sdd.Prelude.{
  ℕ, ◌≤◌, ◌<◌, ◌≡◌, refl, sym, ap, ◌∙◌, ◌⊎◌, inl, inr, Bool, true, false, ◌&&◌, Option, none, some,
  List, [], ◌∷◌, All, ◌==◌, Instant, arith, Result, ok,
}
use rag_anotacoes_sdd.Domain.Jobs.{IndexingJob, default_maximum_attempts}
use rag_anotacoes_sdd.Persistence.Tables.{Tables, IndexingJobRecord}
use rag_anotacoes_sdd.Persistence.Transactions.{Db, is_owner, then_inversion, transaction_ok, ◌>>=◌}
use rag_anotacoes_sdd.Persistence.Jobs.{is_due, claimed_row, claim_indexing_job}
use rag_anotacoes_sdd.Persistence.Jobs.Claims.{
  claim_indexing_job-Claims, claim_indexing_job-none_iff,
}
use rag_anotacoes_sdd.Services.Indexing.{Ports, process, process_claimed, run_once}
use rag_anotacoes_sdd.Services.Indexing.Due.{
  due_jobs, due_jobs-update_where, due_jobs_fewer, claimed_row-not_due, complete-not_due,
  fail_transient-not_due,
}
use rag_anotacoes_sdd.Services.Indexing.Changes.{Relation, IsPreorder, Changes, Kept}
use rag_anotacoes_sdd.Services.Indexing.Turns.{process-Changes}

pub none_due :
    (now : Instant) (js : List IndexingJobRecord)
    → All (λ k. is_due now k ≡ false) js
    → due_jobs now js ≡ 0
unfolding due_jobs
none_due now [] h = refl
none_due now (j ∷ js) h = (let e = h.0 in ground (arith, e, none_due now js h.1))

-- The state in which a transaction begins.
abbrev pub begun : Tables → Db
begun t = record { tables = t; current_user = none }

claimed_fewer :
    (now : Instant) (lease_seconds : ℕ) (t : Tables) (job : IndexingJob) (db : Db)
    → 1 ≤ lease_seconds
    → claim_indexing_job now lease_seconds (begun t) ≡ (ok (some job), db)
    → due_jobs now db.jobs < due_jobs now t.jobs
claimed_fewer now lease_seconds t job db l h =
    let (r, (due, (before, after, at), _), _, tables) =
      claim_indexing_job-Claims now lease_seconds (begun t) h in
    let fewer =
      due_jobs_fewer now (λ j. j.id == r.id) (claimed_row now lease_seconds) before r after
        (λ j. claimed_row-not_due now lease_seconds j l) (ground arith) due in
    rw tables (rw (sym at) at fewer)

-- Jobs of which no more are due.
abbrev NoMoreDue : Instant → Relation
NoMoreDue now js js' = due_jobs now js' ≤ due_jobs now js

NoMoreDue-IsPreorder : (now : Instant) → IsPreorder (NoMoreDue now)
NoMoreDue-IsPreorder now = record {
  same = λ js. ground arith;
  both = λ a b c h k. ground (arith, h, k);
}

process-NoMoreDue :
    (p : Ports) (now later : Instant) (job : IndexingJob)
    → now ≤ later
    → Changes (NoMoreDue now) (process p later job)
process-NoMoreDue p now later job l =
    process-Changes (NoMoreDue now) (NoMoreDue-IsPreorder now) later job
      (λ after e. kept after (complete-not_due now later job after e))
      (λ code after e.
        kept after (fail_transient-not_due now later job after code default_maximum_attempts l e))
      p
  where
    kept : (after : IndexingJob) → is_due now after ≡ false → Kept (NoMoreDue now) after
    kept after e user js =
        due_jobs-update_where now (λ k. k.id == after.id && is_owner user k.user_id) (λ _. after) js
          (λ _. e)

turn :
    (p : Ports) (now : Instant) (lease_seconds : ℕ) (t : Tables) (a : Option IndexingJob)
    (middle : Db) (b : Bool) (db : Db)
    → 1 ≤ lease_seconds
    → now ≤ p.clock
    → claim_indexing_job now lease_seconds (begun t) ≡ (ok a, middle)
    → ◌≡◌ {A = Result Bool × Db} (process_claimed p p.clock a middle) (ok b, db)
    → (due_jobs now db.jobs < due_jobs now t.jobs)
      ⊎ ((due_jobs now t.jobs ≡ 0) × (db.tables ≡ t) × (b ≡ false))
turn p now lease_seconds t none middle b db l order e e' =
    let (idle, same) = (claim_indexing_job-none_iff now lease_seconds (begun t)).0 middle e in
    let end : db ≡ middle = ground (arith, e') in
    inr (none_due now t.jobs idle, ap (λ d. d.tables) (end ∙ same), ground (arith, e'))
turn p now lease_seconds t (some job) middle b db l order e e' =
    let fewer = claimed_fewer now lease_seconds t job middle l e in
    let calm = (process-NoMoreDue p now p.clock job order).run middle e' in
    inl (ground (arith, fewer, calm))

-- A turn of the worker over the SQL claim that ends without an exception leaves fewer jobs due at
-- its instant, whether it publishes, fails or drops the job; or no job was due, and it changes
-- nothing. The lease must not be empty, and the service must not read an earlier time than the
-- claim.
pub run_once-due_jobs :
    (p : Ports) (now : Instant) (lease_seconds : ℕ) (t : Tables) {b : Bool} {t' : Tables}
    → 1 ≤ lease_seconds
    → now ≤ p.clock
    → run_once p now true lease_seconds t ≡ (ok b, t')
    → (due_jobs now t'.jobs < due_jobs now t.jobs)
      ⊎ ((due_jobs now t.jobs ≡ 0) × (t' ≡ t) × (b ≡ false))
unfolding run_once
run_once-due_jobs p now lease_seconds t {b} {t'} l order h =
    let (db, e, stored) =
      transaction_ok (claim_indexing_job now lease_seconds >>= process_claimed p p.clock) t h in
    let (a, middle, e', e'') =
      then_inversion (claim_indexing_job now lease_seconds) (process_claimed p p.clock) (begun t)
        e in
    rw stored (turn p now lease_seconds t a middle b db l order e' e'')
