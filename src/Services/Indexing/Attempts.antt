-- ===== src/Services/Indexing/Attempts.antt =====
-- The attempts that the jobs of the queue have left, which every turn of the worker that finds a
-- due job makes fewer, whatever its outcome and whatever the clock reads.
use mathlib.Core.Path.{subst}
use rag_anotacoes_sdd.Prelude.{
  ℕ, ◌+◌, ◌-◌, ◌≤◌, ◌<◌, ◌≡◌, ◌≢◌, refl, sym, ◌∙◌, ◌⊎◌, inl, inr, Bool, true, Option, none, some,
  List, [], ◌∷◌, ◌++◌, All, map, ◌==◌, Uuid, Instant, arith, Result, ok, select,
}
use rag_anotacoes_sdd.Text.{Text}
use rag_anotacoes_sdd.Domain.Jobs.{
  IndexingJob, complete, claim, fail_transient, default_maximum_attempts,
}
use rag_anotacoes_sdd.Persistence.Tables.{Tables, IndexingJobRecord, update_where}
use rag_anotacoes_sdd.Persistence.Transactions.{Db, then_inversion, transaction_ok, ◌>>=◌}
use rag_anotacoes_sdd.Persistence.Jobs.{
  is_due, earliest, claimed_row, update_claimed, claim_indexing_job,
}
use rag_anotacoes_sdd.Persistence.Jobs.Claims.{
  claim_indexing_job-Claims, claim_indexing_job-none_iff,
}
use rag_anotacoes_sdd.Services.Indexing.{Ports, process, process_claimed, run_once}
use rag_anotacoes_sdd.Services.Indexing.Due.{due_jobs}
use rag_anotacoes_sdd.Services.Indexing.Progress.{none_due, begun}
use rag_anotacoes_sdd.Services.Indexing.Changes.{Relation, IsPreorder, Changes, Kept}
use rag_anotacoes_sdd.Services.Indexing.Turns.{process-Changes}

-- Five attempts for each job, less those that it has counted.
unfoldable pub attempts_left : List IndexingJobRecord → ℕ
attempts_left [] = 0
attempts_left (j ∷ js) = (5 - j.attempt_count) + attempts_left js

abbrev id_of : IndexingJobRecord → Uuid
id_of j = j.id

-- No two of the identifiers are the same.
abbrev pub AreApart : List Uuid → Type 0
AreApart [] = Unit
AreApart (a ∷ ids) = All (λ b. b ≢ a) ids × AreApart ids

-- No two jobs have the same identifier, which is the table's primary key.
abbrev pub HaveKeys : List IndexingJobRecord → Type 0
HaveKeys js = AreApart (map id_of js)

-- The rows with this identifier have counted so many attempts.
abbrev Counted : Uuid → ℕ → List IndexingJobRecord → Type 0
Counted id n [] = Unit
Counted id n (j ∷ js) = (j.id ≡ id → j.attempt_count ≡ n) × Counted id n js

others-Counted :
    (id : Uuid) (n : ℕ) (js : List IndexingJobRecord)
    → All (λ b. b ≢ id) (map id_of js)
    → Counted id n js
others-Counted id n [] h = tt
others-Counted id n (j ∷ js) h = (λ e. absurd (h.0 e), others-Counted id n js h.1)

apart_middle :
    (id : Uuid) (before : List IndexingJobRecord) (r : IndexingJobRecord)
    (after : List IndexingJobRecord)
    → All (λ b. b ≢ id) (map id_of (before ++ r ∷ after))
    → r.id ≢ id
apart_middle id [] r after h = h.0
apart_middle id (b ∷ before) r after h = apart_middle id before r after h.1

-- Only one row has the identifier of a row.
HaveKeys-Counted :
    (before : List IndexingJobRecord) (r : IndexingJobRecord) (after : List IndexingJobRecord)
    → HaveKeys (before ++ r ∷ after)
    → Counted r.id r.attempt_count (before ++ r ∷ after)
HaveKeys-Counted [] r after h = (λ e. refl, others-Counted r.id r.attempt_count after h.0)
HaveKeys-Counted (b ∷ before) r after h = (
  λ e. absurd (apart_middle b.id before r after h.0 (sym e)),
  HaveKeys-Counted before r after h.1,
)

module _ (now : Instant) (lease_seconds : ℕ) (id : Uuid) where
  abbrev after_claim : List IndexingJobRecord → List IndexingJobRecord
  after_claim js = update_where (λ j. j.id == id) (claimed_row now lease_seconds) js

  ids-after_claim : (js : List IndexingJobRecord) → map id_of (after_claim js) ≡ map id_of js
  unfolding update_where claimed_row
  ids-after_claim [] = refl
  ids-after_claim (j ∷ js) = ground (arith, ids-after_claim js)

  Counted-after_claim :
      (n : ℕ) (js : List IndexingJobRecord) → Counted id n js → Counted id (n + 1) (after_claim js)
  unfolding update_where claimed_row
  Counted-after_claim n [] h = tt
  Counted-after_claim n (j ∷ js) h = (λ e. ground (arith, h.0), Counted-after_claim n js h.1)

  left-after_claim :
      (js : List IndexingJobRecord) → attempts_left (after_claim js) ≤ attempts_left js
  unfolding update_where claimed_row attempts_left
  left-after_claim [] = ground arith
  left-after_claim (j ∷ js) = ground (arith, left-after_claim js)

  left_fewer :
      (before : List IndexingJobRecord) (r : IndexingJobRecord) (after : List IndexingJobRecord)
      → r.id ≡ id
      → r.attempt_count < 5
      → attempts_left (after_claim (before ++ r ∷ after)) < attempts_left (before ++ r ∷ after)
  unfolding update_where claimed_row attempts_left
  left_fewer [] r after e l = ground (arith, left-after_claim after)
  left_fewer (b ∷ before) r after e l = ground (arith, left_fewer before r after e l)

-- What processing a job that has counted `n` attempts leaves: the identifiers and the attempts.
abbrev Steady : Uuid → ℕ → Relation
Steady id n js js' =
    Counted id n js
    → Counted id n js' × (attempts_left js' ≡ attempts_left js) × (map id_of js' ≡ map id_of js)

Steady-IsPreorder : (id : Uuid) (n : ℕ) → IsPreorder (Steady id n)
Steady-IsPreorder id n = record {
  same = λ js c. (c, refl, refl);
  both = λ x y z h k c. let (c', e, i) = h c in let (c'', e', i') = k c' in (c'', e' ∙ e, i' ∙ i);
}

Steady-Kept :
    (job after : IndexingJob)
    → after.id ≡ job.id
    → after.attempt_count ≡ job.attempt_count
    → Kept (Steady job.id job.attempt_count) after
unfolding update_where attempts_left
Steady-Kept job after same counted user [] c = (tt, refl, refl)
Steady-Kept job after same counted user (j ∷ js) c =
    let (c', e, i) = Steady-Kept job after same counted user js c.1 in
    ((λ e. ground (arith, c.0), c'), ground (arith, e, c.0), ground (arith, i))

complete-same :
    (job after : IndexingJob) (now : Instant)
    → complete job now ≡ ok after
    → (after.id ≡ job.id) × (after.attempt_count ≡ job.attempt_count)
unfolding complete
complete-same job after now h = (ground arith, ground arith)

fail_transient-same :
    (job after : IndexingJob) (code : Text) (now : Instant)
    → fail_transient job code now default_maximum_attempts ≡ ok after
    → (after.id ≡ job.id) × (after.attempt_count ≡ job.attempt_count)
unfolding fail_transient
fail_transient-same job after code now h = (ground arith, ground arith)

process-Steady :
    (p : Ports) (later : Instant) (job : IndexingJob)
    → Changes (Steady job.id job.attempt_count) (process p later job)
process-Steady p later job =
    process-Changes (Steady job.id job.attempt_count) (Steady-IsPreorder job.id job.attempt_count)
      later job
      (λ after e. let (a, b) = complete-same job after later e in Steady-Kept job after a b)
      (λ code after e.
        let (a, b) = fail_transient-same job after code later e in Steady-Kept job after a b)
      p

update_claimed-capped :
    (now : Instant) (lease_seconds : ℕ) (o : Option IndexingJobRecord) (db : Db) {job : IndexingJob}
    {db' : Db}
    → ◌≡◌ {A = Result (Option IndexingJob) × Db}
        (update_claimed now lease_seconds o db)
        (ok (some job), db')
    → job.attempt_count ≤ 5
update_claimed-capped now lease_seconds none db h = cc
update_claimed-capped now lease_seconds (some r) db h = ground arith

claim_indexing_job-capped :
    (now : Instant) (lease_seconds : ℕ) (db : Db) {job : IndexingJob} {db' : Db}
    → claim_indexing_job now lease_seconds db ≡ (ok (some job), db')
    → job.attempt_count ≤ 5
unfolding claim_indexing_job
claim_indexing_job-capped now lease_seconds db h =
    update_claimed-capped now lease_seconds (earliest (select (is_due now) db.jobs)) db h

claim-same :
    (r job : IndexingJob) (now : Instant) (lease_seconds : ℕ)
    → claim r now lease_seconds ≡ ok job
    → (job.id ≡ r.id) × (job.attempt_count ≡ r.attempt_count + 1)
unfolding claim
claim-same r job now lease_seconds h = (ground arith, ground arith)

-- What a claim leaves.
record IsClaimed (t : Tables) (job : IndexingJob) (js : List IndexingJobRecord) : Type 0 where
  keys : HaveKeys js
  fewer : attempts_left js < attempts_left t.jobs
  counted : Counted job.id job.attempt_count js

claimed_at :
    (now : Instant) (lease_seconds : ℕ) (t : Tables) (job : IndexingJob)
    (before : List IndexingJobRecord) (r : IndexingJobRecord) (after : List IndexingJobRecord)
    → HaveKeys (before ++ r ∷ after)
    → t.jobs ≡ before ++ r ∷ after
    → job.id ≡ r.id
    → job.attempt_count ≡ r.attempt_count + 1
    → job.attempt_count ≤ 5
    → IsClaimed t job (after_claim now lease_seconds r.id (before ++ r ∷ after))
claimed_at now lease_seconds t job before r after keys at same counted cap = record {
  keys = rw (ids-after_claim now lease_seconds r.id (before ++ r ∷ after)) keys;
  fewer =
      rw at (left_fewer now lease_seconds r.id before r after refl (omega (arith, counted, cap)));
  counted =
      rw (same, counted)
        (Counted-after_claim now lease_seconds r.id r.attempt_count (before ++ r ∷ after)
          (HaveKeys-Counted before r after keys));
}

claim_indexing_job-IsClaimed :
    (now : Instant) (lease_seconds : ℕ) (t : Tables) (job : IndexingJob) (db : Db)
    → HaveKeys t.jobs
    → claim_indexing_job now lease_seconds (begun t) ≡ (ok (some job), db)
    → IsClaimed t job db.jobs
claim_indexing_job-IsClaimed now lease_seconds t job db keys h =
    let (r, (due, (before, after, at), _), claimed, tables) =
      claim_indexing_job-Claims now lease_seconds (begun t) h in
    let (same, counted) = claim-same r job now lease_seconds claimed in
    let cap = claim_indexing_job-capped now lease_seconds (begun t) h in
    let split =
      claimed_at now lease_seconds t job before r after (rw at at keys) at same counted cap in
    rw tables (subst (λ js. IsClaimed t job (after_claim now lease_seconds r.id js)) (sym at) split)

turn :
    (p : Ports) (now : Instant) (lease_seconds : ℕ) (t : Tables) (a : Option IndexingJob)
    (middle : Db) (b : Bool) (db : Db)
    → HaveKeys t.jobs
    → claim_indexing_job now lease_seconds (begun t) ≡ (ok a, middle)
    → ◌≡◌ {A = Result Bool × Db} (process_claimed p p.clock a middle) (ok b, db)
    → (HaveKeys db.jobs × (attempts_left db.jobs < attempts_left t.jobs))
      ⊎ (due_jobs now t.jobs ≡ 0)
turn p now lease_seconds t none middle b db keys e e' =
    inr
      (none_due now t.jobs ((claim_indexing_job-none_iff now lease_seconds (begun t)).0 middle e).0)
turn p now lease_seconds t (some job) middle b db keys e e' =
    let claimed = claim_indexing_job-IsClaimed now lease_seconds t job middle keys e in
    let (_, left, ids) = (process-Steady p p.clock job).run middle e' claimed.counted in
    inl (rw ids claimed.keys, rw left claimed.fewer)

-- A turn that ends without an exception takes an attempt from the queue, or no job was due.
pub run_once-attempts_left :
    (p : Ports) (now : Instant) (lease_seconds : ℕ) (t : Tables) {b : Bool} {t' : Tables}
    → HaveKeys t.jobs
    → run_once p now true lease_seconds t ≡ (ok b, t')
    → (HaveKeys t'.jobs × (attempts_left t'.jobs < attempts_left t.jobs))
      ⊎ (due_jobs now t.jobs ≡ 0)
unfolding run_once
run_once-attempts_left p now lease_seconds t {b} {t'} keys h =
    let (db, e, stored) =
      transaction_ok (claim_indexing_job now lease_seconds >>= process_claimed p p.clock) t h in
    let (a, middle, e', e'') =
      then_inversion (claim_indexing_job now lease_seconds) (process_claimed p p.clock) (begun t)
        e in
    rw stored (turn p now lease_seconds t a middle b db keys e' e'')
