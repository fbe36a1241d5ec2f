-- ===== src/Services/Isolation/Worker.antt =====
-- What the worker writes: rows of the user whose job it has claimed.
use mathlib.Core.Path.{subst}
use rag_anotacoes_sdd.Prelude.{
  ℕ, ◌≡◌, refl, sym, ap, ◌∙◌, inl, inr, Bool, true, false, ◌&&◌, Option, none, some, List, [], ◌∷◌,
  select, All-middle, ◌==◌, Instant, arith, Bool-cases, Result, ok, err, model_unavailable,
}
use rag_anotacoes_sdd.Domain.Notes.{Note}
use rag_anotacoes_sdd.Domain.Chunking.{TextChunk, chunk_note, default_target, default_overlap}
use rag_anotacoes_sdd.Domain.Jobs.{IndexingJob, claim}
use rag_anotacoes_sdd.Persistence.Tables.{Tables, IndexingJobRecord, Vector, update_where}
use rag_anotacoes_sdd.Persistence.Transactions.{
  transaction_cases, Db, Tx, transaction, then_inversion, set_current_user, ◌>>=◌,
}
use rag_anotacoes_sdd.Persistence.Jobs.{
  earliest, is_due, claim_next, claim_indexing_job, claimed_row, note_for_job,
}
use rag_anotacoes_sdd.Persistence.Ownership.{owner_of, IsOwned, Writes}
use rag_anotacoes_sdd.Persistence.Ownership.Kept.{Writes-IsOwned}
use rag_anotacoes_sdd.Persistence.Ownership.Runs.{Runs, >>=-Runs, lift-Runs, pure-Runs}
use rag_anotacoes_sdd.Persistence.Ownership.Operations.{publish-Runs, fail-Runs}
use rag_anotacoes_sdd.Persistence.Jobs.Claims.{
  claim_indexing_job-Claims, claim_indexing_job-none_iff,
}
use rag_anotacoes_sdd.Persistence.Ownership.Lists.{All-update_where}
use rag_anotacoes_sdd.Services.Indexing.{
  Ports, embedded, embedding_unavailable, finish, process_note, process, process_claimed, run_once,
}

finish-Runs :
    (p : Ports) (now : Instant) (job : IndexingJob) (chunks : List TextChunk)
    (r : Result (List Vector))
    → Runs job.user_id job.note_id (finish p now job chunks r)
unfolding finish
finish-Runs p now job chunks (ok embeddings) =
    publish-Runs p.fresh job chunks embeddings p.embedding_model now
finish-Runs p now job chunks (err model_unavailable) =
    >>=-Runs _ _ (fail-Runs job embedding_unavailable now) λ _. pure-Runs false
finish-Runs p now job chunks (err e) = lift-Runs (err e)

process_note-Runs :
    (p : Ports) (now : Instant) (job : IndexingJob) (note : Option Note)
    → Runs job.user_id job.note_id (process_note p now job note)
unfolding process_note
process_note-Runs p now job none = pure-Runs false
process_note-Runs p now job (some note) = elim (Bool-cases (note.version == job.note_version)) [
  | inl e ↦ rw e (
      >>=-Runs _ _ (lift-Runs (chunk_note note.title note.content default_target default_overlap))
        λ chunks. finish-Runs p now job chunks (embedded p.embed chunks))
  | inr e ↦ rw e (pure-Runs false)
]

-- What a claim leaves: whose the rows are, and whose the claimed job is.
record IsClaimed (claimed : Option IndexingJob) (db : Db) : Type 0 where
  owned : IsOwned db.tables
  job : (j : IndexingJob) → claimed ≡ some j → owner_of db.notes j.note_id ≡ some j.user_id

process-Writes :
    (p : Ports) (now : Instant) (job : IndexingJob) (db : Db) {a : Bool} {db' : Db}
    → owner_of db.notes job.note_id ≡ some job.user_id
    → ◌≡◌ {A = Result Bool × Db} (process p now job db) (ok a, db')
    → Writes job.user_id db.tables db'.tables
unfolding process note_for_job set_current_user
process-Writes p now job db owner h =
    ((process_note-Runs p now job _).run (record db { current_user = some job.user_id }) refl owner
      h).writes

claim-kept :
    (r : IndexingJobRecord) (now : Instant) (lease_seconds : ℕ) (job : IndexingJob)
    → claim r now lease_seconds ≡ ok job
    → (job.user_id ≡ r.user_id) × (job.note_id ≡ r.note_id)
unfolding claim
claim-kept r now lease_seconds job h = (ground arith, ground arith)

claimed-IsOwned :
    (now : Instant) (lease_seconds : ℕ) (r : IndexingJobRecord) (t : Tables)
    → IsOwned t
    → IsOwned (record t {
      jobs = update_where (λ j. j.id == r.id) (claimed_row now lease_seconds) t.jobs;
    })
unfolding claimed_row
claimed-IsOwned now lease_seconds r t own = record {
  ids = own.ids;
  notes = own.notes;
  jobs =
      All-update_where (λ j. owner_of t.notes j.note_id ≡ some j.user_id) (λ j. j.id == r.id)
        (claimed_row now lease_seconds) t.jobs own.jobs (λ j e h. h);
  chunks = own.chunks;
}

claim_indexing_job-IsClaimed :
    (now : Instant) (lease_seconds : ℕ) (db : Db) (a : Option IndexingJob) (db' : Db)
    → IsOwned db.tables
    → ◌≡◌ {A = Result (Option IndexingJob) × Db}
        (claim_indexing_job now lease_seconds db)
        (ok a, db')
    → IsClaimed a db'
claim_indexing_job-IsClaimed now lease_seconds db none db' own h =
    let (_, same) = (claim_indexing_job-none_iff now lease_seconds db).0 db' h in
    record { owned = rw same own; job = λ j e. cc }
claim_indexing_job-IsClaimed now lease_seconds db (some job) db' own h =
    let (r, (_, (before, after, at), _), claims, tables) =
      claim_indexing_job-Claims now lease_seconds db h in
    let (same_user, same_note) = claim-kept r now lease_seconds job claims in
    let owner =
      All-middle (λ j. owner_of db.notes j.note_id ≡ some j.user_id) before r after
        (rw at at own.jobs) in
    let notes : db'.notes ≡ db.notes = ap (λ t. t.notes) tables in
    record {
      owned = rw tables (claimed-IsOwned now lease_seconds r db.tables own);
      job = λ j e.
          let same : job ≡ j = ground (arith, e) in
          subst (λ k. owner_of db'.notes k.note_id ≡ some k.user_id) same
            (rw (notes, same_note, same_user) owner);
    }

-- Without the SQL function, and before a user is set, row-level security shows no job.
hidden : (now : Instant) (js : List IndexingJobRecord) → select (λ j. false && is_due now j) js ≡ []
hidden now [] = refl
hidden now (j ∷ js) = hidden now js

claim_next_hidden :
    (now : Instant) (lease_seconds : ℕ) (t : Tables)
    → claim_next now lease_seconds (record { tables = t; current_user = none })
      ≡ (ok none, record { tables = t; current_user = none })
unfolding claim_next earliest
claim_next_hidden now lease_seconds t = rw (hidden now t.jobs) refl

claim_next-IsClaimed :
    (now : Instant) (lease_seconds : ℕ) (t : Tables) (a : Option IndexingJob) (db' : Db)
    → IsOwned t
    → ◌≡◌ {A = Result (Option IndexingJob) × Db}
        (claim_next now lease_seconds (record { tables = t; current_user = none }))
        (ok a, db')
    → IsClaimed a db'
claim_next-IsClaimed now lease_seconds t a db' own h =
    let ends = sym (claim_next_hidden now lease_seconds t) ∙ h in
    let same : db' ≡ record { tables = t; current_user = none } = ground (arith, ends) in
    let nothing : a ≡ none = ground (arith, ends) in
    record { owned = rw same own; job = λ j e. ground (arith, nothing, e) }

processed :
    (p : Ports) (a : Option IndexingJob) (db : Db) (b : Bool) (db' : Db)
    → IsClaimed a db
    → ◌≡◌ {A = Result Bool × Db} (process_claimed p p.clock a db) (ok b, db')
    → IsOwned db'.tables
processed p none db b db' c h = (let same : db ≡ db' = ground (arith, h) in rw (sym same) c.owned)
processed p (some job) db b db' c h =
    Writes-IsOwned (process-Writes p p.clock job db (c.job job refl) h) c.owned

worked :
    (p : Ports) (m : Tx (Option IndexingJob)) (t : Tables) {r : Result Bool} {t' : Tables}
    → IsOwned t
    → ((a : Option IndexingJob) (db' : Db)
        → ◌≡◌ {A = Result (Option IndexingJob) × Db}
            (m (record { tables = t; current_user = none }))
            (ok a, db')
        → IsClaimed a db')
    → transaction (m >>= process_claimed p p.clock) t ≡ (r, t')
    → IsOwned t'
worked p m t {r} {t'} own claims h =
    elim (transaction_cases (m >>= process_claimed p p.clock) t h) [
      | inr same ↦ rw same own
      | inl (b, db, e, same) ↦
          let (a, middle, e', e'') =
            then_inversion m (process_claimed p p.clock)
              (record { tables = t; current_user = none }) e in
          rw same (processed p a middle b db (claims a middle e') e'')
    ]

-- Whatever a run of the worker does, it keeps the ownership of all rows.
pub run_once-IsOwned :
    (p : Ports) (now : Instant) (use_claim_function : Bool) (lease_seconds : ℕ) (t : Tables)
    {r : Result Bool} {t' : Tables}
    → IsOwned t
    → run_once p now use_claim_function lease_seconds t ≡ (r, t')
    → IsOwned t'
unfolding run_once
run_once-IsOwned p now true lease_seconds t own h =
    worked p (claim_indexing_job now lease_seconds) t own
      (λ a db' e.
        claim_indexing_job-IsClaimed now lease_seconds (record { tables = t; current_user = none })
          a db' own e)
      h
run_once-IsOwned p now false lease_seconds t own h =
    worked p (claim_next now lease_seconds) t own
      (λ a db' e. claim_next-IsClaimed now lease_seconds t a db' own e) h
