-- ===== src/Services/Indexing/Withheld.antt =====
-- What a processing that publishes nothing leaves in place.
use rag_anotacoes_sdd.Prelude.{
  ℕ, ◌≡◌, ◌≢◌, refl, ◌∙◌, Bool, true, false, Option, none, some, List, arith, Instant, Result, ok,
  err, ◌==◌, model_unavailable, if◌then◌else◌,
}
use rag_anotacoes_sdd.Domain.Notes.{Note}
use rag_anotacoes_sdd.Domain.Chunking.{TextChunk, chunk_note, default_target, default_overlap}
use rag_anotacoes_sdd.Domain.Jobs.{IndexingJob, complete}
use rag_anotacoes_sdd.Persistence.Tables.{Tables, NoteRecord, IndexingJobRecord, Vector}
use rag_anotacoes_sdd.Persistence.Transactions.{
  Db, Tx, transaction, commit, pure, lift, ◌>>=◌, then_inversion,
}
use rag_anotacoes_sdd.Persistence.Inserts.{write_note, write_job}
use rag_anotacoes_sdd.Persistence.Jobs.{
  note_for_job, get_job, current_note, fail, publish, publish_records, delete_chunks, add_chunks,
  marked_ready,
}
use rag_anotacoes_sdd.Services.Indexing.{
  Ports, process, process_claimed, run_once, finish, process_note, embedded, embedding_unavailable,
}
use rag_anotacoes_sdd.Persistence.Jobs.Spared.{
  Spares, pure-Spares, lift-Spares, gets-Spares, branch-Spares, note_for_job-Spares, fail-Spares,
  claim_indexing_job-Spares, claim_next-Spares,
}

-- `m`, when it returns `False`, has left the chunks as they were.
abbrev Withholds : Tx Bool → Type 0
Withholds m =
    (db db' : Db) → ◌≡◌ {A = Result Bool × Db} (m db) (ok false, db') → db'.chunks ≡ db.chunks

then-Withholds :
    {A : Type 0} (m : Tx A) (f : A → Tx Bool)
    → Spares m
    → ((a : A) → Withholds (f a))
    → Withholds (m >>= f)
then-Withholds m f s t db db' h =
    let (a, middle, e, e') = then_inversion m f db h in t a middle db' e' ∙ s db a middle e

-- `m` does not return `False`.
abbrev IsNeverFalse : Tx Bool → Type 0
IsNeverFalse m = (db db' : Db) → ◌≢◌ {A = Result Bool × Db} (m db) (ok false, db')

then-IsNeverFalse :
    {A : Type 0} (m : Tx A) (f : A → Tx Bool)
    → ((a : A) → IsNeverFalse (f a))
    → IsNeverFalse (m >>= f)
then-IsNeverFalse m f t db db' h =
    let (a, middle, e, e') = then_inversion m f db h in t a middle db' e'

false-Withholds : Withholds (pure false)
false-Withholds db db' h = pure-Spares false db false db' h

branch-Withholds :
    (b : Bool) {m n : Tx Bool} → Withholds m → Withholds n → Withholds (if b then m else n)
branch-Withholds true s t = s
branch-Withholds false s t = t

true-IsNeverFalse : IsNeverFalse (pure true)
true-IsNeverFalse db db' h = cc

transaction-Withholds :
    (m : Tx Bool) (t : Tables) {r : Result Bool} {t' : Tables}
    → Withholds m
    → ◌≡◌ {A = Result Bool × Tables} (transaction m t) (r, t')
    → r ≢ ok true
    → t'.chunks ≡ t.chunks
unfolding transaction
transaction-Withholds m t {r} {t'} w h n = by_result (m db) refl h
  where
    db : Db
    db = record { tables = t; current_user = none }

    by_result :
        (x : Result Bool × Db)
        → m db ≡ x
        → ◌≡◌ {A = Result Bool × Tables} (commit t x) (r, t')
        → t'.chunks ≡ t.chunks
    by_result (ok true, after) e h = absurd (n (ground arith))
    by_result (ok false, after) e h = let kept = w db after e in ground arith
    by_result (err x, after) e h = ground arith

module _ (p : Ports) (now : Instant) where
  published-IsNeverFalse :
      (job : IndexingJob) (chunks : List TextChunk) (embeddings : List Vector) (note : NoteRecord)
      (row : IndexingJobRecord)
      → IsNeverFalse (
          publish_records p.fresh job chunks embeddings p.embedding_model now
            (some note)
            (some row))
  published-IsNeverFalse job chunks embeddings note row =
      then-IsNeverFalse (delete_chunks job.note_id) _ (λ _.
        then-IsNeverFalse (add_chunks p.fresh 0 job p.embedding_model now chunks embeddings) _ (λ _.
          then-IsNeverFalse (write_note (marked_ready note now)) _ (λ _.
            then-IsNeverFalse (lift (complete job now)) _
              (λ completed. then-IsNeverFalse (write_job completed) _ (λ _. true-IsNeverFalse)))))

  publish_records-Withholds :
      (job : IndexingJob) (chunks : List TextChunk) (embeddings : List Vector)
      (note : Option NoteRecord) (row : Option IndexingJobRecord)
      → Withholds (publish_records p.fresh job chunks embeddings p.embedding_model now note row)
  publish_records-Withholds job chunks embeddings (some note) (some row) =
      λ db db' h. absurd (published-IsNeverFalse job chunks embeddings note row db db' h)
  publish_records-Withholds job chunks embeddings none row = λ db db' h. ground arith
  publish_records-Withholds job chunks embeddings (some note) none = λ db db' h. ground arith

  publish-Withholds :
      (job : IndexingJob) (chunks : List TextChunk) (embeddings : List Vector)
      → Withholds (publish p.fresh job chunks embeddings p.embedding_model now)
  unfolding publish
  publish-Withholds job chunks embeddings =
      then-Withholds (current_note job) _ (gets-Spares _) (λ note.
        then-Withholds (get_job job.id) _ (gets-Spares _)
          (λ row. publish_records-Withholds job chunks embeddings note row))

  finish-Withholds :
      (job : IndexingJob) (chunks : List TextChunk) (r : Result (List Vector))
      → Withholds (finish p now job chunks r)
  unfolding finish
  finish-Withholds job chunks (ok embeddings) = publish-Withholds job chunks embeddings
  finish-Withholds job chunks (err model_unavailable) =
      then-Withholds (fail job embedding_unavailable now) _
        (fail-Spares job embedding_unavailable now) (λ _. false-Withholds)
  finish-Withholds job chunks (err e) = λ db db' h. cc

  process_note-Withholds :
      (job : IndexingJob) (o : Option Note) → Withholds (process_note p now job o)
  unfolding process_note
  process_note-Withholds job none = λ db db' h. ground arith
  process_note-Withholds job (some note) =
      branch-Withholds (note.version == job.note_version)
        (then-Withholds (lift (chunk_note note.title note.content default_target default_overlap)) _
          (lift-Spares (chunk_note note.title note.content default_target default_overlap))
          (λ chunks. finish-Withholds job chunks (embedded p.embed chunks)))
        false-Withholds

  process-Withholds : (job : IndexingJob) → Withholds (process p now job)
  unfolding process
  process-Withholds job =
      then-Withholds (note_for_job job) _ (note_for_job-Spares job)
        (λ o. process_note-Withholds job o)

  process_claimed-Withholds : (o : Option IndexingJob) → Withholds (process_claimed p now o)
  process_claimed-Withholds none = false-Withholds
  process_claimed-Withholds (some job) = process-Withholds job

-- One turn of the worker that does not answer `True`, because no job is due, the claimed job is
-- outdated, its embedding failed or anything raised, leaves every published chunk in place.
pub run_once_withheld :
    (p : Ports) (now : Instant) (use_claim_function : Bool) (lease_seconds : ℕ) (t : Tables)
    {r : Result Bool} {t' : Tables}
    → run_once p now use_claim_function lease_seconds t ≡ (r, t')
    → r ≢ ok true
    → t'.chunks ≡ t.chunks
unfolding run_once
run_once_withheld p now use_claim_function lease_seconds t {r} {t'} h n =
    transaction-Withholds _ t
      (then-Withholds _ _
        (branch-Spares use_claim_function (claim_indexing_job-Spares now lease_seconds)
          (claim_next-Spares now lease_seconds))
        (λ o. process_claimed-Withholds p p.clock o))
      h n
