-- ===== src/Persistence/Jobs.antt =====
-- persistence/repositories.py, `IndexingRepository`: the queue of indexing jobs and the
-- publication of a note's chunks; and `claim_indexing_job` of migrations/versions/003.
pub mod Claims
pub mod Spared
use rag_anotacoes_sdd.Prelude.{
  ℕ, zero, suc, ◌+◌, Bool, true, false, not, ◌&&◌, ◌||◌, Option, none, some, List, [], ◌∷◌, select,
  first, leb, ltb, ◌==◌, if◌then◌else◌, Uuid, Instant, seconds, Result, ok, err, value_error,
  job_not_found, zip_argument_mismatch,
}
use rag_anotacoes_sdd.Text.{Text}
use rag_anotacoes_sdd.Domain.Notes.{Note, SemanticStatus}
use rag_anotacoes_sdd.Domain.Chunking.{TextChunk}
use rag_anotacoes_sdd.Domain.Jobs.{
  IndexingJob, JobStatus, is_waiting, is_processing, is_past, claim, complete, fail_transient,
  default_maximum_attempts, retried,
}
use rag_anotacoes_sdd.Persistence.Tables.{
  Tables, NoteRecord, NoteChunkRecord, IndexingJobRecord, Vector, update_where,
}
use rag_anotacoes_sdd.Persistence.Transactions.{
  Db, Tx, pure, raise, lift, gets, check, modify, is_owner, set_current_user, ◌>>=◌, ◌>>◌,
}
use rag_anotacoes_sdd.Persistence.Inserts.{write_note, write_job, attempts_fit, insert_chunk}
use rag_anotacoes_sdd.Prelude.{integrity_error}

-- The `where` clause of `claim_next`, which is also that of the SQL function.
unfoldable pub is_due : Instant → IndexingJobRecord → Bool
is_due now j =
    is_waiting j.status && leb j.available_at now
    || is_processing j.status && is_past j.lease_expires_at now

-- `ORDER BY available_at, created_at`: whether `a` may stand behind `b`.
abbrev pub is_later : IndexingJobRecord → IndexingJobRecord → Bool
is_later a b =
    ltb b.available_at a.available_at
    || b.available_at == a.available_at && ltb b.created_at a.created_at

-- The first row in that order. The order of equal rows, which SQL leaves open, is the table's.
unfoldable pub earliest : List IndexingJobRecord → Option IndexingJobRecord
earliest [] = none
earliest (j ∷ js) = elim (earliest js) [
  | none ↦ some j
  | some k ↦ if is_later j k then some k else some j
]

abbrev pub claim_record : Instant → ℕ → Option IndexingJobRecord → Tx (Option IndexingJob)
claim_record now lease_seconds none = pure none
claim_record now lease_seconds (some r) = do
  claimed ← lift (claim r now lease_seconds)
  write_job claimed
  pure (some claimed)

-- `claim_next` without the SQL function: the rows that row-level security shows.
unfoldable pub claim_next : Instant → ℕ → Tx (Option IndexingJob)
claim_next now lease_seconds = do
  found ←
      gets λ db. earliest (select (λ j. is_owner db.current_user j.user_id && is_due now j) db.jobs)
  claim_record now lease_seconds found

-- The row that the SQL function updates, as it leaves it.
unfoldable pub claimed_row : Instant → ℕ → IndexingJobRecord → IndexingJobRecord
claimed_row now lease_seconds r = record r {
  status = JobStatus.processing;
  attempt_count = r.attempt_count + 1;
  claimed_at = some now;
  lease_expires_at = some (now + seconds lease_seconds);
}

abbrev pub update_claimed : Instant → ℕ → Option IndexingJobRecord → Tx (Option IndexingJob)
update_claimed now lease_seconds none = pure none
update_claimed now lease_seconds (some r) = do
  check (attempts_fit (claimed_row now lease_seconds r)) integrity_error
  modify (λ t. record t {
    jobs = update_where (λ j. j.id == r.id) (claimed_row now lease_seconds) t.jobs;
  })
  pure (some (claimed_row now lease_seconds r))

-- `claim_indexing_job`, with `row_security = off`: the branch of `claim_next` that the worker uses.
unfoldable pub claim_indexing_job : Instant → ℕ → Tx (Option IndexingJob)
unfolding claimed_row
claim_indexing_job now lease_seconds = do
  found ← gets λ db. earliest (select (is_due now) db.jobs)
  update_claimed now lease_seconds found

unfoldable pub note_for_job : IndexingJob → Tx (Option Note)
note_for_job job = do
  set_current_user job.user_id
  gets λ db. first (
      select
        (λ r. r.id == job.note_id && r.user_id == job.user_id && is_owner db.current_user r.user_id)
        db.notes)

-- `session.get(IndexingJobRecord, job.id)`
abbrev pub get_job : Uuid → Tx (Option IndexingJobRecord)
get_job id =
    gets λ db. first (select (λ j. j.id == id && is_owner db.current_user j.user_id) db.jobs)

abbrev pub chunk_record : Uuid → IndexingJob → TextChunk → Vector → Text → Instant → NoteChunkRecord
chunk_record id job chunk embedding embedding_model now = record {
  id = id;
  note_id = job.note_id;
  user_id = job.user_id;
  note_version = job.note_version;
  ordinal = chunk.ordinal;
  text = chunk.text;
  token_count = chunk.token_count;
  embedding = embedding;
  embedding_model = embedding_model;
  created_at = now;
}

-- The loop over `zip(chunks, embeddings, strict=True)`; `fresh i` is its `uuid4()` number `i`.
unfoldable pub add_chunks :
    (ℕ → Uuid) → ℕ → IndexingJob → Text → Instant → List TextChunk → List Vector → Tx (Unit {0})
add_chunks fresh i job embedding_model now [] [] = pure tt
add_chunks fresh i job embedding_model now (c ∷ cs) (e ∷ es) =
    insert_chunk (chunk_record (fresh i) job c e embedding_model now)
    >> add_chunks fresh (suc i) job embedding_model now cs es
add_chunks fresh i job embedding_model now _ _ = raise (value_error zip_argument_mismatch)

unfoldable pub delete_chunks : Uuid → Tx (Unit {0})
delete_chunks note_id db =
    modify
      (λ t. record t {
        chunks =
            select (λ c. not (c.note_id == note_id && is_owner db.current_user c.user_id)) t.chunks;
      })
      db

abbrev pub marked_ready : NoteRecord → Instant → NoteRecord
marked_ready r now = record r {
  semantic_status = SemanticStatus.ready;
  semantic_error_code = none;
  semantic_updated_at = some now;
}

abbrev pub publish_records :
    (ℕ → Uuid)
    → IndexingJob
    → List TextChunk
    → List Vector
    → Text
    → Instant
    → Option NoteRecord
    → Option IndexingJobRecord
    → Tx Bool
publish_records fresh job chunks embeddings embedding_model now (some note) (some row) = do
  delete_chunks job.note_id
  add_chunks fresh 0 job embedding_model now chunks embeddings
  write_note (marked_ready note now)
  completed ← lift (complete job now)
  write_job completed
  pure true
publish_records fresh job chunks embeddings embedding_model now _ _ = pure false

-- The query of `publish` for the note, at the job's version.
abbrev pub current_note : IndexingJob → Tx (Option NoteRecord)
current_note job = gets λ db. first (
    select
      (λ r.
        r.id == job.note_id
        && r.user_id == job.user_id
        && r.version == job.note_version
        && is_owner db.current_user r.user_id)
      db.notes)

unfoldable pub publish :
    (ℕ → Uuid) → IndexingJob → List TextChunk → List Vector → Text → Instant → Tx Bool
unfolding delete_chunks
publish fresh job chunks embeddings embedding_model now = do
  note ← current_note job
  row ← get_job job.id
  publish_records fresh job chunks embeddings embedding_model now note row

abbrev pub marked_failed : NoteRecord → Text → Instant → NoteRecord
marked_failed r error_code now = record r {
  semantic_status = SemanticStatus.failed;
  semantic_error_code = some error_code;
  semantic_updated_at = some now;
}

-- `if note and note.version == job.note_version`
abbrev pub fail_note : IndexingJob → Text → Instant → Option NoteRecord → Tx (Unit {0})
fail_note job error_code now none = pure tt
fail_note job error_code now (some note) =
    if note.version == job.note_version
    then write_note (marked_failed note error_code now)
    else pure tt

abbrev pub is_failed : JobStatus → Bool
is_failed JobStatus.failed = true
is_failed _ = false

abbrev pub get_note : Uuid → Tx (Option NoteRecord)
get_note id =
    gets λ db. first (select (λ n. n.id == id && is_owner db.current_user n.user_id) db.notes)

abbrev pub fail_record : IndexingJob → Text → Instant → Option IndexingJobRecord → Tx IndexingJob
fail_record job error_code now none = raise (value_error job_not_found)
fail_record job error_code now (some row) = do
  failed ← lift (fail_transient job error_code now default_maximum_attempts)
  write_job failed
  if is_failed failed.status
      then (do note ← get_note job.note_id; fail_note job error_code now note)
      else pure tt
  pure failed

unfoldable pub fail : IndexingJob → Text → Instant → Tx IndexingJob
fail job error_code now = do row ← get_job job.id; fail_record job error_code now row

abbrev pub is_failed_note : SemanticStatus → Bool
is_failed_note SemanticStatus.failed = true
is_failed_note _ = false

abbrev pub retried_note : NoteRecord → NoteRecord
retried_note r = record r { semantic_status = SemanticStatus.pending; semantic_error_code = none }

abbrev pub retry_job : NoteRecord → Instant → Option IndexingJobRecord → Tx Bool
retry_job note now none = pure false
retry_job note now (some job) = do
  write_note (retried_note note)
  write_job (retried job now)
  pure true

abbrev pub retry_note : Uuid → Uuid → Instant → Option NoteRecord → Tx Bool
retry_note note_id user_id now none = pure false
retry_note note_id user_id now (some note) = do
  job ← gets λ db. first (
      select
        (λ j.
          j.note_id == note_id
          && j.user_id == user_id
          && j.note_version == note.version
          && is_failed j.status
          && is_owner db.current_user j.user_id)
        db.jobs)
  retry_job note now job

unfoldable pub retry_failed : Uuid → Uuid → Instant → Tx Bool
unfolding retried
retry_failed note_id user_id now = do
  set_current_user user_id
  note ← gets λ db. first (
      select
        (λ r.
          r.id == note_id
          && r.user_id == user_id
          && is_failed_note r.semantic_status
          && is_owner db.current_user r.user_id)
        db.notes)
  retry_note note_id user_id now note
