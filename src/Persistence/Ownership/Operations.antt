-- ===== src/Persistence/Ownership/Operations.antt =====
-- What the operations of the repositories write: rows of the transaction's user.
use rag_anotacoes_sdd.Prelude.{
  ℕ, suc, ◌≡◌, refl, inl, inr, Bool, true, false, ◌&&◌, Option, none, some, List, [], ◌∷◌, select,
  first, ◌==◌, Uuid, Instant, arith, Bool-cases, ok, value_error, job_not_found,
}
use rag_anotacoes_sdd.Text.{Text}
use rag_anotacoes_sdd.Domain.Notes.{Note}
use rag_anotacoes_sdd.Domain.Chunking.{TextChunk}
use rag_anotacoes_sdd.Domain.Jobs.{
  IndexingJob, pending_job, complete, fail_transient, default_maximum_attempts, retried,
}
use rag_anotacoes_sdd.Persistence.Tables.{NoteRecord, IndexingJobRecord, Vector}
use rag_anotacoes_sdd.Persistence.Transactions.{Db, is_owner, ◌>>=◌}
use rag_anotacoes_sdd.Persistence.Notes.{assign, save, save_record}
use rag_anotacoes_sdd.Persistence.Notes.Lock.{is_expected}
use rag_anotacoes_sdd.Persistence.Inserts.{write_job}
use rag_anotacoes_sdd.Persistence.Jobs.{
  add_chunks, chunk_record, publish, publish_records, delete_chunks, get_job, fail, fail_record,
  fail_note, is_failed, marked_failed, get_note, retry_note, retry_job, retried_note,
}
use rag_anotacoes_sdd.Persistence.Ownership.Runs.{
  runs_rules, Runs, pure-Runs, lift_then-Runs, raise-Runs, >>=-Runs, gets-Runs, first-Runs,
  write_note-Runs, insert_job-Runs, write_job-Runs, insert_chunk-Runs, delete_open_jobs-Runs,
}

pub save-Runs :
    (u job_id : Uuid) (note : Note) (expected_version : ℕ)
    → Runs u note.id (save u job_id note expected_version)
unfolding save assign pending_job
save-Runs u job_id note expected_version =
    first-Runs (λ db. db.notes) (is_expected u note expected_version) (save_record job_id note)
      (pure-Runs false)
      (λ db c r found. >>=-Runs _ _ (delete_open_jobs-Runs note.id) λ _.
        >>=-Runs _ _ (write_note-Runs (assign r note) (ground (arith, found))) λ _.
          >>=-Runs _ _
            (insert_job-Runs (pending_job job_id note.id note.user_id note.version note.updated_at)
              refl)
            λ _. pure-Runs true)

add_chunks-Runs :
    (fresh : ℕ → Uuid) (i : ℕ) (job : IndexingJob) (embedding_model : Text) (now : Instant)
    (cs : List TextChunk) (es : List Vector)
    → Runs job.user_id job.note_id (add_chunks fresh i job embedding_model now cs es)
unfolding add_chunks
add_chunks-Runs fresh i job model now [] [] = search runs_rules
add_chunks-Runs fresh i job model now (c ∷ cs) (e ∷ es) =
    >>=-Runs _ _ (insert_chunk-Runs (chunk_record (fresh i) job c e model now) refl refl)
      λ _. add_chunks-Runs fresh (suc i) job model now cs es
add_chunks-Runs fresh i job model now [] (e ∷ es) = search runs_rules
add_chunks-Runs fresh i job model now (c ∷ cs) [] = search runs_rules

complete-kept :
    (job after : IndexingJob) (now : Instant)
    → complete job now ≡ ok after
    → (after.user_id ≡ job.user_id) × (after.note_id ≡ job.note_id)
unfolding complete
complete-kept job after now h = (ground arith, ground arith)

fail_transient-kept :
    (job failed : IndexingJob) (code : Text) (now : Instant) (n : ℕ)
    → fail_transient job code now n ≡ ok failed
    → (failed.user_id ≡ job.user_id) × (failed.note_id ≡ job.note_id)
unfolding fail_transient
fail_transient-kept job failed code now n h = (ground arith, ground arith)

abbrev is_current : IndexingJob → Db → NoteRecord → Bool
is_current job db r =
    r.id == job.note_id
    && r.user_id == job.user_id
    && r.version == job.note_version
    && is_owner db.current_user r.user_id

publish_records-Runs :
    (fresh : ℕ → Uuid) (job : IndexingJob) (chunks : List TextChunk) (embeddings : List Vector)
    (model : Text) (now : Instant) (r : NoteRecord)
    → r.user_id ≡ job.user_id
    → (row : Option IndexingJobRecord)
    → Runs job.user_id job.note_id
        (publish_records fresh job chunks embeddings model now (some r) row)
unfolding delete_chunks
publish_records-Runs fresh job chunks embeddings model now r own none = search runs_rules
publish_records-Runs fresh job chunks embeddings model now r own (some row) =
    let ends : (after : IndexingJob)
        → complete job now ≡ ok after
        → Runs job.user_id job.note_id (write_job after) =
      λ after e.
        (let (same_user, same_note) = complete-kept job after now e in
          write_job-Runs after same_user same_note) in
    search (lift_then-Runs, ends, add_chunks-Runs, runs_rules) depth 10

abbrev is_shown_job : Uuid → Db → IndexingJobRecord → Bool
is_shown_job id db j = j.id == id && is_owner db.current_user j.user_id

pub publish-Runs :
    (fresh : ℕ → Uuid) (job : IndexingJob) (chunks : List TextChunk) (embeddings : List Vector)
    (model : Text) (now : Instant)
    → Runs job.user_id job.note_id (publish fresh job chunks embeddings model now)
unfolding publish
publish-Runs fresh job chunks embeddings model now =
    first-Runs (λ db. db.notes) (is_current job)
      (λ note. get_job job.id >>= publish_records fresh job chunks embeddings model now note)
      (gets-Runs (λ db. first (select (is_shown_job job.id db) db.jobs))
        (publish_records fresh job chunks embeddings model now none) (λ _ _. pure-Runs false))
      (λ db c r found.
        gets-Runs (λ db. first (select (is_shown_job job.id db) db.jobs))
          (publish_records fresh job chunks embeddings model now (some r))
          (λ db' _.
            publish_records-Runs fresh job chunks embeddings model now r (ground (arith, found))
              (first (select (is_shown_job job.id db') db'.jobs))))

fail_note-Runs :
    (job : IndexingJob) (code : Text) (now : Instant) (r : NoteRecord)
    → r.user_id ≡ job.user_id
    → Runs job.user_id job.note_id (fail_note job code now (some r))
fail_note-Runs job code now r own = elim (Bool-cases (r.version == job.note_version)) [
  | inl e ↦ rw e (write_note-Runs (marked_failed r code now) own)
  | inr e ↦ rw e (pure-Runs tt)
]

abbrev is_shown : Uuid → Db → NoteRecord → Bool
is_shown id db n = n.id == id && is_owner db.current_user n.user_id

mark-Runs :
    (job : IndexingJob) (code : Text) (now : Instant)
    → Runs job.user_id job.note_id (get_note job.note_id >>= fail_note job code now)
mark-Runs job code now =
    first-Runs (λ db. db.notes) (is_shown job.note_id) (fail_note job code now) (pure-Runs tt)
      (λ db c r found. fail_note-Runs job code now r (ground (arith, c, found)))

fail_record-Runs :
    (job : IndexingJob) (code : Text) (now : Instant) (row : Option IndexingJobRecord)
    → Runs job.user_id job.note_id (fail_record job code now row)
fail_record-Runs job code now none = raise-Runs (value_error job_not_found)
fail_record-Runs job code now (some row) =
    lift_then-Runs (fail_transient job code now default_maximum_attempts) _ λ failed e.
      (let (same_user, same_note) =
          fail_transient-kept job failed code now default_maximum_attempts e in
        >>=-Runs _ _ (write_job-Runs failed same_user same_note) λ _.
          >>=-Runs _ _
            (elim (Bool-cases (is_failed failed.status)) [
              | inl e ↦ rw e (mark-Runs job code now)
              | inr e ↦ rw e (pure-Runs tt)
            ])
            λ _. pure-Runs failed)

pub fail-Runs :
    (job : IndexingJob) (code : Text) (now : Instant)
    → Runs job.user_id job.note_id (fail job code now)
unfolding fail
fail-Runs job code now =
    gets-Runs (λ db. first (select (is_shown_job job.id db) db.jobs)) (fail_record job code now)
      (λ db _. fail_record-Runs job code now (first (select (is_shown_job job.id db) db.jobs)))

abbrev is_retried : Uuid → Uuid → NoteRecord → Db → IndexingJobRecord → Bool
is_retried note_id u note db j =
    j.note_id == note_id
    && j.user_id == u
    && j.note_version == note.version
    && is_failed j.status
    && is_owner db.current_user j.user_id

-- After `set_current_user`.
pub retry_note-Runs :
    (note_id u : Uuid) (now : Instant) (note : Option NoteRecord)
    → ((r : NoteRecord) → note ≡ some r → r.user_id ≡ u)
    → Runs u note_id (retry_note note_id u now note)
unfolding retried
retry_note-Runs note_id u now none own = pure-Runs false
retry_note-Runs note_id u now (some r) own =
    first-Runs (λ db. db.jobs) (is_retried note_id u r) (retry_job r now) (pure-Runs false)
      (λ db c j found. >>=-Runs _ _ (write_note-Runs (retried_note r) (own r refl)) λ _.
        >>=-Runs _ _
          (write_job-Runs (retried j now) (ground (arith, found)) (ground (arith, found)))
          λ _. pure-Runs true)
