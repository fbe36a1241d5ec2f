-- ===== src/Services/Indexing/Turns.antt =====
-- Processing a job changes the queue only by writing the job that it was given, completed or failed.
use rag_anotacoes_sdd.Prelude.{
  ℕ, suc, ◌≡◌, inl, inr, Option, none, some, List, [], ◌∷◌, ◌==◌, Uuid, Instant, Bool-cases, Result,
  ok, err, model_unavailable, value_error, job_not_found,
}
use rag_anotacoes_sdd.Text.{Text}
use rag_anotacoes_sdd.Domain.Notes.{Note}
use rag_anotacoes_sdd.Domain.Chunking.{TextChunk}
use rag_anotacoes_sdd.Domain.Jobs.{IndexingJob, complete, fail_transient, default_maximum_attempts}
use rag_anotacoes_sdd.Persistence.Tables.{NoteRecord, IndexingJobRecord, Vector}
use rag_anotacoes_sdd.Persistence.Inserts.{write_job}
use rag_anotacoes_sdd.Persistence.Transactions.{set_current_user}
use rag_anotacoes_sdd.Persistence.Jobs.{
  add_chunks, chunk_record, delete_chunks, publish, publish_records, fail, fail_record, fail_note,
  is_failed, note_for_job,
}
use rag_anotacoes_sdd.Services.Indexing.{
  Ports, embedding_unavailable, finish, process_note, process,
}
use rag_anotacoes_sdd.Services.Indexing.Changes.{
  changes_rules, Relation, IsPreorder, Changes, Kept, >>=-Changes, pure-Changes, lift-Changes,
  raise-Changes, lift_then-Changes, gets-Changes, insert_chunk-Changes, write_job-Changes,
}

module _ (R : Relation) (order : IsPreorder R) (now : Instant) (job : IndexingJob)
    (completes : (after : IndexingJob) → complete job now ≡ ok after → Kept R after)
    (fails : (code : Text) (after : IndexingJob)
      → fail_transient job code now default_maximum_attempts ≡ ok after
      → Kept R after) where
  add_chunks-Changes :
      (fresh : ℕ → Uuid) (i : ℕ) (model : Text) (cs : List TextChunk) (es : List Vector)
      → Changes R (add_chunks fresh i job model now cs es)
  unfolding add_chunks
  add_chunks-Changes fresh i model [] [] = search changes_rules
  add_chunks-Changes fresh i model (c ∷ cs) (e ∷ es) =
      >>=-Changes R order _ _
        (insert_chunk-Changes R order (chunk_record (fresh i) job c e model now))
        λ _. add_chunks-Changes fresh (suc i) model cs es
  add_chunks-Changes fresh i model [] (e ∷ es) = search changes_rules
  add_chunks-Changes fresh i model (c ∷ cs) [] = search changes_rules

  publish_records-Changes :
      (fresh : ℕ → Uuid) (chunks : List TextChunk) (embeddings : List Vector) (model : Text)
      (note : Option NoteRecord) (row : Option IndexingJobRecord)
      → Changes R (publish_records fresh job chunks embeddings model now note row)
  unfolding delete_chunks
  publish_records-Changes fresh chunks embeddings model none row = search changes_rules
  publish_records-Changes fresh chunks embeddings model (some r) none = search changes_rules
  publish_records-Changes fresh chunks embeddings model (some r) (some row) =
      let ends : (after : IndexingJob) → complete job now ≡ ok after → Changes R (write_job after) =
        λ after e. write_job-Changes R order after (completes after e) in
      search (lift_then-Changes, ends, add_chunks-Changes, changes_rules) depth 10

  fail_note-Changes :
      (code : Text) (note : Option NoteRecord) → Changes R (fail_note job code now note)
  fail_note-Changes code none = search changes_rules
  fail_note-Changes code (some r) = elim (Bool-cases (r.version == job.note_version)) [
    | inl e ↦ rw e (search changes_rules)
    | inr e ↦ rw e (search changes_rules)
  ]

  fail_record-Changes :
      (code : Text) (row : Option IndexingJobRecord) → Changes R (fail_record job code now row)
  fail_record-Changes code none = raise-Changes R order (value_error job_not_found)
  fail_record-Changes code (some row) =
      lift_then-Changes R order (fail_transient job code now default_maximum_attempts) _ λ failed e.
        >>=-Changes R order _ _ (write_job-Changes R order failed (fails code failed e)) λ _.
          >>=-Changes R order _ _
            (elim (Bool-cases (is_failed failed.status)) [
              | inl e' ↦
                  rw e' (gets-Changes R order _ (fail_note job code now) (fail_note-Changes code))
              | inr e' ↦ rw e' (pure-Changes R order tt)
            ])
            λ _. pure-Changes R order failed

  finish-Changes :
      (p : Ports) (chunks : List TextChunk) (r : Result (List Vector))
      → Changes R (finish p now job chunks r)
  unfolding finish publish fail
  finish-Changes p chunks (ok embeddings) =
      search (changes_rules, publish_records-Changes p.fresh chunks embeddings p.embedding_model)
  finish-Changes p chunks (err model_unavailable) =
      search (changes_rules, fail_record-Changes embedding_unavailable)
  finish-Changes p chunks (err e) = lift-Changes R order (err e)

  process_note-Changes :
      (p : Ports) (found : Option Note) → Changes R (process_note p now job found)
  unfolding process_note
  process_note-Changes p none = search changes_rules
  process_note-Changes p (some r) = elim (Bool-cases (r.version == job.note_version)) [
    | inl e ↦ rw e (search (changes_rules, finish-Changes p))
    | inr e ↦ rw e (search changes_rules)
  ]

  -- What the two ways to end the job do to the queue is what processing it does.
  pub process-Changes : (p : Ports) → Changes R (process p now job)
  unfolding process note_for_job set_current_user
  process-Changes p = record {
    run = λ db h. (process_note-Changes p _).run (record db { current_user = some job.user_id }) h;
  }
