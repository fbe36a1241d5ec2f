-- ===== src/Persistence/Inserts.antt =====
-- Writing one row (`session.add` or changed attributes, and the `flush` that follows), with the
-- keys, checks, column widths and row-level security that persistence/models.py and
-- migrations/versions declare. A row that breaks one raises, and the transaction ends. The width of
-- the two error codes, 64, is not checked: the program writes only shorter ones.
use rag_anotacoes_sdd.Prelude.{
  Bool, not, ◌&&◌, [], ◌∷◌, ◌++◌, any, length, leb, ltb, ◌==◌, Uuid, integrity_error, data_error,
  row_security_violation,
}
use rag_anotacoes_sdd.Text.{text_eq}
use rag_anotacoes_sdd.Domain.Jobs.{IndexingJob}
use rag_anotacoes_sdd.Persistence.Tables.{
  Tables, UserRecord, SessionRecord, NoteRecord, NoteChunkRecord, IndexingJobRecord, update_where,
}
use rag_anotacoes_sdd.Persistence.Transactions.{Tx, check, modify, is_owner, ◌>>◌}

abbrev pub has_user : Uuid → Tables → Bool
has_user id t = any (λ u. u.id == id) t.users

abbrev pub has_note : Uuid → Tables → Bool
has_note id t = any (λ n. n.id == id) t.notes

unfoldable pub insert_user : UserRecord → Tx (Unit {0})
insert_user r db =
    (do
      check (leb (length r.username) 64 && leb (length r.username_canonical) 64) data_error
      check (not (has_user r.id db.tables)) integrity_error
      check (not (any (λ u. text_eq u.username_canonical r.username_canonical) db.users))
          integrity_error
      modify (λ t. record t { users = t.users ++ r ∷ [] }))
      db

unfoldable pub insert_session : SessionRecord → Tx (Unit {0})
insert_session r db =
    (do
      check (leb (length r.token_hash) 64 && leb (length r.csrf_token_hash) 64) data_error
      check (not (any (λ s. s.id == r.id) db.sessions)) integrity_error
      check (not (any (λ s. text_eq s.token_hash r.token_hash) db.sessions)) integrity_error
      check (has_user r.user_id db.tables) integrity_error
      modify (λ t. record t { sessions = t.sessions ++ r ∷ [] }))
      db

-- The width of `notes.title`.
abbrev pub title_fits : NoteRecord → Bool
title_fits r = leb (length r.title) 200

-- `ck_notes_version_positive`
abbrev pub version_fits : NoteRecord → Bool
version_fits r = leb 1 r.version

unfoldable pub insert_note : NoteRecord → Tx (Unit {0})
insert_note r db =
    (do
      check (is_owner db.current_user r.user_id) row_security_violation
      check (title_fits r) data_error
      check (version_fits r) integrity_error
      check (not (has_note r.id db.tables)) integrity_error
      check (has_user r.user_id db.tables) integrity_error
      modify (λ t. record t { notes = t.notes ++ r ∷ [] }))
      db

-- The changed attributes of a row that the transaction can see.
unfoldable pub write_note : NoteRecord → Tx (Unit {0})
write_note r db =
    (do
      check (title_fits r) data_error
      check (version_fits r) integrity_error
      modify (λ t. record t {
        notes =
            update_where (λ n. n.id == r.id && is_owner db.current_user n.user_id) (λ _. r) t.notes;
      }))
      db

-- `ck_jobs_attempt_count`
abbrev pub attempts_fit : IndexingJobRecord → Bool
attempts_fit r = leb r.attempt_count 5

abbrev pub same_version : IndexingJobRecord → IndexingJobRecord → Bool
same_version r j = j.note_id == r.note_id && j.note_version == r.note_version

unfoldable pub insert_job : IndexingJobRecord → Tx (Unit {0})
insert_job r db =
    (do
      check (is_owner db.current_user r.user_id) row_security_violation
      check (attempts_fit r) integrity_error
      check (not (any (λ j. j.id == r.id) db.jobs)) integrity_error
      check (not (any (same_version r) db.jobs)) integrity_error
      check (has_note r.note_id db.tables) integrity_error
      modify (λ t. record t { jobs = t.jobs ++ r ∷ [] }))
      db

-- `_write_job`: every field of the job, into the row that has its identifier.
unfoldable pub write_job : IndexingJob → Tx (Unit {0})
write_job job db =
    (do
      check (attempts_fit job) integrity_error
      modify (λ t. record t {
        jobs =
            update_where (λ j. j.id == job.id && is_owner db.current_user j.user_id) (λ _. job)
              t.jobs;
      }))
      db

abbrev pub same_ordinal : NoteChunkRecord → NoteChunkRecord → Bool
same_ordinal r c =
    c.note_id == r.note_id && c.note_version == r.note_version && c.ordinal == r.ordinal

unfoldable pub insert_chunk : NoteChunkRecord → Tx (Unit {0})
insert_chunk r db =
    (do
      check (is_owner db.current_user r.user_id) row_security_violation
      check (length r.embedding == 768) data_error
      check (leb (length r.embedding_model) 200) data_error
      check (ltb 0 r.token_count) integrity_error
      check (not (any (λ c. c.id == r.id) db.chunks)) integrity_error
      check (not (any (same_ordinal r) db.chunks)) integrity_error
      check (has_note r.note_id db.tables) integrity_error
      modify (λ t. record t { chunks = t.chunks ++ r ∷ [] }))
      db
