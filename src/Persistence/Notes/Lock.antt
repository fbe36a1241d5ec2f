-- ===== src/Persistence/Notes/Lock.antt =====
-- The optimistic lock of `NoteRepository.save`.
use mathlib.Core.Path.{subst}
use rag_anotacoes_sdd.Prelude.{
  ℕ, ◌⊎◌, first-select_passes, first-select_fails, ◌≡◌, inl, inr, Bool, true, false, ◌&&◌, not,
  none, some, [], ◌∷◌, ◌++◌, All, select, first, arith, Option-cases, Uuid, Result, ok, ◌==◌,
}
use rag_anotacoes_sdd.Domain.Notes.{Note}
use rag_anotacoes_sdd.Domain.Jobs.{JobStatus, pending_job}
use rag_anotacoes_sdd.Persistence.Tables.{NoteRecord, IndexingJobRecord, update_where}
use rag_anotacoes_sdd.Persistence.Transactions.{Db, is_owner, pure, then_inversion, ◌>>◌}
use rag_anotacoes_sdd.Persistence.Inserts.{write_note, insert_job}
use rag_anotacoes_sdd.Persistence.Notes.{
  is_owned, assign, delete_open_jobs, save, save_record, is_completed,
}

-- The row that a save may replace.
abbrev pub is_expected : Uuid → Note → ℕ → Db → NoteRecord → Bool
is_expected user_id note expected_version db r =
    is_owned user_id db r && r.id == note.id && r.version == expected_version

pub write_note-ok :
    (r : NoteRecord) (db : Db) {db' : Db}
    → ◌≡◌ {A = Result (Unit {0}) × Db} (write_note r db) (ok tt, db')
    → db' ≡ record db {
      tables = record (db.tables) {
        notes =
            update_where
              (λ n. n.id == r.id && is_owner db.current_user n.user_id)
              (λ _. r)
              db.notes;
      };
    }
unfolding write_note
write_note-ok r db h = ground arith

pub insert_job-ok :
    (r : IndexingJobRecord) (db : Db) {db' : Db}
    → ◌≡◌ {A = Result (Unit {0}) × Db} (insert_job r db) (ok tt, db')
    → db' ≡ record db { tables = record (db.tables) { jobs = db.jobs ++ r ∷ [] } }
unfolding insert_job
insert_job-ok r db h = ground arith

-- The notes, the jobs and the chunks after a save of `note` over the row `r`: the row has the new
-- fields, the note's jobs that are not completed are replaced by one new job, and the published
-- chunks stay.
pub record IsSaved (job_id : Uuid) (note : Note) (r : NoteRecord) (db db' : Db) : Type 0 where
  pub notes :
      db'.notes
      ≡ update_where
          (λ n. n.id == r.id && is_owner db.current_user n.user_id)
          (λ _. record r {
            title = note.title;
            content = note.content;
            version = note.version;
            semantic_status = note.semantic_status;
            semantic_error_code = note.semantic_error_code;
            semantic_updated_at = note.semantic_updated_at;
            updated_at = note.updated_at;
          })
          db.notes
  pub jobs :
      db'.jobs
      ≡ select
          (λ j. not (
            j.note_id == note.id
            && not (is_completed j.status)
            && is_owner db.current_user j.user_id))
          db.jobs
        ++ record {
          id = job_id;
          note_id = note.id;
          user_id = note.user_id;
          note_version = note.version;
          status = JobStatus.pending;
          attempt_count = 0;
          available_at = note.updated_at;
          claimed_at = none;
          lease_expires_at = none;
          last_error_code = none;
          created_at = note.updated_at;
          completed_at = none;
        }
          ∷ []
  pub chunks : db'.chunks ≡ db.chunks

save_record-IsSaved :
    (job_id : Uuid) (note : Note) (r : NoteRecord) (db : Db) {b : Bool} {db' : Db}
    → ◌≡◌ {A = Result Bool × Db} (save_record job_id note (some r) db) (ok b, db')
    → (b ≡ true) × IsSaved job_id note r db db'
unfolding assign delete_open_jobs pending_job
save_record-IsSaved job_id note r db h =
    let (_, first_state, e, h') =
      then_inversion (delete_open_jobs note.id)
        (λ _.
          write_note (assign r note)
          >> (insert_job (pending_job job_id note.id note.user_id note.version note.updated_at)
              >> pure true))
        db h in
    let (_, second_state, e', h'') =
      then_inversion (write_note (assign r note))
        (λ _.
          insert_job (pending_job job_id note.id note.user_id note.version note.updated_at)
          >> pure true)
        first_state h' in
    let (_, third_state, e'', h''') =
      then_inversion
        (insert_job (pending_job job_id note.id note.user_id note.version note.updated_at))
        (λ _. pure true) second_state h'' in
    let wrote = write_note-ok (assign r note) first_state e' in
    let queued =
      insert_job-ok (pending_job job_id note.id note.user_id note.version note.updated_at)
        second_state e'' in
    (ground arith, record { notes = ground arith; jobs = ground arith; chunks = ground arith })

-- A save answers `True` exactly where the user has a stored row with the note's identifier and the
-- expected version: then the first such row gets the note's title, content, version, index status
-- and time, one new job waits in place of the note's jobs that are not completed, and no chunk has
-- changed. It answers `False` exactly where there is no such row, and then nothing has changed.
pub save-IsSaved :
    (user_id job_id : Uuid) (note : Note) (expected_version : ℕ) (db : Db) {b : Bool} {db' : Db}
    → save user_id job_id note expected_version db ≡ (ok b, db')
    → ((b ≡ true)
        × (r : NoteRecord) × (is_expected user_id note expected_version db r ≡ true)
        × (first (select (is_expected user_id note expected_version db) db.notes) ≡ some r)
        × IsSaved job_id note r db db')
      ⊎ ((b ≡ false)
          × All (λ r. is_expected user_id note expected_version db r ≡ false) db.notes
          × (db' ≡ db))
unfolding save
save-IsSaved user_id job_id note expected_version db {b} {db'} h =
    elim (Option-cases (first (select (is_expected user_id note expected_version db) db.notes))) [
      | inl e ↦ inr (
        ground arith,
        first-select_fails (is_expected user_id note expected_version db) db.notes e,
        ground arith,
      )
      | inr (r, e) ↦
          let (same, saved) = save_record-IsSaved job_id note r db (
            subst (λ o. ◌≡◌ {A = Result Bool × Db} (save_record job_id note o db) (ok b, db')) e
              h) in
          inl (
            same,
            r,
            first-select_passes (is_expected user_id note expected_version db) db.notes e,
            e,
            saved,
          )
    ]
