-- ===== src/Persistence/Notes.antt =====
-- persistence/repositories.py, `NoteRepository`: the notes of one user.
pub mod Lock
pub mod Pages
pub mod Strict
use rag_anotacoes_sdd.Prelude.{
  ℕ, Bool, true, false, not, ◌&&◌, ◌||◌, Option, none, some, List, [], ◌∷◌, select, first, any,
  take, ltb, ◌==◌, if◌then◌else◌, Uuid, Instant, value_error, owner_mismatch,
}
use rag_anotacoes_sdd.Domain.Notes.{Note}
use rag_anotacoes_sdd.Domain.Jobs.{JobStatus, pending_job}
use rag_anotacoes_sdd.Persistence.Tables.{Tables, NoteRecord}
use rag_anotacoes_sdd.Persistence.Transactions.{
  Db, Tx, pure, gets, check, modify, is_owner, set_current_user, assert_current_user, ◌>>=◌, ◌>>◌,
}
use rag_anotacoes_sdd.Persistence.Inserts.{insert_note, write_note, insert_job}

-- `prepare`: before every operation of a gateway.
unfoldable pub prepare : Uuid → Tx (Unit {0})
prepare user_id = do set_current_user user_id; assert_current_user user_id

-- `_owned`, as the transaction sees it: the rows of the user that row-level security shows.
abbrev pub is_owned : Uuid → Db → NoteRecord → Bool
is_owned user_id db r = r.user_id == user_id && is_owner db.current_user r.user_id

-- `uuid4()` of the new job is an argument.
unfoldable pub add : Uuid → Uuid → Note → Tx (Unit {0})
add user_id job_id note = do
  check (note.user_id == user_id) (value_error owner_mismatch)
  insert_note note
  insert_job (pending_job job_id note.id note.user_id note.version note.created_at)

unfoldable pub get : Uuid → Uuid → Tx (Option Note)
get user_id note_id =
    gets λ db. first (select (λ r. is_owned user_id db r && r.id == note_id) db.notes)

-- `ORDER BY updated_at DESC, id DESC`: whether `a` comes before `b`.
abbrev pub is_before : Note → Note → Bool
is_before a b = ltb b.updated_at a.updated_at || a.updated_at == b.updated_at && ltb b.id a.id

unfoldable pub insert_sorted : Note → List Note → List Note
insert_sorted n [] = n ∷ []
insert_sorted n (m ∷ ms) =
    let rest = insert_sorted n ms in if is_before n m then n ∷ m ∷ ms else m ∷ rest

unfoldable pub sort_notes : List Note → List Note
unfolding insert_sorted
sort_notes [] = []
sort_notes (n ∷ ns) = insert_sorted n (sort_notes ns)

-- The `before` clause: the rows that come after the last one of the page before.
abbrev pub is_after : Option (Instant × Uuid) → Note → Bool
is_after none r = true
is_after (some (updated_at, note_id)) r =
    ltb r.updated_at updated_at || r.updated_at == updated_at && ltb r.id note_id

unfoldable pub list : Uuid → ℕ → Option (Instant × Uuid) → Tx (List Note)
list user_id limit before = gets λ db.
    take limit (sort_notes (select (λ r. is_owned user_id db r && is_after before r) db.notes))

-- `setattr` of the seven fields.
unfoldable pub assign : NoteRecord → Note → NoteRecord
assign r note = record r {
  title = note.title;
  content = note.content;
  version = note.version;
  semantic_status = note.semantic_status;
  semantic_error_code = note.semantic_error_code;
  semantic_updated_at = note.semantic_updated_at;
  updated_at = note.updated_at;
}

abbrev pub is_completed : JobStatus → Bool
is_completed JobStatus.completed = true
is_completed _ = false

-- `delete(IndexingJobRecord)` of the note's jobs that are not completed.
unfoldable pub delete_open_jobs : Uuid → Tx (Unit {0})
delete_open_jobs note_id db =
    modify
      (λ t. record t {
        jobs =
            select
              (λ j. not (
                j.note_id == note_id
                && not (is_completed j.status)
                && is_owner db.current_user j.user_id))
              t.jobs;
      })
      db

abbrev pub save_record : Uuid → Note → Option NoteRecord → Tx Bool
save_record job_id note none = pure false
save_record job_id note (some r) = do
  delete_open_jobs note.id
  write_note (assign r note)
  insert_job (pending_job job_id note.id note.user_id note.version note.updated_at)
  pure true

unfoldable pub save : Uuid → Uuid → Note → ℕ → Tx Bool
unfolding assign delete_open_jobs
save user_id job_id note expected_version = do
  found ← gets λ db. first (
      select (λ r. is_owned user_id db r && r.id == note.id && r.version == expected_version)
        db.notes)
  save_record job_id note found

-- `DELETE` of the owned row. The foreign keys of chunks and jobs cascade, past row-level security.
abbrev pub without_note : Uuid → Tables → Tables
without_note note_id t = record t {
  notes = select (λ n. not (n.id == note_id)) t.notes;
  chunks = select (λ c. not (c.note_id == note_id)) t.chunks;
  jobs = select (λ j. not (j.note_id == note_id)) t.jobs;
}

unfoldable pub delete : Uuid → Uuid → Tx Bool
delete user_id note_id = do
  found ← gets (λ db. any (λ r. is_owned user_id db r && r.id == note_id) db.notes)
  if found then (do modify (without_note note_id); pure true) else pure false
