-- ===== src/Services/Indexing/Stored.antt =====
-- What the writes of a publication leave together.
use mathlib.Core.List.{append_assoc}
use rag_anotacoes_sdd.Prelude.{
  ℕ, suc, ◌≡◌, refl, sym, ap, ◌∙◌, Bool, true, not, ◌&&◌, none, some, List, [], ◌∷◌, ◌++◌, select,
  length, ◌==◌, Uuid, Instant, Result, ok, append-nil, arith,
}
use rag_anotacoes_sdd.Text.{Text}
use rag_anotacoes_sdd.Domain.Chunking.{TextChunk}
use rag_anotacoes_sdd.Domain.Notes.{SemanticStatus}
use rag_anotacoes_sdd.Domain.Jobs.{JobStatus, IndexingJob, complete}
use rag_anotacoes_sdd.Persistence.Tables.{
  NoteRecord, NoteChunkRecord, IndexingJobRecord, Vector, update_where,
}
use rag_anotacoes_sdd.Persistence.Transactions.{
  Db, Tx, lift, pure, is_owner, then_inversion, ◌>>=◌, ◌>>◌,
}
use rag_anotacoes_sdd.Persistence.Inserts.{write_note, write_job, insert_chunk}
use rag_anotacoes_sdd.Persistence.Notes.Lock.{write_note-ok}
use rag_anotacoes_sdd.Persistence.Effects.{write_job-ok, insert_chunk-ok, delete_chunks-ok}
use rag_anotacoes_sdd.Persistence.Jobs.{
  add_chunks, chunk_record, delete_chunks, publish_records, marked_ready,
}
use rag_anotacoes_sdd.Services.Indexing.{Ports}

-- The rows of the chunks, numbered from `i` on: each has its chunk's text, count and embedding.
unfoldable pub chunk_rows :
    (ℕ → Uuid)
    → ℕ
    → IndexingJob
    → Text
    → Instant
    → List TextChunk
    → List Vector
    → List NoteChunkRecord
chunk_rows fresh i job model now [] es = []
chunk_rows fresh i job model now (c ∷ cs) [] = []
chunk_rows fresh i job model now (c ∷ cs) (e ∷ es) =
    record {
      id = fresh i;
      note_id = job.note_id;
      user_id = job.user_id;
      note_version = job.note_version;
      ordinal = c.ordinal;
      text = c.text;
      token_count = c.token_count;
      embedding = e;
      embedding_model = model;
      created_at = now;
    }
    ∷ chunk_rows fresh (suc i) job model now cs es

add_chunks-ok :
    (fresh : ℕ → Uuid) (i : ℕ) (job : IndexingJob) (model : Text) (now : Instant)
    (cs : List TextChunk) (es : List Vector) (db : Db) {db' : Db}
    → ◌≡◌ {A = Result (Unit {0}) × Db} (add_chunks fresh i job model now cs es db) (ok tt, db')
    → (length es ≡ length cs)
      × (db' ≡ record db {
        tables = record (db.tables) {
          chunks = db.chunks ++ chunk_rows fresh i job model now cs es;
        };
      })
unfolding add_chunks chunk_rows
add_chunks-ok fresh i job model now [] [] db h = (
  refl,
  sym (ap (λ r. r.1) h)
      ∙ ap (λ (l : List NoteChunkRecord). record db { tables = record (db.tables) { chunks = l } })
          (sym (append-nil db.chunks)),
)
add_chunks-ok fresh i job model now [] (e ∷ es) db h = cc
add_chunks-ok fresh i job model now (c ∷ cs) [] db h = cc
add_chunks-ok fresh i job model now (c ∷ cs) (e ∷ es) db {db'} h =
    let row = chunk_record (fresh i) job c e model now in
    let (_, middle, inserted, h') =
      then_inversion (insert_chunk row) (λ _. add_chunks fresh (suc i) job model now cs es) db h in
    let at = insert_chunk-ok row db inserted in
    let (same, rest) = add_chunks-ok fresh (suc i) job model now cs es middle h' in
    (
      ap suc same,
      rest
          ∙ rw at (
              ap
                (λ (l : List NoteChunkRecord). record db {
                  tables = record (db.tables) { chunks = l };
                })
                (append_assoc db.chunks (row ∷ []) (chunk_rows fresh (suc i) job model now cs es))),
    )

completed_lem :
    (job : IndexingJob) (now : Instant) (after : IndexingJob)
    → complete job now ≡ ok after
    → after ≡ record job {
      status = JobStatus.completed;
      completed_at = some now;
      lease_expires_at = none;
      last_error_code = none;
    }
unfolding complete
completed_lem job now after h = ground arith

-- What stands after a publication of the job's note `r`.
pub record IsStored (p : Ports) (now : Instant) (job : IndexingJob) (r : NoteRecord)
    (cs : List TextChunk) (es : List Vector) (db db' : Db) : Type 0 where
  pub accounts : (db'.users ≡ db.users) × (db'.sessions ≡ db.sessions)
  pub as_many : length es ≡ length cs
  pub chunks :
      db'.chunks
      ≡ select (λ k. not (k.note_id == job.note_id && k.user_id == job.user_id)) db.chunks
        ++ chunk_rows p.fresh 0 job p.embedding_model now cs es
  pub notes :
      db'.notes
      ≡ update_where
          (λ n. n.id == r.id && n.user_id == job.user_id)
          (λ _. record r {
            semantic_status = SemanticStatus.ready;
            semantic_error_code = none;
            semantic_updated_at = some now;
          })
          db.notes
  pub after : IndexingJob
  pub ended : after ≡ record job {
    status = JobStatus.completed;
    completed_at = some now;
    lease_expires_at = none;
    last_error_code = none;
  }
  pub jobs :
      db'.jobs
      ≡ update_where (λ j. j.id == after.id && j.user_id == job.user_id) (λ _. after) db.jobs

pub lift_ok :
    {A : Type 0} (r : Result A) (db : Db) {a : A} {db' : Db}
    → ◌≡◌ {A = Result A × Db} (lift r db) (ok a, db')
    → (r ≡ ok a) × (db' ≡ db)
lift_ok r db h = (ap (λ x. x.0) h, sym (ap (λ x. x.1) h))

module _ (p : Ports) (now : Instant) (job : IndexingJob) where
  abbrev with_chunks : Db → List NoteChunkRecord → Db
  with_chunks db l = record db { tables = record (db.tables) { chunks = l } }

  abbrev with_notes : Db → List NoteRecord → Db
  with_notes db l = record db { tables = record (db.tables) { notes = l } }

  abbrev with_jobs : Db → List IndexingJobRecord → Db
  with_jobs db l = record db { tables = record (db.tables) { jobs = l } }

  -- The states between the writes.
  put_together :
      (r : NoteRecord) (cs : List TextChunk) (es : List Vector) (db db1 db2 db3 db4 db5 db' : Db)
      (after : IndexingJob)
      → db.current_user ≡ some job.user_id
      → length es ≡ length cs
      → complete job now ≡ ok after
      → db1
        ≡ with_chunks db
            (select (λ k. not (k.note_id == job.note_id && k.user_id == job.user_id)) db.chunks)
      → db2 ≡ with_chunks db1 (db1.chunks ++ chunk_rows p.fresh 0 job p.embedding_model now cs es)
      → db3
        ≡ with_notes db2 (
            update_where
              (λ n. n.id == r.id && is_owner db2.current_user n.user_id)
              (λ _. marked_ready r now)
              db2.notes)
      → db4 ≡ db3
      → db5
        ≡ with_jobs db4 (
            update_where
              (λ j. j.id == after.id && is_owner db4.current_user j.user_id)
              (λ _. after)
              db4.jobs)
      → db' ≡ db5
      → IsStored p now job r cs es db db'
  put_together r cs es db db1 db2 db3 db4 db5 db' after own as_many done at1 at2 at3 at4 at5 end =
      record {
        accounts = (rw (end, at5, at4, at3, at2, at1) refl, rw (end, at5, at4, at3, at2, at1) refl);
        as_many = as_many;
        chunks = rw (end, at5, at4, at3, at2, at1) refl;
        notes = rw (end, at5, at4, at3, at2, at1, own) refl;
        after = after;
        ended = completed_lem job now after done;
        jobs = rw (end, at5, at4, at3, at2, at1, own) refl;
      }

  pub publish_records-IsStored :
      (r : NoteRecord) (row : IndexingJobRecord) (cs : List TextChunk) (es : List Vector) (db : Db)
      {b : Bool} {db' : Db}
      → db.current_user ≡ some job.user_id
      → ◌≡◌ {A = Result Bool × Db}
          (publish_records p.fresh job cs es p.embedding_model now (some r) (some row) db)
          (ok b, db')
      → IsStored p now job r cs es db db'
  unfolding delete_chunks
  publish_records-IsStored r row cs es db {b} {db'} own h =
      let ended : Tx Bool = (lift (complete job now) >>= λ after. write_job after >> pure true) in
      let marked : Tx Bool = (write_note (marked_ready r now) >> ended) in
      let (_, db1, e1, h1) =
        then_inversion (delete_chunks job.note_id)
          (λ _. add_chunks p.fresh 0 job p.embedding_model now cs es >> marked) db h in
      let (_, db2, e2, h2) =
        then_inversion (add_chunks p.fresh 0 job p.embedding_model now cs es) (λ _. marked) db1
          h1 in
      let (_, db3, e3, h3) = then_inversion (write_note (marked_ready r now)) (λ _. ended) db2 h2 in
      let (after, db4, e4, h4) =
        then_inversion (lift (complete job now)) (λ after. write_job after >> pure true) db3 h3 in
      let (_, db5, e5, h5) = then_inversion (write_job after) (λ _. pure true) db4 h4 in
      let at1 = delete_chunks-ok job.note_id job.user_id db own e1 in
      let (as_many, at2) = add_chunks-ok p.fresh 0 job p.embedding_model now cs es db1 e2 in
      let at3 = write_note-ok (marked_ready r now) db2 e3 in
      let (done, at4) = lift_ok (complete job now) db3 e4 in
      let at5 = write_job-ok after db4 e5 in
      put_together r cs es db db1 db2 db3 db4 db5 db' after own as_many done at1 at2 at3 at4 at5
        (sym (ap (λ x. x.1) h5))
