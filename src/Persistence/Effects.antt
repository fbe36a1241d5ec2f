-- ===== src/Persistence/Effects.antt =====
-- What one write of a transaction that does not raise leaves.
use rag_anotacoes_sdd.Prelude.{
  ◌≡◌, refl, sym, ap, ◌∙◌, Bool, true, false, not, ◌&&◌, some, [], ◌∷◌, ◌++◌, select, ◌==◌, Uuid,
  arith, Result, ok,
}
use rag_anotacoes_sdd.Persistence.Tables.{NoteChunkRecord, IndexingJobRecord, update_where}
use rag_anotacoes_sdd.Persistence.Transactions.{Db, is_owner}
use rag_anotacoes_sdd.Persistence.Inserts.{insert_job, write_job, insert_chunk}
use rag_anotacoes_sdd.Persistence.Notes.{is_completed, delete_open_jobs}
use rag_anotacoes_sdd.Persistence.Jobs.{delete_chunks}

and_swap : (a b c : Bool) → (a && b && c) ≡ ((a && b) && c)
and_swap true b c = refl
and_swap false b c = refl

pub write_job-ok :
    (j : IndexingJobRecord) (db : Db) {db' : Db}
    → ◌≡◌ {A = Result (Unit {0}) × Db} (write_job j db) (ok tt, db')
    → db' ≡ record db {
      tables = record (db.tables) {
        jobs =
            update_where (λ k. k.id == j.id && is_owner db.current_user k.user_id) (λ _. j) db.jobs;
      };
    }
unfolding write_job
write_job-ok j db h = ground arith

pub insert_job-own :
    (j : IndexingJobRecord) (u : Uuid) (db : Db) {db' : Db}
    → db.current_user ≡ some u
    → ◌≡◌ {A = Result (Unit {0}) × Db} (insert_job j db) (ok tt, db')
    → j.user_id ≡ u
unfolding insert_job
insert_job-own j u db c h = ground (arith, c)

pub insert_chunk-ok :
    (k : NoteChunkRecord) (db : Db) {db' : Db}
    → ◌≡◌ {A = Result (Unit {0}) × Db} (insert_chunk k db) (ok tt, db')
    → db' ≡ record db { tables = record (db.tables) { chunks = db.chunks ++ k ∷ [] } }
unfolding insert_chunk
insert_chunk-ok k db h = ground arith

pub delete_open_jobs-ok :
    (note_id u : Uuid) (db : Db) {db' : Db}
    → db.current_user ≡ some u
    → ◌≡◌ {A = Result (Unit {0}) × Db} (delete_open_jobs note_id db) (ok tt, db')
    → db' ≡ record db {
      tables = record (db.tables) {
        jobs =
            select
              (λ j. not ((j.note_id == note_id && not (is_completed j.status)) && j.user_id == u))
              db.jobs;
      };
    }
unfolding delete_open_jobs
delete_open_jobs-ok note_id u db c h =
    sym (ap (λ r. r.1) h)
    ∙ rw c (
        ap
          (λ (f : IndexingJobRecord → Bool). record db {
            tables = record (db.tables) { jobs = select f db.jobs };
            current_user = some u;
          })
          (λ i j.
            not (and_swap (j.note_id == note_id) (not (is_completed j.status)) (j.user_id == u) i)))

pub delete_chunks-ok :
    (note_id u : Uuid) (db : Db) {db' : Db}
    → db.current_user ≡ some u
    → ◌≡◌ {A = Result (Unit {0}) × Db} (delete_chunks note_id db) (ok tt, db')
    → db' ≡ record db {
      tables = record (db.tables) {
        chunks = select (λ k. not (k.note_id == note_id && k.user_id == u)) db.chunks;
      };
    }
unfolding delete_chunks
delete_chunks-ok note_id u db c h = sym (ap (λ r. r.1) h) ∙ rw c refl
