-- ===== src/Services/Indexing/Changes.antt =====
-- What the actions of the worker do to the queue, as a relation between the jobs before and after,
-- and how they compose.
use rag_anotacoes_sdd.Prelude.{
  ◌≡◌, refl, sym, ap, ◌&&◌, ◌==◌, Option, List, Uuid, arith, Result, ok, err, Error,
}
use rag_anotacoes_sdd.Domain.Jobs.{IndexingJob}
use rag_anotacoes_sdd.Persistence.Tables.{
  NoteRecord, NoteChunkRecord, IndexingJobRecord, update_where,
}
use rag_anotacoes_sdd.Persistence.Transactions.{
  Db, Tx, lift, pure, gets, raise, is_owner, then_inversion, ◌>>=◌,
}
use rag_anotacoes_sdd.Persistence.Inserts.{write_note, write_job, insert_chunk}
use rag_anotacoes_sdd.Persistence.Notes.Lock.{write_note-ok}
use rag_anotacoes_sdd.Persistence.Jobs.{delete_chunks}
use rag_anotacoes_sdd.Persistence.Effects.{write_job-ok, insert_chunk-ok}

abbrev pub Relation : Type 1
Relation = List IndexingJobRecord → List IndexingJobRecord → Type 0

pub record IsPreorder (R : Relation) : Type 0 where
  pub same : (js : List IndexingJobRecord) → R js js
  pub both : (a b c : List IndexingJobRecord) → R a b → R b c → R a c

-- An action that ends without an exception leaves jobs that are related to those before.
pub record Changes (R : Relation) {A : Type 0} (m : Tx A) : Type 0 where
  pub run :
      (db : Db) {a : A} {db' : Db} → ◌≡◌ {A = Result A × Db} (m db) (ok a, db') → R db.jobs db'.jobs

-- A job that may be written over the rows that have its identifier.
abbrev pub Kept : Relation → IndexingJob → Type 0
Kept R job =
    (user : Option Uuid) (js : List IndexingJobRecord)
    → R js (update_where (λ k. k.id == job.id && is_owner user k.user_id) (λ _. job) js)

module _ (R : Relation) (order : IsPreorder R) where
  pub same-Changes :
      {A : Type 0} (m : Tx A)
      → ((db : Db) (a : A) (db' : Db)
          → ◌≡◌ {A = Result A × Db} (m db) (ok a, db')
          → db'.jobs ≡ db.jobs)
      → Changes R m
  same-Changes m f = record { run = λ db {a} {db'} h. rw (f db a db' h) (order.same db.jobs) }

  pub >>=-Changes :
      {A B : Type 0} (m : Tx A) (f : A → Tx B)
      → Changes R m
      → ((a : A) → Changes R (f a))
      → Changes R (m >>= f)
  >>=-Changes m f r s = record {
    run = λ db {a = b} {db'} h.
        let (a, middle, e, e') = then_inversion m f db h in
        order.both db.jobs middle.jobs db'.jobs (r.run db e) ((s a).run middle e');
  }

  pub pure-Changes : {A : Type 0} (a : A) → Changes R (pure a)
  pure-Changes a = same-Changes (pure a) (λ db a' db' h. ground arith)

  pub lift-Changes : {A : Type 0} (r : Result A) → Changes R (lift r)
  lift-Changes r = same-Changes (lift r) (λ db a' db' h. ground arith)

  pub raise-Changes : {A : Type 0} (e : Error) → Changes R (raise {A = A} e)
  raise-Changes e = same-Changes (raise e) (λ db a' db' h. ground arith)

  pub lift_then-Changes :
      {A B : Type 0} (r : Result A) (f : A → Tx B)
      → ((a : A) → r ≡ ok a → Changes R (f a))
      → Changes R (lift r >>= f)
  lift_then-Changes (ok a) f s = record { run = λ db h. (s a refl).run db h }
  lift_then-Changes (err e) f s = record { run = λ db h. (raise-Changes e).run db h }

  pub gets-Changes :
      {A B : Type 0} (g : Db → A) (f : A → Tx B)
      → ((a : A) → Changes R (f a))
      → Changes R (gets g >>= f)
  gets-Changes g f s = record { run = λ db h. (s (g db)).run db h }

  pub reads-Changes : {A : Type 0} (g : Db → A) → Changes R (gets g)
  reads-Changes g = same-Changes (gets g) (λ db a' db' h. ground arith)

  pub write_note-Changes : (r : NoteRecord) → Changes R (write_note r)
  write_note-Changes r = same-Changes (write_note r) (λ db a db' h. rw (write_note-ok r db h) refl)

  pub insert_chunk-Changes : (c : NoteChunkRecord) → Changes R (insert_chunk c)
  insert_chunk-Changes c =
      same-Changes (insert_chunk c) (λ db a db' h. rw (insert_chunk-ok c db h) refl)

  pub delete_chunks-Changes : (id : Uuid) → Changes R (delete_chunks id)
  unfolding delete_chunks
  delete_chunks-Changes id =
      same-Changes (delete_chunks id) (λ db a db' h. sym (ap (λ r. r.1.jobs) h))

  pub write_job-Changes : (j : IndexingJob) → Kept R j → Changes R (write_job j)
  write_job-Changes j kept = record {
    run = λ db h. rw (write_job-ok j db h) (kept db.current_user db.jobs);
  }

pub ruleset changes_rules = (
  pure-Changes, lift-Changes, raise-Changes, reads-Changes, write_note-Changes,
  insert_chunk-Changes, delete_chunks-Changes, >>=-Changes,
)
