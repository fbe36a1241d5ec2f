-- ===== src/Persistence/Ownership/Runs.antt =====
-- Actions that write rows of one note of the transaction's user, and how they compose.
use rag_anotacoes_sdd.Prelude.{
  ◌≡◌, refl, ap, ◌∙◌, Bool, true, not, ◌&&◌, Option, none, some, List, select, first,
  first-select_passes, Option-cases, inl, inr, ◌==◌, Uuid, arith, Result, ok, err, Error,
}
use rag_anotacoes_sdd.Persistence.Tables.{Tables, NoteRecord, NoteChunkRecord, IndexingJobRecord}
use rag_anotacoes_sdd.Persistence.Transactions.{
  Db, Tx, check, pure, lift, gets, raise, then_inversion, ◌>>=◌,
}
use rag_anotacoes_sdd.Persistence.Inserts.{write_note, insert_job, write_job, insert_chunk}
use rag_anotacoes_sdd.Persistence.Notes.{is_completed, delete_open_jobs}
use rag_anotacoes_sdd.Persistence.Jobs.{delete_chunks}
use rag_anotacoes_sdd.Persistence.Notes.Lock.{write_note-ok, insert_job-ok}
use rag_anotacoes_sdd.Persistence.Ownership.{
  owner_of, Writes, done, next, note_changed, job_added, job_changed, jobs_deleted, chunk_added,
  chunks_deleted,
}
use rag_anotacoes_sdd.Persistence.Ownership.Lists.{owner_of-update_where}
use rag_anotacoes_sdd.Persistence.Effects.{
  write_job-ok, insert_job-own, insert_chunk-ok, delete_open_jobs-ok, delete_chunks-ok,
}

pub Writes-trans : {u : Uuid} {t t' t'' : Tables} → Writes u t t' → Writes u t' t'' → Writes u t t''
Writes-trans ws done = ws
Writes-trans ws (next vs w) = next (Writes-trans ws vs) w

module _ (u id : Uuid) where
  -- The user and the owner of the note are as before, and only rows of the user were written.
  pub record Kept (before after : Db) : Type 0 where
    pub current : after.current_user ≡ some u
    pub owner : owner_of after.notes id ≡ some u
    pub writes : Writes u before.tables after.tables

  pub record Runs {A : Type 0} (m : Tx A) : Type 0 where
    pub run :
        (db : Db) {a : A} {db' : Db}
        → db.current_user ≡ some u
        → owner_of db.notes id ≡ some u
        → ◌≡◌ {A = Result A × Db} (m db) (ok a, db')
        → Kept db db'

module _ {u id : Uuid} where
  -- An action that leaves the database as it is.
  pub same-Runs :
      {A : Type 0} (m : Tx A)
      → ((db : Db) (a : A) (db' : Db) → ◌≡◌ {A = Result A × Db} (m db) (ok a, db') → db' ≡ db)
      → Runs u id m
  same-Runs m f = record {
    run =
        λ db {a} {db'} c o h. rw (f db a db' h) (record { current = c; owner = o; writes = done });
  }

  pub pure-Runs : {A : Type 0} (a : A) → Runs u id (pure a)
  pure-Runs a = same-Runs (pure a) (λ db a' db' h. ground arith)

  pub lift-Runs : {A : Type 0} (r : Result A) → Runs u id (lift r)
  lift-Runs r = same-Runs (lift r) (λ db a' db' h. ground arith)

  pub check-Runs : (b : Bool) (e : Error) → Runs u id (check b e)
  check-Runs b e = same-Runs (check b e) (λ db a' db' h. ground arith)

  pub raise-Runs : {A : Type 0} (e : Error) → Runs u id (raise {A = A} e)
  raise-Runs e = same-Runs (raise e) (λ db a' db' h. ground arith)

  pub >>=-Runs :
      {A B : Type 0} (m : Tx A) (f : A → Tx B)
      → Runs u id m
      → ((a : A) → Runs u id (f a))
      → Runs u id (m >>= f)
  >>=-Runs m f r s = record {
    run = λ db c o h.
        let (a, middle, e, e') = then_inversion m f db h in
        let k = r.run db c o e in
        let k' = (s a).run middle k.current k.owner e' in
        record { current = k'.current; owner = k'.owner; writes = Writes-trans k.writes k'.writes };
  }

  -- What is returned without the database is known in the rest.
  pub lift_then-Runs :
      {A B : Type 0} (r : Result A) (f : A → Tx B)
      → ((a : A) → r ≡ ok a → Runs u id (f a))
      → Runs u id (lift r >>= f)
  lift_then-Runs (ok a) f s = record { run = λ db c o h. (s a refl).run db c o h }
  lift_then-Runs (err e) f s = record { run = λ db c o h. (raise-Runs e).run db c o h }

  -- What is read is used with the state that it was read in.
  pub gets-Runs :
      {A B : Type 0} (g : Db → A) (f : A → Tx B)
      → ((db : Db) → db.current_user ≡ some u → Runs u id (f (g db)))
      → Runs u id (gets g >>= f)
  gets-Runs g f s = record { run = λ db c o h. (s db c).run db c o h }

  -- The first row that passes a test, where there is one.
  pub first-Runs :
      {R B : Type 0} (rows : Db → List R) (p : Db → R → Bool) (f : Option R → Tx B)
      → Runs u id (f none)
      → ((db : Db) → db.current_user ≡ some u → (r : R) → p db r ≡ true → Runs u id (f (some r)))
      → Runs u id (gets (λ db. first (select (p db) (rows db))) >>= f)
  first-Runs rows p f missing there =
      gets-Runs (λ db. first (select (p db) (rows db))) f
        (λ db c. elim (Option-cases (first (select (p db) (rows db)))) [
          | inl e ↦ rw e missing
          | inr (r, e) ↦ rw e (there db c r (first-select_passes (p db) (rows db) e))
        ])

  pub write_note-Runs : (r : NoteRecord) → r.user_id ≡ u → Runs u id (write_note r)
  write_note-Runs r own = record {
    run = λ db {a} {db'} c o h.
        let e = write_note-ok r db h in
        rw (e, c)
          (record {
            current = refl;
            owner = owner_of-update_where db.notes r id u own ∙ o;
            writes = next done (note_changed r own refl);
          });
  }

  -- Row-level security admits only rows of the user.
  pub insert_job-Runs : (j : IndexingJobRecord) → j.note_id ≡ id → Runs u id (insert_job j)
  insert_job-Runs j of = record {
    run = λ db {a} {db'} c o h.
        let e = insert_job-ok j db h in
        let own : j.user_id ≡ u = insert_job-own j u db c h in
        rw e (record {
          current = c;
          owner = o;
          writes = next done (job_added j own (ap (owner_of db.notes) of ∙ o) refl);
        });
  }

  pub write_job-Runs :
      (j : IndexingJobRecord) → j.user_id ≡ u → j.note_id ≡ id → Runs u id (write_job j)
  write_job-Runs j own of = record {
    run = λ db {a} {db'} c o h.
        let e = write_job-ok j db h in
        rw (e, c)
          (record {
            current = refl;
            owner = o;
            writes = next done (job_changed j own (ap (owner_of db.notes) of ∙ o) refl);
          });
  }

  pub insert_chunk-Runs :
      (k : NoteChunkRecord) → k.user_id ≡ u → k.note_id ≡ id → Runs u id (insert_chunk k)
  insert_chunk-Runs k own of = record {
    run = λ db {a} {db'} c o h.
        let e = insert_chunk-ok k db h in
        rw e (record {
          current = c;
          owner = o;
          writes = next done (chunk_added k own (ap (owner_of db.notes) of ∙ o) refl);
        });
  }

  pub delete_open_jobs-Runs : (note_id : Uuid) → Runs u id (delete_open_jobs note_id)
  delete_open_jobs-Runs note_id = record {
    run = λ db {a} {db'} c o h.
        let e = delete_open_jobs-ok note_id u db c h in
        rw e (record {
          current = c;
          owner = o;
          writes =
              next done
                (jobs_deleted (λ j. j.note_id == note_id && not (is_completed j.status)) refl);
        });
  }

  pub delete_chunks-Runs : (note_id : Uuid) → Runs u id (delete_chunks note_id)
  delete_chunks-Runs note_id = record {
    run = λ db {a} {db'} c o h.
        let e = delete_chunks-ok note_id u db c h in
        rw e (record {
          current = c;
          owner = o;
          writes = next done (chunks_deleted (λ k. k.note_id == note_id) refl);
        });
  }

-- The rules for a whole action: what each step needs of its rows is found among the hypotheses.
pub ruleset runs_rules = (
  pure-Runs, lift-Runs, raise-Runs, write_note-Runs, insert_job-Runs, insert_chunk-Runs,
  delete_open_jobs-Runs, delete_chunks-Runs, write_job-Runs, >>=-Runs,
)
