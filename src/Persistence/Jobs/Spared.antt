-- ===== src/Persistence/Jobs/Spared.antt =====
-- What the repository does to a job leaves in place: the chunks, unless it publishes.
use rag_anotacoes_sdd.Prelude.{
  ℕ, select, ◌&&◌, ◌≡◌, ◌∙◌, Bool, true, false, Option, none, some, arith, Instant, Result, ok,
  ◌==◌, if◌then◌else◌,
}
use rag_anotacoes_sdd.Text.{Text}
use rag_anotacoes_sdd.Domain.Notes.{Note}
use rag_anotacoes_sdd.Domain.Jobs.{IndexingJob, claim, fail_transient, default_maximum_attempts}
use rag_anotacoes_sdd.Persistence.Tables.{NoteRecord, IndexingJobRecord}
use rag_anotacoes_sdd.Persistence.Transactions.{
  Db, Tx, is_owner, set_current_user, pure, lift, gets, ◌>>=◌, then_inversion,
}
use rag_anotacoes_sdd.Persistence.Inserts.{write_note, write_job}
use rag_anotacoes_sdd.Persistence.Jobs.{
  is_due, earliest, claim_next, claim_indexing_job, update_claimed, claim_record, note_for_job,
  fail, fail_record, fail_note, is_failed, marked_failed,
}

-- `m`, when it returns, has left the chunks as they were.
abbrev pub Spares : {A : Type 0} → Tx A → Type 0
Spares {A} m =
    (db : Db) (a : A) (db' : Db)
    → ◌≡◌ {A = Result A × Db} (m db) (ok a, db')
    → db'.chunks ≡ db.chunks

pub write_job-Spares : (j : IndexingJob) → Spares (write_job j)
unfolding write_job
write_job-Spares j db a db' h = ground arith

pub write_note-Spares : (n : Note) → Spares (write_note n)
unfolding write_note
write_note-Spares n db a db' h = ground arith

pub pure-Spares : {A : Type 0} (a : A) → Spares (pure a)
pure-Spares a db b db' h = ground arith

pub lift-Spares : {A : Type 0} (r : Result A) → Spares (lift r)
lift-Spares r db b db' h = ground arith

pub gets-Spares : {A : Type 0} (f : Db → A) → Spares (gets f)
gets-Spares f db b db' h = ground arith

pub then-Spares :
    {A B : Type 0} (m : Tx A) (f : A → Tx B)
    → Spares m
    → ((a : A) → Spares (f a))
    → Spares (m >>= f)
then-Spares m f s t db b db' h =
    let (a, middle, e, e') = then_inversion m f db h in t a middle b db' e' ∙ s db a middle e

pub branch-Spares :
    {A : Type 0} (b : Bool) {m n : Tx A} → Spares m → Spares n → Spares (if b then m else n)
branch-Spares true s t db a db' h = s db a db' h
branch-Spares false s t db a db' h = t db a db' h

pub fail_note-Spares :
    (job : IndexingJob) (code : Text) (now : Instant) (o : Option NoteRecord)
    → Spares (fail_note job code now o)
fail_note-Spares job code now none = pure-Spares tt
fail_note-Spares job code now (some note) =
    branch-Spares (note.version == job.note_version)
      (write_note-Spares (marked_failed note code now)) (pure-Spares tt)

pub note_for_job-Spares : (job : IndexingJob) → Spares (note_for_job job)
unfolding note_for_job set_current_user
note_for_job-Spares job db a db' h = ground arith

pub fail_record-Spares :
    (job : IndexingJob) (code : Text) (now : Instant) (o : Option IndexingJobRecord)
    → Spares (fail_record job code now o)
fail_record-Spares job code now none = λ db a db' h. cc
fail_record-Spares job code now (some row) =
    then-Spares _ _ (lift-Spares (fail_transient job code now default_maximum_attempts)) (λ failed.
      then-Spares _ _ (write_job-Spares failed) (λ _.
        then-Spares _ _
          (branch-Spares (is_failed failed.status)
            (then-Spares _ _ (gets-Spares _) (λ note. fail_note-Spares job code now note))
            (pure-Spares tt))
          (λ _. pure-Spares failed)))

pub fail-Spares : (job : IndexingJob) (code : Text) (now : Instant) → Spares (fail job code now)
unfolding fail
fail-Spares job code now =
    then-Spares _ _ (gets-Spares _) (λ row. fail_record-Spares job code now row)

pub update_claimed-Spares :
    (now : Instant) (lease_seconds : ℕ) (o : Option IndexingJobRecord)
    → Spares (update_claimed now lease_seconds o)
update_claimed-Spares now lease_seconds none = pure-Spares none
update_claimed-Spares now lease_seconds (some r) = λ db a db' h. ground arith

pub claim_record-Spares :
    (now : Instant) (lease_seconds : ℕ) (o : Option IndexingJobRecord)
    → Spares (claim_record now lease_seconds o)
claim_record-Spares now lease_seconds none = pure-Spares none
claim_record-Spares now lease_seconds (some r) =
    then-Spares (lift (claim r now lease_seconds)) _ (lift-Spares (claim r now lease_seconds))
      (λ claimed.
        then-Spares (write_job claimed) _ (write_job-Spares claimed)
          (λ _. pure-Spares (some claimed)))

module _ (now : Instant) where
  pub claim_indexing_job-Spares :
      (lease_seconds : ℕ) → Spares (claim_indexing_job now lease_seconds)
  unfolding claim_indexing_job
  claim_indexing_job-Spares lease_seconds =
      then-Spares (gets λ db. earliest (select (is_due now) db.jobs)) _ (gets-Spares _)
        (λ o. update_claimed-Spares now lease_seconds o)

  pub claim_next-Spares : (lease_seconds : ℕ) → Spares (claim_next now lease_seconds)
  unfolding claim_next
  claim_next-Spares lease_seconds =
      then-Spares
        (gets
          λ db. earliest (select (λ j. is_owner db.current_user j.user_id && is_due now j) db.jobs))
        _ (gets-Spares _) (λ o. claim_record-Spares now lease_seconds o)
