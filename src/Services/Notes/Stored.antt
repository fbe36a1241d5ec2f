-- ===== src/Services/Notes/Stored.antt =====
-- From a created note to its reading, through the gateway and the stored tables.
use rag_anotacoes_sdd.Prelude.{
  ◌≡◌, refl, Bool, false, ◌&&◌, none, some, List, [], ◌∷◌, ◌++◌, any, select, first,
  first-select_new, arith, Uuid, Instant, Result, ok, err, ◌==◌, value_error, owner_mismatch,
}
use rag_anotacoes_sdd.Text.{Text}
use rag_anotacoes_sdd.Domain.Notes
use rag_anotacoes_sdd.Domain.Notes.{Note}
use rag_anotacoes_sdd.Domain.Notes.Validity.{create-IsValid}
use rag_anotacoes_sdd.Domain.Jobs.{pending_job}
use rag_anotacoes_sdd.Persistence.Tables.{Tables, NoteRecord, IndexingJobRecord}
use rag_anotacoes_sdd.Persistence.Transactions.{
  Db, check, commit, then_inversion, ◌>>◌, transaction, set_current_user, assert_current_user,
}
use rag_anotacoes_sdd.Persistence.Inserts.{insert_note, insert_job, has_note}
use rag_anotacoes_sdd.Persistence.Notes as Repository
use rag_anotacoes_sdd.Services.Gateways.{add_note, get_note}
use rag_anotacoes_sdd.Services.Notes as Services
use rag_anotacoes_sdd.Services.Notes.{◌>>=◌, gateway, create, get}

any_weaken :
    (p q : NoteRecord → Bool) (xs : List NoteRecord)
    → any q xs ≡ false
    → any (λ r. p r && q r) xs ≡ false
any_weaken p q [] h = refl
any_weaken p q (x ∷ xs) h = ground (arith, any_weaken p q xs)

-- What is added is the last note, and its identifier was not there before.
pub insert_note-ok :
    (r : NoteRecord) (db : Db) {db' : Db}
    → ◌≡◌ {A = Result (Unit {0}) × Db} (insert_note r db) (ok tt, db')
    → (has_note r.id db.tables ≡ false)
      × (db' ≡ record db { tables = record (db.tables) { notes = db.notes ++ r ∷ [] } })
unfolding insert_note
insert_note-ok r db h = (ground arith, ground arith)

insert_job-notes :
    (r : IndexingJobRecord) (db : Db) {db' : Db}
    → ◌≡◌ {A = Result (Unit {0}) × Db} (insert_job r db) (ok tt, db')
    → db'.notes ≡ db.notes
unfolding insert_job
insert_job-notes r db h = ground arith

pub prepare_lem :
    (user_id : Uuid) (db : Db)
    → ◌≡◌ {A = Result (Unit {0}) × Db}
        (Repository.prepare user_id db)
        (ok tt, record db { current_user = some user_id })
unfolding Repository.prepare set_current_user assert_current_user
prepare_lem user_id db = ground arith

abbrev opened : Uuid → Tables → Db
opened user_id t = record { tables = t; current_user = some user_id }

add_note-notes :
    (user_id job_id : Uuid) (n : Note) (t : Tables) {t' : Tables}
    → ◌≡◌ {A = Result (Unit {0}) × Tables} (add_note user_id job_id n t) (ok tt, t')
    → (has_note n.id t ≡ false) × (t'.notes ≡ t.notes ++ n ∷ [])
unfolding add_note Repository.add transaction
add_note-notes user_id job_id n t {t'} h =
    by_result (after (opened user_id t)) refl
      (rw (prepare_lem user_id (record { tables = t; current_user = none })) at h)
  where
    after : Db → Result (Unit {0}) × Db
    after db = Repository.add user_id job_id n db

    by_result :
        (x : Result (Unit {0}) × Db)
        → after (opened user_id t) ≡ x
        → ◌≡◌ {A = Result (Unit {0}) × Tables} (commit t x) (ok tt, t')
        → (has_note n.id t ≡ false) × (t'.notes ≡ t.notes ++ n ∷ [])
    by_result (ok u, db') e h =
        let (_, first_state, checked, e') =
          then_inversion (check (n.user_id == user_id) (value_error owner_mismatch))
            (λ _.
              insert_note n
              >> insert_job (pending_job job_id n.id n.user_id n.version n.created_at))
            (opened user_id t) e in
        let (_, second_state, inserted, e'') =
          then_inversion (insert_note n)
            (λ _. insert_job (pending_job job_id n.id n.user_id n.version n.created_at)) first_state
            e' in
        let (new, at) = insert_note-ok n first_state inserted in
        let same =
          insert_job-notes (pending_job job_id n.id n.user_id n.version n.created_at) second_state
            e'' in
        (ground arith, ground arith)
    by_result (err x, db') e h = cc

get_note-stored :
    (user_id : Uuid) (n : Note) (t : Tables) (rows : List NoteRecord)
    → n.user_id ≡ user_id
    → any (λ r. r.id == n.id) rows ≡ false
    → t.notes ≡ rows ++ n ∷ []
    → get_note user_id n.id t ≡ (ok (some n), t)
unfolding get_note Repository.get transaction
get_note-stored user_id n t rows own new at =
    let shown : NoteRecord → Bool = λ r. r.user_id == user_id && r.user_id == user_id in
    let found : first (select (λ r. shown r && r.id == n.id) t.notes) ≡ some n = rw at (
      first-select_new (λ r. shown r && r.id == n.id) rows n
        (any_weaken shown (λ r. r.id == n.id) rows new) (ground arith)) in
    rw (prepare_lem user_id (record { tables = t; current_user = none }), found) refl

-- A note that was created through a user's gateway is read back through it as it was created, and
-- the reading changes nothing.
pub create-get :
    (user_id id job_id : Uuid) (now : Instant) (title content : Text) (t : Tables) {n : Note}
    {t' : Tables}
    → create (gateway user_id) user_id id job_id now title content t ≡ (ok n, t')
    → get (gateway user_id) user_id n.id t' ≡ (ok n, t')
unfolding create get
create-get user_id id job_id now title content t {n} {t'} h =
    let (m, first_state, made, h') =
      Services.then_inversion (Services.lift (Notes.create id user_id title content now))
        (λ note. add_note user_id job_id note >>= λ _. Services.lift (ok note)) t h in
    let (_, second_state, added, h'') =
      Services.then_inversion (add_note user_id job_id m) (λ _. Services.lift (ok m)) first_state
        h' in
    let (new, at) = add_note-notes user_id job_id m first_state added in
    let own = create-IsValid id user_id title content now {n = m} (ground arith) in
    let same : m ≡ n = ground arith in
    let there : second_state ≡ t' = ground arith in
    let got : get_note user_id n.id t' ≡ (ok (some n), t') =
      get_note-stored user_id n t' first_state.notes (rw same at own.2) (rw same at new)
        (rw (same, there) at at) in
    rw got refl
