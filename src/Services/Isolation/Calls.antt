-- ===== src/Services/Isolation/Calls.antt =====
-- What each call through a user's gateways writes: rows of that user only.
use mathlib.Core.Path.{subst}
use rag_anotacoes_sdd.Prelude.{
  ℕ, ◌≡◌, refl, sym, ap, ◌∙◌, inl, inr, Bool, true, false, ◌&&◌, Option, none, some, List, [], ◌∷◌,
  ◌++◌, select, first, any, All, ◌==◌, Uuid, Instant, arith, Bool-cases, Option-cases,
  first-select_passes, Result, ok, value_error, owner_mismatch,
}
use rag_anotacoes_sdd.Domain.Notes.{Note}
use rag_anotacoes_sdd.Domain.Jobs.{pending_job}
use rag_anotacoes_sdd.Persistence.Tables.{Tables, NoteRecord}
use rag_anotacoes_sdd.Persistence.Transactions.{
  transaction_cases, Db, Tx, check, transaction, then_inversion, set_current_user, is_owner, ◌>>◌,
}
use rag_anotacoes_sdd.Persistence.Inserts.{insert_note, insert_job, has_note}
use rag_anotacoes_sdd.Persistence.Notes as Repository
use rag_anotacoes_sdd.Persistence.Notes.{is_owned}
use rag_anotacoes_sdd.Persistence.Notes.Lock.{is_expected}
use rag_anotacoes_sdd.Persistence.Jobs as Queue
use rag_anotacoes_sdd.Persistence.Jobs.{is_failed_note}
use rag_anotacoes_sdd.Persistence.Ownership.{
  owner_of, IsOwned, Writes, done, next, note_added, note_deleted,
}
use rag_anotacoes_sdd.Persistence.Ownership.Lists.{owner_of_new}
use rag_anotacoes_sdd.Persistence.Ownership.Runs.{insert_job-Runs, Writes-trans}
use rag_anotacoes_sdd.Persistence.Ownership.Operations.{save-Runs, retry_note-Runs}
use rag_anotacoes_sdd.Services.Gateways.{
  add_note, get_note, list_notes, save_note, delete_note, retry_failed,
}
use rag_anotacoes_sdd.Services.Notes.Stored.{prepare_lem, insert_note-ok}
use rag_anotacoes_sdd.Services.Isolation.{NoteCall, added, got, listed, saved, deleted, retried}

abbrev opened : Uuid → Tables → Db
opened u t = record { tables = t; current_user = some u }

prepared-Writes :
    {A : Type 0} (u : Uuid) (m : Tx A) (t : Tables) {r : Result A} {t' : Tables}
    → ((a : A) (db : Db)
        → ◌≡◌ {A = Result A × Db} (m (opened u t)) (ok a, db)
        → Writes u t db.tables)
    → transaction (Repository.prepare u >> m) t ≡ (r, t')
    → Writes u t t'
prepared-Writes u m t f h = elim (transaction_cases (Repository.prepare u >> m) t h) [
  | inl (a, db, e, e') ↦
      rw e' (f a db (rw (prepare_lem u (record { tables = t; current_user = none })) at e))
  | inr e ↦ rw e done
]

-- A row that passes a test has what all rows have.
first-All :
    {A : Type 0} (P : A → Type 0) (p : A → Bool) (xs : List A) (y : A)
    → All P xs
    → first (select p xs) ≡ some y
    → P y
first-All P p [] y h e = cc
first-All P p (x ∷ xs) y h e = elim (Bool-cases (p x)) [
  | inl e' ↦ (let same : x ≡ y = ground (arith, e, e') in subst P same h.0)
  | inr e' ↦ first-All P p xs y h.1 (rw e' at e)
]

added-Writes :
    (u job_id : Uuid) (note : Note) (t : Tables) (a : Unit {0}) (db : Db)
    → ◌≡◌ {A = Result (Unit {0}) × Db} (Repository.add u job_id note (opened u t)) (ok a, db)
    → Writes u t db.tables
unfolding Repository.add pending_job
added-Writes u job_id note t a db h =
    let queue = insert_job (pending_job job_id note.id note.user_id note.version note.created_at) in
    let (_, first_state, checked, e) =
      then_inversion (check (note.user_id == u) (value_error owner_mismatch))
        (λ _. insert_note note >> queue) (opened u t) h in
    let (_, second_state, inserted, e') =
      then_inversion (insert_note note) (λ _. queue) first_state e in
    let own : note.user_id ≡ u = ground (arith, checked) in
    let begun : first_state ≡ opened u t = ground (arith, checked) in
    let (new, at) = insert_note-ok note first_state inserted in
    let at' : second_state
        ≡ record (opened u t) { tables = record t { notes = t.notes ++ note ∷ [] } } =
      at ∙ rw begun refl in
    let new' : has_note note.id t ≡ false = rw begun at new in
    let k =
      (insert_job-Runs {u = u} {id = note.id}
          (pending_job job_id note.id note.user_id note.version note.created_at) refl).run
        second_state (rw at' refl) (rw at' (owner_of_new t.notes note new' ∙ rw own refl)) e' in
    Writes-trans (next done (note_added note own new' (rw at' refl))) k.writes

save_missing :
    (u job_id : Uuid) (note : Note) (expected_version : ℕ) (db : Db) {a : Bool} {db' : Db}
    → first (select (is_expected u note expected_version db) db.notes) ≡ none
    → ◌≡◌ {A = Result Bool × Db} (Repository.save u job_id note expected_version db) (ok a, db')
    → db' ≡ db
unfolding Repository.save
save_missing u job_id note expected_version db e h = ground arith

saved-Writes :
    (u job_id : Uuid) (note : Note) (expected_version : ℕ) (t : Tables)
    → IsOwned t
    → (a : Bool) (db : Db)
    → ◌≡◌ {A = Result Bool × Db}
        (Repository.save u job_id note expected_version (opened u t))
        (ok a, db)
    → Writes u t db.tables
saved-Writes u job_id note expected_version t own a db h =
    elim (Option-cases
      (first (select (is_expected u note expected_version (opened u t)) t.notes))) [
        | inl e ↦ rw (save_missing u job_id note expected_version (opened u t) e h) done
        | inr (r, e) ↦
            let found =
              first-select_passes (is_expected u note expected_version (opened u t)) t.notes e in
            let owner =
              first-All (λ n. owner_of t.notes n.id ≡ some n.user_id)
                (is_expected u note expected_version (opened u t)) t.notes r own.notes e in
            ((save-Runs u job_id note expected_version).run (opened u t) refl
              (ground (arith, found, owner)) h).writes
      ]

-- A row that passes a test is there, and has what all rows have.
any-All :
    {A : Type 0} (P : A → Type 0) (p : A → Bool) (xs : List A)
    → All P xs
    → any p xs ≡ true
    → (x : A) × (p x ≡ true) × P x
any-All P p [] h e = cc
any-All P p (x ∷ xs) h e = elim (Bool-cases (p x)) [
  | inl e' ↦ (x, e', h.0)
  | inr e' ↦ any-All P p xs h.1 (rw e' at e)
]

deleted-Writes :
    (u id : Uuid) (t : Tables)
    → IsOwned t
    → (a : Bool) (db : Db)
    → ◌≡◌ {A = Result Bool × Db} (Repository.delete u id (opened u t)) (ok a, db)
    → Writes u t db.tables
unfolding Repository.delete
deleted-Writes u id t own a db h =
    elim (Bool-cases (any (λ r. is_owned u (opened u t) r && r.id == id) t.notes)) [
      | inl e ↦
          let (r, found, owner) =
            any-All (λ n. owner_of t.notes n.id ≡ some n.user_id)
              (λ r. is_owned u (opened u t) r && r.id == id) t.notes own.notes e in
          let same : r.id ≡ id = ground (arith, found) in
          next done (
            note_deleted id (sym (ap (owner_of t.notes) same) ∙ ground (arith, found, owner))
              (ground arith))
      | inr e ↦ (let same : db ≡ opened u t = ground arith in rw same done)
    ]

abbrev is_retried_note : Uuid → Uuid → Db → NoteRecord → Bool
is_retried_note id u db r =
    r.id == id
    && r.user_id == u
    && is_failed_note r.semantic_status
    && is_owner db.current_user r.user_id

retried-Writes :
    (id u : Uuid) (now : Instant) (t : Tables)
    → IsOwned t
    → (a : Bool) (db : Db)
    → ◌≡◌ {A = Result Bool × Db}
        (Queue.retry_failed id u now (record { tables = t; current_user = none }))
        (ok a, db)
    → Writes u t db.tables
unfolding Queue.retry_failed set_current_user
retried-Writes id u now t own a db h =
    elim (Option-cases (first (select (is_retried_note id u (opened u t)) t.notes))) [
      | inl e ↦ (let same : db ≡ opened u t = ground arith in rw same done)
      | inr (r, e) ↦
          let found = first-select_passes (is_retried_note id u (opened u t)) t.notes e in
          let owner =
            first-All (λ n. owner_of t.notes n.id ≡ some n.user_id)
              (is_retried_note id u (opened u t)) t.notes r own.notes e in
          ((retry_note-Runs id u now (some r) (λ s e. ground (arith, found))).run (opened u t) refl
            (ground (arith, found, owner)) (rw e at h)).writes
    ]

get-same :
    (u id : Uuid) (db : Db) {a : Option Note} {db' : Db}
    → ◌≡◌ {A = Result (Option Note) × Db} (Repository.get u id db) (ok a, db')
    → db' ≡ db
unfolding Repository.get
get-same u id db h = ground arith

list-same :
    (u : Uuid) (limit : ℕ) (before : Option (Instant × Uuid)) (db : Db) {a : List Note} {db' : Db}
    → ◌≡◌ {A = Result (List Note) × Db} (Repository.list u limit before db) (ok a, db')
    → db' ≡ db
unfolding Repository.list
list-same u limit before db h = ground arith

-- A call of a user's gateways writes rows of that user only.
pub NoteCall-Writes : {u : Uuid} {t t' : Tables} → IsOwned t → NoteCall u t t' → Writes u t t'
unfolding add_note get_note list_notes save_note delete_note retry_failed
NoteCall-Writes {u} {t} own (added job_id note r e) =
    prepared-Writes u (Repository.add u job_id note) t (added-Writes u job_id note t) e
NoteCall-Writes {u} {t} own (got id r e) =
    prepared-Writes u (Repository.get u id) t (λ a db h. rw (get-same u id (opened u t) h) done) e
NoteCall-Writes {u} {t} own (listed limit before r e) =
    prepared-Writes u (Repository.list u limit before) t
      (λ a db h. rw (list-same u limit before (opened u t) h) done) e
NoteCall-Writes {u} {t} own (saved job_id note expected_version r e) =
    prepared-Writes u (Repository.save u job_id note expected_version) t
      (saved-Writes u job_id note expected_version t own) e
NoteCall-Writes {u} {t} own (deleted id r e) =
    prepared-Writes u (Repository.delete u id) t (deleted-Writes u id t own) e
NoteCall-Writes {u} {t} own (retried id now r e) =
    elim (transaction_cases (Queue.retry_failed id u now) t e) [
      | inl (a, db, h, same) ↦ rw same (retried-Writes id u now t own a db h)
      | inr same ↦ rw same done
    ]
