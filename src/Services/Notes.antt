-- ===== src/Services/Notes.antt =====
-- services/notes.py, `NoteService`. Its `NoteStore` protocol is a record of calls over a world;
-- the store of the application is `NoteGateway`. `uuid4()` and the clock are arguments.
pub mod Stored
pub mod Updates
use rag_anotacoes_sdd.Prelude.{
  ℕ, Bool, true, false, Option, none, some, List, Uuid, Instant, Result, ok, err, Error, ◌≡◌, refl,
  note_not_found, version_conflict,
}
use rag_anotacoes_sdd.Text.{Text}
use rag_anotacoes_sdd.Domain.Notes
use rag_anotacoes_sdd.Domain.Notes.{Note}
use rag_anotacoes_sdd.Persistence.Tables.{Tables}
use rag_anotacoes_sdd.Services.Gateways.{add_note, get_note, list_notes, save_note, delete_note}

-- The protocol. A call may raise and may change the world; `uuid4()` of a job is its argument.
pub record NoteStore (W : Type 0) : Type 0 where
  pub add : Uuid → Note → W → Result (Unit {0}) × W
  pub get : Uuid → W → Result (Option Note) × W
  pub list : ℕ → Option (Instant × Uuid) → W → Result (List Note) × W
  pub save : Uuid → Note → ℕ → W → Result Bool × W
  pub delete : Uuid → W → Result Bool × W

-- `NoteGateway(sessions, user_id)`
abbrev pub gateway : Uuid → NoteStore Tables
gateway user_id = record {
  add = λ job_id note. add_note user_id job_id note;
  get = λ note_id. get_note user_id note_id;
  list = λ limit before. list_notes user_id limit before;
  save = λ job_id note expected. save_note user_id job_id note expected;
  delete = λ note_id. delete_note user_id note_id;
}

abbrev pub found : Option Note → Result Note
found none = err note_not_found
found (some note) = ok note

abbrev pub kept : Error → Bool → Result (Unit {0})
kept e true = ok tt
kept e false = err e

module _ {W : Type 0} where
  abbrev and_then : {A B : Type 0} → Result A → (A → W → Result B × W) → W → Result B × W
  and_then (ok a) f w = f a w
  and_then (err e) f w = (err e, w)

  infixl 5 ◌>>=◌
  abbrev pub ◌>>=◌ : {A B : Type 0} → (W → Result A × W) → (A → W → Result B × W) → W → Result B × W
  ◌>>=◌ m f w = let (r, w') = m w in and_then r f w'

  abbrev pub lift : {A : Type 0} → Result A → W → Result A × W
  lift r w = (r, w)

  -- A chain that returns has a first call that returned, in the world where the rest began.
  pub then_inversion :
      {A B : Type 0} (m : W → Result A × W) (f : A → W → Result B × W) (w : W) {b : B} {w' : W}
      → ◌≡◌ {A = Result B × W} ((m >>= f) w) (ok b, w')
      → (a : A) × (middle : W) × (◌≡◌ {A = Result A × W} (m w) (ok a, middle))
        × (f a middle ≡ (ok b, w'))
  then_inversion {A} {B} m f w {b} {w'} h = of (m w) refl h
    where
      of :
          (x : Result A × W)
          → m w ≡ x
          → ◌≡◌ {A = Result B × W} (and_then x.0 f x.1) (ok b, w')
          → (a : A) × (middle : W) × (◌≡◌ {A = Result A × W} (m w) (ok a, middle))
            × (f a middle ≡ (ok b, w'))
      of (ok a, middle) e h = (a, middle, e, h)
      of (err a, middle) e h = cc

  module _ (store : NoteStore W) (user_id : Uuid) where
    unfoldable pub create : Uuid → Uuid → Instant → Text → Text → W → Result Note × W
    create id job_id now title content = do
      note ← lift (Notes.create id user_id title content now)
      _ ← store.add job_id note
      lift (ok note)

    unfoldable pub get : Uuid → W → Result Note × W
    get note_id = do note ← store.get note_id; lift (found note)

    unfoldable pub update :
        Uuid → Instant → Uuid → Option Text → Option Text → ℕ → W → Result Note × W
    unfolding get
    update job_id now note_id title content expected_version = do
      current ← get note_id
      updated ← lift (Notes.update current title content now (some expected_version))
      saved ← store.save job_id updated expected_version
      _ ← lift (kept version_conflict saved)
      lift (ok updated)

    unfoldable pub delete : Uuid → W → Result (Unit {0}) × W
    delete note_id = do deleted ← store.delete note_id; lift (kept note_not_found deleted)
