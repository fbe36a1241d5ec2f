-- ===== src/Api/Notes/Locking.antt =====
-- The optimistic lock of `update_note`, from the If-Match header to the stored note.
use rag_anotacoes_sdd.Prelude.{
  ℕ, ◌+◌, ◌≡◌, refl, sym, ap, ◌∙◌, inl, inr, Option, some, List, [], ◌∷◌, Item, Uuid, Instant,
  Result, ok, err, Error, arith, value_error, version_conflict_code,
}
use rag_anotacoes_sdd.Text.{Text}
use rag_anotacoes_sdd.Domain.Notes
use rag_anotacoes_sdd.Domain.Notes.{Note}
use rag_anotacoes_sdd.Domain.Users.{Session}
use rag_anotacoes_sdd.Config.{Settings}
use rag_anotacoes_sdd.Persistence.Tables.{Tables}
use rag_anotacoes_sdd.Services.Authentication.{
  Hashing, State, Action, pure, raise, lift, stored, ◌>>=◌, ◌>>◌,
}
use rag_anotacoes_sdd.Services.Authentication
use rag_anotacoes_sdd.Services.Notes as Services
use rag_anotacoes_sdd.Services.Notes.{gateway}
use rag_anotacoes_sdd.Services.Notes.Updates.{update_inversion}
use rag_anotacoes_sdd.Api.Auth.{Request, Wording, except_as, translated, require_valid}
use rag_anotacoes_sdd.Api.Auth.Admission.{IsAdmitted, mutation_session_cases}
use rag_anotacoes_sdd.Api.Notes.{
  Reading, number, negative, unreadable, NoteResponse, note_response, strip_quotes, update_errors,
  update_at, update_note, patch_errors,
}

-- A chain of actions that returns has a first action that returned.
then_inversion :
    {A B : Type 0} (m : Action A) (f : A → Action B) (s : State) {b : B} {s' : State}
    → ◌≡◌ {A = Result B × State} ((m >>= f) s) (ok b, s')
    → (a : A) × (middle : State) × (◌≡◌ {A = Result A × State} (m s) (ok a, middle))
      × (f a middle ≡ (ok b, s'))
then_inversion {A} {B} m f s {b} {s'} h = by_result (m s) refl h
  where
    by_result :
        (x : Result A × State)
        → m s ≡ x
        → ◌≡◌ {A = Result B × State} (Authentication.and_then x.0 f x.1) (ok b, s')
        → (a : A) × (middle : State) × (◌≡◌ {A = Result A × State} (m s) (ok a, middle))
          × (f a middle ≡ (ok b, s'))
    by_result (ok a, middle) e h = (a, middle, e, h)
    by_result (err a, middle) e h = cc

except_as_inversion :
    {A : Type 0} (f : Error → Error) (m : Action A) (s : State) {a : A} {s' : State}
    → ◌≡◌ {A = Result A × State} (except_as f m s) (ok a, s')
    → ◌≡◌ {A = Result A × State} (m s) (ok a, s')
except_as_inversion {A} f m s {a} {s'} h = by_result (m s) refl h
  where
    by_result :
        (x : Result A × State)
        → m s ≡ x
        → ◌≡◌ {A = Result A × State} (translated f x.0, x.1) (ok a, s')
        → ◌≡◌ {A = Result A × State} (m s) (ok a, s')
    by_result (ok b, middle) e h = e ∙ h
    by_result (err b, middle) e h = cc

stored_inversion :
    {A : Type 0} (call : Tables → Result A × Tables) (s : State) {a : A} {s' : State}
    → ◌≡◌ {A = Result A × State} (stored call s) (ok a, s')
    → call s.tables ≡ (ok a, s'.tables)
stored_inversion {A} call s h = ap (λ (r : Result A × State). (r.0, r.1.tables)) h

require_valid_inversion :
    (es : List Item) (s : State) {a : Unit {0}} {s' : State}
    → require_valid es s ≡ (ok a, s')
    → s' ≡ s
require_valid_inversion [] s h = sym (ap (λ r. r.1) h)
require_valid_inversion (e ∷ es) s h = cc

expected_version :
    (current : Note) (title content : Option Text) (now : Instant) (expected : ℕ) {n : Note}
    → Notes.update current title content now (some expected) ≡ ok n
    → (expected ≡ current.version) × (n.version ≡ current.version + 1) × (n.id ≡ current.id)
unfolding Notes.update
expected_version current title content now expected h = (ground arith, ground arith, ground arith)

-- What an answered update has gone by.
pub record IsUpdate (h : Hashing) (configuration : Settings) (int : Text → Reading) (now : Instant)
    (request : Request) (note_id : Uuid) (if_match : Text) (s : State) (response : NoteResponse)
    : Type 0 where
  pub session : Session
  pub admitted : IsAdmitted h configuration now request s session
  pub current : Note
  pub middle : Tables
  pub got :
      Services.get (gateway session.user_id) session.user_id note_id s.tables ≡ (ok current, middle)
  pub matched : int (strip_quotes if_match) ≡ number current.version
  pub version : response.version ≡ current.version + 1
  pub id : response.id ≡ current.id

module _ (h : Hashing) (configuration : Settings) (int : Text → Reading) (now : Instant)
    (request : Request) where
  updated_at :
      (job_id : Uuid) (session : Session) (note_id : Uuid) (title content : Option Text)
      (reading : Reading) (s : State) {n : Note} {s' : State}
      → update_at h configuration job_id now session note_id title content reading s ≡ (ok n, s')
      → (current : Note) × (middle : Tables) × (Services.get
            (gateway session.user_id)
            session.user_id
            note_id
            s.tables
          ≡ (ok current, middle))
        × (reading ≡ number current.version)
        × (n.version ≡ current.version + 1)
        × (n.id ≡ current.id)
  updated_at job_id session note_id title content unreadable s h = cc
  updated_at job_id session note_id title content negative s h =
      let (_, middle, _, raised) =
        then_inversion (stored (Services.get (gateway session.user_id) session.user_id note_id))
          (λ _. raise (value_error version_conflict_code)) s h in
      cc
  updated_at job_id session note_id title content (number expected) s {n} {s'} h =
      let called =
        stored_inversion
          (Services.update (gateway session.user_id) session.user_id job_id now note_id title
            content expected)
          s h in
      let (current, middle, got, made) =
        update_inversion (gateway session.user_id) session.user_id job_id now note_id title content
          expected s.tables called in
      let (same, version, id) = expected_version current title content now expected made in
      (current, middle, got, ap number same, version, id)

  -- An update is answered with a note only for an admitted request whose If-Match header, quotes
  -- aside, reads as the version of the note that is stored for the user; the answer has the next
  -- version of that note.
  pub update_note-IsUpdate :
      (wording : Wording) (job_id note_id : Uuid) (title content : Option Text) (if_match : Text)
      (s : State) {response : NoteResponse} {s' : State}
      → update_note h configuration wording int job_id now request note_id title content if_match s
        ≡ (ok response, s')
      → IsUpdate h configuration int now request note_id if_match s response
  unfolding update_note
  update_note-IsUpdate wording job_id note_id title content if_match s {response} {s'} e =
      elim (mutation_session_cases h configuration now request s) [
        | inr (x, _, refused) ↦ (let stuck = rw refused at e in cc)
        | inl (session, admitted, known) ↦
            let (_, checked, valid, e') =
              then_inversion (require_valid (patch_errors wording title content))
                (λ _.
                  except_as update_errors (
                    update_at h configuration job_id now session note_id title content
                      (int (strip_quotes if_match)))
                  >>= λ n. pure (note_response n))
                s (rw known at e) in
            let (n, last, done, e'') =
              then_inversion
                (except_as update_errors (
                  update_at h configuration job_id now session note_id title content
                    (int (strip_quotes if_match))))
                (λ n. pure (note_response n)) checked e' in
            let (current, middle, got, matched, version, id) =
              updated_at job_id session note_id title content (int (strip_quotes if_match)) checked
                (except_as_inversion update_errors
                  (update_at h configuration job_id now session note_id title content
                    (int (strip_quotes if_match)))
                  checked done) in
            let answered : note_response n ≡ response = ground (arith, e'') in
            record {
              session = session;
              admitted = admitted;
              current = current;
              middle = middle;
              got =
                  ap
                    (λ (x : State).
                      Services.get (gateway session.user_id) session.user_id note_id x.tables)
                    (sym (require_valid_inversion (patch_errors wording title content) s valid))
                  ∙ got;
              matched = matched;
              version = sym (ap (λ r. r.version) answered) ∙ version;
              id = sym (ap (λ r. r.id) answered) ∙ id;
            }
      ]
