-- ===== src/Tests/Api.antt =====
-- Runs and instances for the handlers.
use rag_anotacoes_sdd.Prelude.{
  ℕ, ◌≡◌, ◌⊎◌, refl, none, some, [], ◌∷◌, map, codes, Result, ok, arith, Error, if◌then◌else◌,
}
use rag_anotacoes_sdd.Text.{Text, text_eq, is_space, lstrip, rstrip, strip}
use rag_anotacoes_sdd.Domain.Notes.{Note, SemanticStatus}
use rag_anotacoes_sdd.Domain.Notes
use rag_anotacoes_sdd.Domain.Users.{Session, is_active}
use rag_anotacoes_sdd.Domain.Jobs.{pending_job}
use rag_anotacoes_sdd.Persistence.Tables.{update_where}
use rag_anotacoes_sdd.Persistence.Transactions.{transaction, set_current_user, assert_current_user}
use rag_anotacoes_sdd.Persistence.Inserts.{insert_job, write_note}
use rag_anotacoes_sdd.Persistence.Accounts as Accounts
use rag_anotacoes_sdd.Persistence.Notes as Repository
use rag_anotacoes_sdd.Services.Gateways as Gateways
use rag_anotacoes_sdd.Services.Throttle.{default_throttle}
use rag_anotacoes_sdd.Services.Authentication.{Hashing, State, authenticate, validate_csrf}
use rag_anotacoes_sdd.Services.Notes as Services
use rag_anotacoes_sdd.Services.Runtime.{Model}
use rag_anotacoes_sdd.Api.Auth.{
  Request, session_cookie_name, cookie_of, rstrip_slash, is_foreign, current_session,
  checked_session, mutation_session,
}
use rag_anotacoes_sdd.Api.Auth.Admission.{IsAdmitted, IsRefusal}
use rag_anotacoes_sdd.Api.Refusals.{AllRefuse, mutations_refused}
use rag_anotacoes_sdd.Api.Notes.{
  Reading, number, unreadable, NoteResponse, note_response, lstrip_quotes, rstrip_quotes,
  strip_quotes, patch_errors, update_note,
}
use rag_anotacoes_sdd.Api.Notes.Walk.{follow, follow_shows_all, notes_in_order}
use rag_anotacoes_sdd.Api.Notes.Locking.{IsUpdate, update_note-IsUpdate}
use rag_anotacoes_sdd.Tests.Isolation.{stored, both_stored, both_stored-Reachable, note_of, session}
use rag_anotacoes_sdd.Tests.Boundary.{configuration, client, formats, formats-AreInverse}

abbrev hashing : Hashing
hashing = record {
  casefold = λ t. t;
  hash = λ t. 104 ∷ t;
  verify = λ p h. text_eq (104 ∷ p) h;
  sha256 = λ t. 115 ∷ t;
}

abbrev state : State
state = record { tables = stored; throttle = default_throttle }

abbrev request : Request
request = record {
  cookies = (codes "notes_session", codes "t") ∷ [];
  origin = none;
  csrf_token = some (codes "c");
  client_host = none;
}

handlers : Unit {0}
unfolding is_active session_cookie_name cookie_of rstrip_slash is_foreign current_session
    checked_session mutation_session authenticate validate_csrf Gateways.session_by_hash
    Accounts.by_token_hash transaction text_eq Gateways.get_note Gateways.save_note Repository.get
    Repository.save Repository.prepare set_current_user assert_current_user Repository.assign
    Repository.delete_open_jobs write_note insert_job update_where pending_job Services.get
    Services.update Notes.update Notes.updated_text Notes.validate_text is_space lstrip rstrip strip
    lstrip_quotes rstrip_quotes strip_quotes patch_errors update_note Repository.sort_notes
    Repository.insert_sorted
handlers = tt

-- Two notes, and a page for each.
abbrev both : State
both = record { tables = both_stored; throttle = default_throttle }

both_known : current_session hashing configuration 10 request both ≡ (ok session, both)
unfolding handlers
both_known = refl

in_order : notes_in_order 1 both ≡ note_of 5 1 12 ∷ note_of 3 1 10 ∷ []
unfolding handlers
in_order = refl

follow_shows_all_example :
    follow hashing configuration (λ n. []) formats 10 request 1 3 none both
    ≡ (ok (map note_response (notes_in_order 1 both)), both)
follow_shows_all_example =
    follow_shows_all hashing configuration (λ n. []) formats 10 request 1 3 session both both_known
      both_stored-Reachable formats-AreInverse refl (rw in_order (omega arith))

-- One version is read.
abbrev int : Text → Reading
int t = if text_eq t (codes "1") then number 1 else unreadable

abbrev answer : Result NoteResponse × State
answer =
    update_note hashing configuration (λ low high t. []) int 12 20 request 3 (some (codes "U")) none
      (codes "\"1\"") state

abbrev response : NoteResponse
response =
    note_response (record (note_of 3 1 10) { title = codes "U"; version = 2; updated_at = 20 })

update_run : answer ≡ (ok response, answer.1)
unfolding handlers
update_run = refl

update_note-IsUpdate_example :
    IsUpdate hashing configuration int 20 request 3 (codes "\"1\"") state response
update_note-IsUpdate_example =
    update_note-IsUpdate hashing configuration int 20 request (λ low high t. []) 12 3
      (some (codes "U")) none (codes "\"1\"") state update_run

abbrev model : Model ℕ
model = record {
  client = client;
  intent_schema = 0;
  grounding_schema = 0;
  read_decision = λ t. none;
  read_completion = λ t. none;
  show = λ id. id ∷ [];
  cosine_distance = λ v w. 0;
  one = 100;
}

-- Another CSRF token.
abbrev forged : Request
forged = record request { csrf_token = some (codes "x") }

mutations_refused_example :
    ((session : Session) × IsAdmitted hashing configuration 10 forged state session
      × (mutation_session hashing configuration 10 forged state ≡ (ok session, state)))
    ⊎ ((e : Error) × IsRefusal e × AllRefuse model hashing configuration 10 forged state e)
mutations_refused_example = mutations_refused model hashing configuration 10 forged state
