-- ===== src/Tests/Services.antt =====
-- Runs and instances for the services of app/src/notes_rag/services.
use rag_anotacoes_sdd.Prelude.{
  ◌≡◌, refl, true, some, List, [], ◌∷◌, codes, ok, err, arith, username_conflict, Instant,
  authentication_failed,
}
use rag_anotacoes_sdd.Text.{text_eq, is_space, lstrip, rstrip, strip}
use rag_anotacoes_sdd.Domain.Users
use rag_anotacoes_sdd.Domain.Users.{User, Session, canonicalize_username, default_policy, validate}
use rag_anotacoes_sdd.Persistence.Tables.{Tables, update_where}
use rag_anotacoes_sdd.Persistence.Transactions.{transaction}
use rag_anotacoes_sdd.Persistence.Inserts.{insert_user, insert_session}
use rag_anotacoes_sdd.Persistence.Accounts
use rag_anotacoes_sdd.Services.Gateways
use rag_anotacoes_sdd.Services.Gateways.{session_by_hash}
use rag_anotacoes_sdd.Services.Throttle
use rag_anotacoes_sdd.Services.Throttle.{default_throttle}
use rag_anotacoes_sdd.Services.Throttle.Window.{throttled, judged, throttled-judged}
use rag_anotacoes_sdd.Services.Authentication.{
  Hashing, State, register, login, authenticate, logout, validate_csrf, new_session,
}
use rag_anotacoes_sdd.Services.Authentication.Sessions.{
  login-authenticate, logout-authenticate, login_failed, register_twice,
}

abbrev hashing : Hashing
hashing = record {
  casefold = λ t. t;
  hash = λ t. 104 ∷ t;
  verify = λ p h. text_eq (104 ∷ p) h;
  sha256 = λ t. 115 ∷ t;
}

abbrev ana : User
ana = record {
  id = 1;
  username = codes "ana";
  username_canonical = codes "ana";
  password_hash = codes "hcorreta";
  created_at = 0;
  updated_at = 0;
}

abbrev tables_with : List User → List Session → Tables
tables_with users sessions = record {
  users = users;
  sessions = sessions;
  notes = [];
  chunks = [];
  jobs = [];
}

abbrev start : State
start = record { tables = tables_with (ana ∷ []) []; throttle = default_throttle }

abbrev session : Session
session = new_session hashing 7 (codes "t") (codes "c") 60 5 ana

abbrev logged_in : State
logged_in = record { tables = tables_with (ana ∷ []) (session ∷ []); throttle = default_throttle }

authentication : Unit {0}
unfolding is_space lstrip rstrip strip text_eq canonicalize_username validate Users.create
    transaction insert_user insert_session update_where Accounts.by_canonical_username
    Accounts.add_session Accounts.add_user Accounts.by_token_hash Accounts.revoke_session
    Gateways.user_by_username Gateways.add_user Gateways.add_session session_by_hash
    Gateways.revoke_session Throttle.attempts_of Throttle.set_attempts Throttle.pop_attempts
    Throttle.drop_stale Throttle.record_attempt Throttle.check_and_record Throttle.clear register
    login logout authenticate
authentication = tt

login_run :
    login hashing 7
      (codes "t")
      (codes "c")
      60
      5
      (codes " ana ")
      (codes "correta")
      (codes "ip")
      start
    ≡ (ok (record { session = session; token = codes "t"; csrf_token = codes "c" }), logged_in)
unfolding authentication
login_run = refl

login-authenticate_example :
    (authenticate hashing 64 (codes "t") logged_in ≡ (ok session, logged_in))
    × (validate_csrf hashing session (codes "c") ≡ true)
    × (codes "t" ≡ codes "t")
    × (codes "c" ≡ codes "c")
login-authenticate_example =
    login-authenticate hashing 7 (codes "t") (codes "c") 60 5 64 (codes " ana ") (codes "correta")
      (codes "ip") start logged_in login_run (omega arith)

abbrev logged_out : State
logged_out = record {
  tables = tables_with (ana ∷ []) ((record session { revoked_at = some 9 }) ∷ []);
  throttle = default_throttle;
}

found_run : session_by_hash (codes "st") logged_in.tables ≡ (ok (some session), logged_in.tables)
unfolding authentication
found_run = refl

logout_run : logout hashing 9 session logged_in ≡ (ok tt, logged_out)
unfolding authentication
logout_run = refl

logout-authenticate_example :
    (authenticate hashing 10 (codes "t") logged_out).0 ≡ err authentication_failed
logout-authenticate_example =
    logout-authenticate hashing (codes "t") 9 10 logged_in logged_out found_run logout_run

abbrev refused : State
refused = record start {
  throttle = record default_throttle { attempts = (codes "ip", 5 ∷ []) ∷ [] };
}

refused_run :
    login hashing 7 (codes "t") (codes "c") 60 5 (codes "ana") (codes "errada") (codes "ip") start
    ≡ (err authentication_failed, refused)
unfolding authentication
refused_run = refl

login_failed_example : refused.tables ≡ start.tables
login_failed_example =
    login_failed hashing 7 (codes "t") (codes "c") 60 5 (codes "ana") (codes "errada") (codes "ip")
      start refused refused_run

abbrev bia : User
bia = record {
  id = 2;
  username = codes "bia";
  username_canonical = codes "bia";
  password_hash = codes "hsenha-de-bia";
  created_at = 3;
  updated_at = 3;
}

abbrev registered : State
registered = record { tables = tables_with (ana ∷ bia ∷ []) []; throttle = default_throttle }

register_run :
    register hashing 2 3 (codes " bia") (codes "senha-de-bia") start ≡ (ok bia, registered)
unfolding authentication
register_run = refl

same_name :
    canonicalize_username hashing.casefold (codes "bia ")
    ≡ canonicalize_username hashing.casefold (codes " bia")
unfolding authentication
same_name = refl

long_enough : validate default_policy (codes "outra-senha-de-bia") ≡ ok tt
unfolding authentication
long_enough = refl

register_twice_example :
    register hashing 4 8 (codes "bia ") (codes "outra-senha-de-bia") registered
    ≡ (err username_conflict, registered)
register_twice_example =
    register_twice hashing 2 4 3 8 (codes " bia") (codes "bia ") (codes "senha-de-bia")
      (codes "outra-senha-de-bia") start registered register_run same_name long_enough

abbrev times : List Instant
times = 1 ∷ 2 ∷ 3 ∷ 12 ∷ []

throttled-judged_example : throttled 2 10 [] times ≡ judged 2 10 [] times
throttled-judged_example =
    throttled-judged 2 10 times (omega arith, (omega arith, (omega arith, (omega arith, tt))))
