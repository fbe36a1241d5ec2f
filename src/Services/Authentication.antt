-- ===== src/Services/Authentication.antt =====
-- services/authentication.py, `AuthenticationService`, over the gateways and the login throttle.
-- Hashing is a parameter: `casefold` is `str.casefold`, `hash` and `verify` are those of
-- `PasswordHash`, `sha256` is `hash_token`. Random values (`uuid4`, the two tokens) and the clock
-- are arguments of each call.
pub mod Sessions
use rag_anotacoes_sdd.Prelude.{
  ℕ, ◌+◌, Bool, true, false, not, ◌&&◌, Option, none, some, List, [], Uuid, Instant, seconds,
  if◌then◌else◌, Result, ok, err, Error, authentication_failed, username_conflict,
}
use rag_anotacoes_sdd.Text.{Text, text_eq}
use rag_anotacoes_sdd.Domain.Users
use rag_anotacoes_sdd.Domain.Users.{
  User, Session, PasswordPolicy, default_policy, validate, canonicalize_username, is_active,
}
use rag_anotacoes_sdd.Persistence.Tables.{Tables}
use rag_anotacoes_sdd.Services.Throttle.{LoginThrottle, check_and_record, clear}
use rag_anotacoes_sdd.Services.Gateways.{
  Call, user_by_username, user_by_id, add_user, add_session, session_by_hash, revoke_session,
}

pub record Hashing : Type 0 where
  pub casefold : Text → Text
  pub hash : Text → Text
  pub verify : Text → Text → Bool
  pub sha256 : Text → Text

-- What the service changes: the stored tables and the throttle.
pub record State : Type 0 where
  pub tables : Tables
  pub throttle : LoginThrottle

abbrev pub Action : Type 0 → Type 0
Action A = State → Result A × State

abbrev pub pure : {A : Type 0} → A → Action A
pure a s = (ok a, s)

abbrev pub raise : {A : Type 0} → Error → Action A
raise e s = (err e, s)

abbrev pub lift : {A : Type 0} → Result A → Action A
lift r s = (r, s)

abbrev pub stored : {A : Type 0} → Call A → Action A
stored call s = let (r, t) = call s.tables in (r, record s { tables = t })

abbrev pub throttled_by : {A : Type 0} → (LoginThrottle → Result A × LoginThrottle) → Action A
throttled_by f s = let (r, t) = f s.throttle in (r, record s { throttle = t })

abbrev pub and_then : {A B : Type 0} → Result A → (A → Action B) → Action B
and_then (ok a) f s = f a s
and_then (err e) f s = (err e, s)

infixl 5 ◌>>=◌ ◌>>◌
abbrev pub ◌>>=◌ : {A B : Type 0} → Action A → (A → Action B) → Action B
◌>>=◌ m f s = let (r, s') = m s in and_then r f s'

abbrev pub ◌>>◌ : {A B : Type 0} → Action A → Action B → Action B
m >> n = m >>= λ _. n

abbrev pub is_some {ℓ} : {A : Type ℓ} → Option A → Bool
is_some none = false
is_some (some a) = true

pub record SessionCredentials : Type 0 where
  pub session : Session
  pub token : Text
  pub csrf_token : Text

-- `session_lifetime`, as `authentication_service` of runtime.py sets it.
abbrev pub lifetime : ℕ → ℕ
lifetime session_lifetime_seconds = seconds session_lifetime_seconds

module _ (h : Hashing) where
  unfoldable pub register : Uuid → Instant → Text → Text → Action User
  register id now username password = do
    lift (validate default_policy password)
    existing ← stored (user_by_username (canonicalize_username h.casefold username))
    if is_some existing then raise username_conflict else do
      user ← lift (Users.create h.casefold id username (h.hash password) now)
      stored (add_user user)
      pure user

  -- The user, if there is one and the password is right.
  abbrev checked : Text → Option User → Result User
  checked password none = err authentication_failed
  checked password (some user) =
      if h.verify password user.password_hash then ok user else err authentication_failed

  abbrev pub new_session : Uuid → Text → Text → ℕ → Instant → User → Session
  new_session id token csrf lifetime_seconds now user = record {
    id = id;
    user_id = user.id;
    token_hash = h.sha256 token;
    csrf_token_hash = h.sha256 csrf;
    created_at = now;
    last_seen_at = now;
    expires_at = now + lifetime lifetime_seconds;
    revoked_at = none;
  }

  unfoldable pub login :
      Uuid → Text → Text → ℕ → Instant → Text → Text → Text → Action SessionCredentials
  login id token csrf lifetime_seconds now username password client_key = do
    throttled_by (λ t. check_and_record t client_key now)
    found ← stored (user_by_username (canonicalize_username h.casefold username))
    user ← lift (checked password found)
    throttled_by (λ t. (ok tt, clear t client_key))
    let session = new_session id token csrf lifetime_seconds now user
    stored (add_session session)
    pure (record { session = session; token = token; csrf_token = csrf })

  abbrev pub live : Instant → Option Session → Result Session
  live now none = err authentication_failed
  live now (some session) = if is_active session now then ok session else err authentication_failed

  unfoldable pub authenticate : Instant → Text → Action Session
  authenticate now token = do
    session ← stored (session_by_hash (h.sha256 token))
    lift (live now session)

  abbrev or_fail : Option User → Result User
  or_fail none = err authentication_failed
  or_fail (some user) = ok user

  unfoldable pub current_user : Session → Action User
  current_user session = do user ← stored (user_by_id session.user_id); lift (or_fail user)

  unfoldable pub validate_csrf : Session → Text → Bool
  validate_csrf session token = text_eq session.csrf_token_hash (h.sha256 token)

  unfoldable pub logout : Instant → Session → Action (Unit {0})
  logout now session = stored (revoke_session session.id now)
