-- ===== src/Api/Auth.antt =====
-- api/auth.py: the session of a request, the checks of a request that changes something, and the
-- handlers of the accounts. Random values and the clock are arguments, as in
-- Services.Authentication. A dependency runs before the body of the request is validated.
pub mod Admission
use rag_anotacoes_sdd.Prelude.{
  ℕ, Bool, true, false, not, ◌&&◌, Option, none, some, List, [], ◌∷◌, ◌++◌, map, first, select,
  length, leb, codes, Uuid, Instant, Result, ok, err, Error, ApiError, Item, api_error,
  request_invalid, null, if◌then◌else◌, authentication_failed, username_conflict, rate_limited,
}
use rag_anotacoes_sdd.Text.{Text, text_eq}
use rag_anotacoes_sdd.Domain.Users.{User, Session}
use rag_anotacoes_sdd.Config.{Settings}
use rag_anotacoes_sdd.Services.Authentication.{
  Hashing, State, Action, SessionCredentials, pure, raise, lift, ◌>>=◌, ◌>>◌,
}
use rag_anotacoes_sdd.Services.Authentication

-- What the handlers read of a request, beside its path and body.
pub record Request : Type 0 where
  pub cookies : List (Text × Text)
  pub origin : Option Text
  pub csrf_token : Option Text
  pub client_host : Option Text

abbrev pub api : ℕ → Text → Text → Error
api status_code code message =
    api_error
      (record { status_code = status_code; code = code; message = message; field_errors = [] })

abbrev pub unauthenticated : Error
unauthenticated = api 401 (codes "unauthenticated") (codes "Autenticação necessária.")

abbrev pub foreign_origin : Error
foreign_origin = api 403 (codes "csrf_rejected") (codes "Solicitação de origem inválida.")

abbrev pub invalid_csrf : Error
invalid_csrf = api 403 (codes "csrf_rejected") (codes "Token CSRF inválido.")

-- `try: ... except ... as error: raise ... from error`, with what each class becomes.
abbrev pub translated : {A : Type 0} → (Error → Error) → Result A → Result A
translated f (ok a) = ok a
translated f (err e) = err (f e)

abbrev pub except_as : {A : Type 0} → (Error → Error) → Action A → Action A
except_as f m s = let (r, s') = m s in (translated f r, s')

-- The library's words for a text that is out of its bounds: a parameter.
abbrev pub Wording : Type 0
Wording = ℕ → ℕ → Text → Text

-- The `Field` bounds of a text of the body: what is wrong with it, if anything.
abbrev pub field_error : Wording → Text → ℕ → ℕ → Text → List Item
field_error wording name low high value =
    if leb low (length value) && leb (length value) high
    then []
    else record { loc = codes "body" ∷ name ∷ []; msg = wording low high value } ∷ []

abbrev pub require_valid : List Item → Action (Unit {0})
require_valid [] = pure tt
require_valid (e ∷ es) = raise (request_invalid (e ∷ es))

-- `request.cookies.get(name)`
unfoldable pub cookie_of : Text → List (Text × Text) → Option Text
cookie_of name cookies = first (map (λ c. c.1) (select (λ c. text_eq c.0 name) cookies))

unfoldable pub session_cookie_name : Settings → Text
session_cookie_name configuration =
    if configuration.cookie_secure then codes "__Host-notes_session" else codes "notes_session"

-- `s.rstrip("/")`
abbrev drop_slash : ℕ → Text → Text
drop_slash c [] = if text_eq (c ∷ []) (codes "/") then [] else c ∷ []
drop_slash c (d ∷ r) = c ∷ d ∷ r

unfoldable pub rstrip_slash : Text → Text
rstrip_slash [] = []
rstrip_slash (c ∷ s) = drop_slash c (rstrip_slash s)

-- `origin and origin.rstrip("/") != ...`
unfoldable pub is_foreign : Settings → Option Text → Bool
unfolding rstrip_slash
is_foreign configuration none = false
is_foreign configuration (some []) = false
is_foreign configuration (some (c ∷ origin)) =
    not (text_eq (rstrip_slash (c ∷ origin)) (rstrip_slash configuration.allowed_origin))

-- `request.headers.get("x-csrf-token", "")`
abbrev pub header_or_empty : Option Text → Text
header_or_empty none = []
header_or_empty (some value) = value

pub record UserResponse : Type 0 where
  pub id : Uuid
  pub username : Text
  pub created_at : Instant

-- `UserResponse.from_domain`
abbrev pub user_response : User → UserResponse
user_response user = record { id = user.id; username = user.username; created_at = user.created_at }

pub record Cookie : Type 0 where
  pub name : Text
  pub value : Text
  pub http_only : Bool
  pub secure : Bool
  pub same_site : Text
  pub path : Text
  pub max_age : ℕ

abbrev conflict_as_409 : Error → Error
conflict_as_409 username_conflict =
    api 409 (codes "username_conflict") (codes "Nome de usuário indisponível.")
conflict_as_409 e = e

abbrev login_errors : Error → Error
login_errors rate_limited =
    api 429 (codes "rate_limited") (codes "Muitas tentativas. Tente novamente depois.")
login_errors authentication_failed =
    api 401 (codes "authentication_failed") (codes "Credenciais inválidas.")
login_errors e = e

abbrev pub failure_as_401 : Error → Error
failure_as_401 authentication_failed = unauthenticated
failure_as_401 e = e

abbrev client_key : Option Text → Text
client_key none = codes "unknown"
client_key (some host) = host

module _ (h : Hashing) (configuration : Settings) where
  -- The cookie's token, and a 401 without one.
  abbrev pub session_of : Instant → Option Text → Action Session
  session_of now none = raise unauthenticated
  session_of now (some []) = raise unauthenticated
  session_of now (some (c ∷ token)) =
      except_as failure_as_401 (Authentication.authenticate h now (c ∷ token))

  unfoldable pub current_session : Instant → Request → Action Session
  current_session now request =
      session_of now (cookie_of (session_cookie_name configuration) request.cookies)

  -- The two checks of `mutation_session`.
  unfoldable pub checked_session : Request → Session → Result Session
  checked_session request session =
      if is_foreign configuration request.origin
      then err foreign_origin
      else if not (Authentication.validate_csrf h session (header_or_empty request.csrf_token))
      then err invalid_csrf
      else ok session

  unfoldable pub mutation_session : Instant → Request → Action Session
  mutation_session now request = do
    session ← current_session now request
    lift (checked_session request session)

  unfoldable pub register : Wording → Uuid → Instant → Text → Text → Action UserResponse
  register wording id now username password = do
    require_valid (
        field_error wording (codes "username") 3 64 username
        ++ field_error wording (codes "password") 12 128 password)
    user ← except_as conflict_as_409 (Authentication.register h id now username password)
    pure (user_response user)

  -- The two cookies of `login`.
  unfoldable pub login_cookies : SessionCredentials → List Cookie
  login_cookies credentials =
      record {
        name = session_cookie_name configuration;
        value = credentials.token;
        http_only = true;
        secure = configuration.cookie_secure;
        same_site = codes "strict";
        path = codes "/";
        max_age = configuration.session_lifetime_seconds;
      }
      ∷ record {
        name = codes "notes_csrf";
        value = credentials.csrf_token;
        http_only = false;
        secure = configuration.cookie_secure;
        same_site = codes "strict";
        path = codes "/";
        max_age = configuration.session_lifetime_seconds;
      }
      ∷ []

  unfoldable pub login :
      Wording → Uuid → Text → Text → Instant → Request → Text → Text → Action (List Cookie)
  login wording id token csrf now request username password = do
    require_valid (
        field_error wording (codes "username") 1 64 username
        ++ field_error wording (codes "password") 1 128 password)
    credentials ← except_as login_errors (
        Authentication.login h id token csrf configuration.session_lifetime_seconds now username
          password (client_key request.client_host))
    pure (login_cookies credentials)

  -- What is returned are the names of the deleted cookies.
  unfoldable pub logout : Instant → Request → Action (List Text)
  logout now request = do
    session ← mutation_session now request
    Authentication.logout h now session
    pure (session_cookie_name configuration ∷ codes "notes_csrf" ∷ [])

  unfoldable pub me : Instant → Request → Action UserResponse
  me now request = do
    session ← current_session now request
    user ← except_as failure_as_401 (Authentication.current_user h session)
    pure (user_response user)
