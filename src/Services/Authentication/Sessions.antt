-- ===== src/Services/Authentication/Sessions.antt =====
-- From registration to logout: who can log in, and which tokens stand for a session.
use rag_anotacoes_sdd.Prelude.{
  ℕ, ◌+◌, ◌<◌, ◌≡◌, refl, Bool, true, some, List, [], ◌∷◌, Uuid, Instant, seconds, ok, err, Error,
  authentication_failed, arith, first, select, first-select_new, Bool-cases, inl, inr, ◌==◌,
  if◌then◌else◌, username_conflict,
}
use rag_anotacoes_sdd.Text.{Text, text_eq, text_eq_refl}
use rag_anotacoes_sdd.Domain.Users.{
  User, Session, is_active, canonicalize_username, validate, default_policy,
}
use rag_anotacoes_sdd.Domain.Users.Validity.{create-IsWellFormed}
use rag_anotacoes_sdd.Persistence.Tables.{Tables, update_where}
use rag_anotacoes_sdd.Persistence.Transactions.{transaction}
use rag_anotacoes_sdd.Persistence.Accounts
use rag_anotacoes_sdd.Persistence.Inserts.{insert_session, insert_user}
use rag_anotacoes_sdd.Services.Gateways.{
  add_session, session_by_hash, revoke_session, user_by_username, add_user,
}
use rag_anotacoes_sdd.Services.Authentication.{
  Hashing, State, SessionCredentials, register, login, authenticate, logout, validate_csrf,
}

-- A stored session is found by its token's hash.
session_by_hash-add_session :
    (v : Session) (t t' : Tables)
    → add_session v t ≡ (ok tt, t')
    → session_by_hash v.token_hash t' ≡ (ok (some v), t')
unfolding add_session session_by_hash transaction Accounts.add_session Accounts.by_token_hash
    insert_session
session_by_hash-add_session v t t' h = ground (
  arith,
  first-select_new (λ s. text_eq s.token_hash v.token_hash) t.sessions v,
  text_eq_refl v.token_hash,
)

module _ (h : Hashing) where
  -- After a login, the token that it returned stands for the returned session until the session's
  -- lifetime has passed, and the session accepts the CSRF token that it returned; they are the two
  -- tokens that were drawn, each in its place.
  pub login-authenticate :
      (id : Uuid) (token csrf : Text) (lifetime : ℕ) (now later : Instant)
      (username password client_key : Text) (s s' : State) {c : SessionCredentials}
      → login h id token csrf lifetime now username password client_key s ≡ (ok c, s')
      → later < now + seconds lifetime
      → (authenticate h later c.token s' ≡ (ok c.session, s'))
        × (validate_csrf h c.session c.csrf_token ≡ true)
        × (c.token ≡ token)
        × (c.csrf_token ≡ csrf)
  unfolding login authenticate validate_csrf is_active
  login-authenticate id token csrf lifetime now later username password client_key s s' {c} e soon =
      ground (
        arith,
        session_by_hash-add_session c.session
            (user_by_username (canonicalize_username h.casefold username) s.tables).1 s'.tables,
        text_eq_refl (h.sha256 csrf),
      )

-- The first row that passes a test which the change keeps is the changed first row.
first-select-update_where :
    (p q : Session → Bool) (f : Session → Session) (rows : List Session) {r : Session}
    → ((r : Session) → p (f r) ≡ p r)
    → first (select p rows) ≡ some r
    → first (select p (update_where q f rows)) ≡ some (if q r then f r else r)
unfolding update_where
first-select-update_where p q f [] keeps h = cc
first-select-update_where p q f (x ∷ rows) {r} keeps h = elim (Bool-cases (p x)) [
  | inl e ↦ ground (arith, keeps x)
  | inr e ↦ ground (arith, keeps x, first-select-update_where p q f rows {r = r} keeps)
]

session_by_hash-revoke_session :
    (v : Session) (token_hash : Text) (now : Instant) (t : Tables)
    → session_by_hash token_hash t ≡ (ok (some v), t)
    → (session_by_hash token_hash (revoke_session v.id now t).1).0
      ≡ ok (some (record v { revoked_at = some now }))
unfolding session_by_hash revoke_session transaction Accounts.revoke_session Accounts.by_token_hash
session_by_hash-revoke_session v token_hash now t h = ground (
  arith,
  first-select-update_where (λ s. text_eq s.token_hash token_hash) (λ s. s.id == v.id)
      (λ s. record s { revoked_at = some now }) t.sessions {r = v} (λ r. refl),
)

module _ (h : Hashing) where
  -- Once its session is logged out, a token stands for nothing, at any later time.
  pub logout-authenticate :
      (token : Text) (now later : Instant) (s s' : State) {v : Session}
      → (session_by_hash (h.sha256 token) s.tables ≡ (ok (some v), s.tables))
      → logout h now v s ≡ (ok tt, s')
      → (authenticate h later token s').0 ≡ err authentication_failed
  unfolding logout authenticate is_active
  logout-authenticate token now later s s' {v} found e =
      ground (arith, session_by_hash-revoke_session v (h.sha256 token) now s.tables)

  -- A login that fails has stored nothing.
  pub login_failed :
      (id : Uuid) (token csrf : Text) (lifetime : ℕ) (now : Instant)
      (username password client_key : Text) (s s' : State) {e : Error}
      → login h id token csrf lifetime now username password client_key s ≡ (err e, s')
      → s'.tables ≡ s.tables
  unfolding login user_by_username Accounts.by_canonical_username transaction add_session
  login_failed id token csrf lifetime now username password client_key s s' failed = ground arith

  -- A registered user is found by every name with the same canonical form.
  pub register-known :
      (id : Uuid) (now : Instant) (username password : Text) (s s' : State) {u : User}
      → register h id now username password s ≡ (ok u, s')
      → user_by_username (canonicalize_username h.casefold username) s'.tables
        ≡ (ok (some u), s'.tables)
  unfolding register user_by_username add_user transaction Accounts.by_canonical_username
      Accounts.add_user insert_user
  register-known id now username password s s' {u} e = ground (
    arith,
    first-select_new (λ r. text_eq r.username_canonical u.username_canonical) s.tables.users u,
    text_eq_refl u.username_canonical,
    create-IsWellFormed h.casefold id username (h.hash password) now {u = u},
  )

  -- A second registration under a name with the same canonical form is a conflict, and changes
  -- nothing.
  pub register_twice :
      (id id' : Uuid) (now now' : Instant) (username other password password' : Text) (s s' : State)
      {u : User}
      → register h id now username password s ≡ (ok u, s')
      → canonicalize_username h.casefold other ≡ canonicalize_username h.casefold username
      → validate default_policy password' ≡ ok tt
      → register h id' now' other password' s' ≡ (err username_conflict, s')
  unfolding register
  register_twice id id' now now' username other password password' s s' {u} e same allowed =
      let known = register-known id now username password s s' {u = u} e in
      ground (arith, known, same)
