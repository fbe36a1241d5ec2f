-- ===== src/Domain/Users/Validity.antt =====
-- What holds of a created user, and when a session counts.
use rag_anotacoes_sdd.Prelude.{
  ◌≤◌, ◌<◌, ◌≡◌, ◌≢◌, ◌↔◌, refl, false, true, none, ltb, any, length, [], arith, Uuid, Instant, ok,
}
use rag_anotacoes_sdd.Text.{Text, strip}
use rag_anotacoes_sdd.Text.Strip.{strip-strip}
use rag_anotacoes_sdd.Domain.Users.{
  User, Session, canonicalize_username, create, is_active, revoke, validate, default_policy,
}

pub record IsWellFormed (casefold : Text → Text) (u : User) : Type 0 where
  pub trimmed : strip u.username ≡ u.username
  pub long_enough : 3 ≤ length u.username
  pub short_enough : length u.username ≤ 64
  pub no_controls : any (λ character. ltb character 32) u.username ≡ false
  pub canonical : u.username_canonical ≡ canonicalize_username casefold u.username
  pub hashed : u.password_hash ≢ []

-- A created user has a trimmed name of 3 to 64 characters, none of them a control character below
-- U+0020, and a password hash, and its canonical name is that of the name that was asked for.
pub create-IsWellFormed :
    (casefold : Text → Text) (user_id : Uuid) (username password_hash : Text) (now : Instant)
    {u : User}
    → create casefold user_id username password_hash now ≡ ok u
    → IsWellFormed casefold u
      × (u.id ≡ user_id)
      × (u.username_canonical ≡ canonicalize_username casefold username)
unfolding create
create-IsWellFormed casefold user_id username password_hash now h =
    ground (arith, strip-strip username)

-- The policy accepts exactly the passwords of 12 to 128 characters.
pub validate-ok_iff :
    (password : Text)
    → (validate default_policy password ≡ ok tt)
      ↔ ((12 ≤ length password) × (length password ≤ 128))
unfolding validate
validate-ok_iff password = (λ h. ground arith, λ h. ground arith)

-- A session counts exactly before its expiry and while it is not revoked.
pub is_active_iff :
    (s : Session) (now : Instant)
    → (is_active s now ≡ true) ↔ ((s.revoked_at ≡ none) × (now < s.expires_at))
unfolding is_active
is_active_iff s now = (λ h. ground arith, λ h. ground arith)

pub is_active-revoke : (s : Session) (now later : Instant) → is_active (revoke s now) later ≡ false
unfolding is_active revoke
is_active-revoke s now later = refl
