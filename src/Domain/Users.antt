-- ===== src/Domain/Users.antt =====
-- domain/users.py: users, the password policy, sessions. `casefold` is `str.casefold`, whose
-- Unicode tables are a parameter.
pub mod Validity
use rag_anotacoes_sdd.Prelude.{
  ℕ, Bool, true, false, not, ◌&&◌, ◌||◌, Option, none, some, ltb, leb, if◌then◌else◌, length, null,
  any, Uuid, Instant, Result, ok, err, ◌>>=◌, ◌>>◌, require, value_error, username_length,
  username_invalid, password_length, password_hash_required,
}
use rag_anotacoes_sdd.Text.{Text, strip}

unfoldable pub canonicalize_username : (Text → Text) → Text → Text
canonicalize_username casefold username = casefold (strip username)

unfoldable pub validate_username : Text → Result Text
validate_username username =
    let display = strip username in
    if not (leb 3 (length display) && leb (length display) 64)
    then err (value_error username_length)
    else if any (λ character. ltb character 32) display
    then err (value_error username_invalid)
    else ok display

pub record PasswordPolicy : Type 0 where
  pub minimum_length : ℕ
  pub maximum_length : ℕ

abbrev pub default_policy : PasswordPolicy
default_policy = record { minimum_length = 12; maximum_length = 128 }

unfoldable pub validate : PasswordPolicy → Text → Result (Unit {0})
validate self password =
    require (leb self.minimum_length (length password) && leb (length password) self.maximum_length)
      (value_error password_length)

pub record User : Type 0 where
  pub id : Uuid
  pub username : Text
  pub username_canonical : Text
  pub password_hash : Text
  pub created_at : Instant
  pub updated_at : Instant

unfoldable pub create : (Text → Text) → Uuid → Text → Text → Instant → Result User
unfolding canonicalize_username validate_username
create casefold user_id username password_hash now = do
  display ← validate_username username
  require (not (null password_hash)) (value_error password_hash_required)
  ok (record {
    id = user_id;
    username = display;
    username_canonical = canonicalize_username casefold display;
    password_hash = password_hash;
    created_at = now;
    updated_at = now;
  })

pub record Session : Type 0 where
  pub id : Uuid
  pub user_id : Uuid
  pub token_hash : Text
  pub csrf_token_hash : Text
  pub created_at : Instant
  pub last_seen_at : Instant
  pub expires_at : Instant
  pub revoked_at : Option Instant

abbrev is_none {ℓ} : {A : Type ℓ} → Option A → Bool
is_none none = true
is_none (some a) = false

unfoldable pub is_active : Session → Instant → Bool
is_active self now = is_none self.revoked_at && ltb now self.expires_at

unfoldable pub revoke : Session → Instant → Session
revoke self now = record self { revoked_at = some now }
