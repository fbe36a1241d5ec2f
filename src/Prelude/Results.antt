-- ===== src/Prelude/Results.antt =====
-- The exceptions of the program (`raise`, `except`), as values, and code that may raise one.
use rag_anotacoes_sdd.Prelude.Tests.{if◌then◌else◌}
use mathlib.Core.Logic.{◌⊎◌, inl, inr}
use mathlib.Core.Path.{◌≡◌, refl}
use Prim.Native.Nat.{ℕ}
use mathlib.Core.List.{List}
use mathlib.Core.Bool.{Bool, true, false}

-- The messages of the `ValueError`s.
pub data Code : Type 0 where
  title_required title_too_long content_required content_too_long : Code
  version_conflict_code empty_update semantic_error_code_invalid : Code
  empty_note invalid_chunk_configuration title_too_large : Code
  job_not_claimable job_not_processing job_not_found owner_mismatch : Code
  username_length username_invalid password_length password_hash_required : Code
  invalid_intent empty_answer clarification_must_not_have_side_effects : Code
  created_note_requires_create_intent sources_require_rag_intent : Code
  empty_query invalid_query_embedding zip_argument_mismatch invalid_literal : Code

-- `ApiError` of api/errors.py: the exception that stands for one error response. Texts are lists
-- of code points, and a field error is the field with its message.
pub record ApiError : Type 0 where
  pub status_code : ℕ
  pub code : List ℕ
  pub message : List ℕ
  pub field_errors : List (List ℕ × List ℕ)

-- One item of `RequestValidationError.errors()`: where in the request, and what is wrong.
pub record Item : Type 0 where
  pub loc : List (List ℕ)
  pub msg : List ℕ

-- The exception classes. The first seven are `ValueError` or subclasses of it; `invalid_payload`
-- is the `ValidationError` of a model's answer.
pub data Error : Type 0 where
  value_error : Code → Error
  note_not_found version_conflict authentication_failed username_conflict rate_limited
        invalid_payload :
      Error
  api_error : ApiError → Error
  request_invalid : List Item → Error
  attribute_error model_identity_error : Error
  classification_error model_unavailable rls_context_missing integrity_error data_error
        row_security_violation :
      Error

unfoldable pub is_value_error : Error → Bool
is_value_error (value_error _) = true
is_value_error note_not_found = true
is_value_error version_conflict = true
is_value_error authentication_failed = true
is_value_error username_conflict = true
is_value_error rate_limited = true
is_value_error invalid_payload = true
is_value_error _ = false

-- What a call returns, or the exception that it raises.
pub data Result {ℓ} (R : Type ℓ) : Type ℓ where
  err : Error → Result R
  ok : R → Result R

module _ {ℓ κ} {R : Type ℓ} {S : Type κ} where
  infixl 5 ◌>>=◌ ◌>>◌
  abbrev pub ◌>>=◌ : Result R → (R → Result S) → Result S
  ◌>>=◌ (err raised) rest = err raised
  ◌>>=◌ (ok value) rest = rest value

  abbrev pub ◌>>◌ : Result R → Result S → Result S
  ◌>>◌ call rest = call >>= λ _. rest

  -- A chain that returns has a first call that returned.
  pub bind_inversion :
      (call : Result R) (rest : R → Result S) {result : S}
      → (call >>= rest) ≡ ok result
      → (value : R) × (call ≡ ok value) × (rest value ≡ ok result)
  bind_inversion (err raised) rest returned = cc
  bind_inversion (ok value) rest returned = (value, refl, returned)

module _ {ℓ κ} {R : Type ℓ} {S : Type κ} where
  -- A chain that raises has a call that raised, at its head or later.
  pub bind_failure :
      (call : Result R) (rest : R → Result S) {error : Error}
      → (call >>= rest) ≡ err error
      → (call ≡ err error) ⊎ ((value : R) × (call ≡ ok value) × (rest value ≡ err error))
  bind_failure (err raised) rest failed = inl cc
  bind_failure (ok value) rest failed = inr (value, refl, failed)

-- `if not test: raise ...`
abbrev pub require : Bool → Error → Result (Unit {0})
require passed error = if passed then ok tt else err error

pub Result-cases {ℓ} :
    {R : Type ℓ} (r : Result R) → ((e : Error) × (r ≡ err e)) ⊎ ((a : R) × (r ≡ ok a))
Result-cases (err e) = inl (e, refl)
Result-cases (ok a) = inr (a, refl)
