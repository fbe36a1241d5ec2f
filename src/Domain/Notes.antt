-- ===== src/Domain/Notes.antt =====
-- domain/notes.py: a note and its changes. Each method that raises returns a `Result`.
pub mod Validity
use rag_anotacoes_sdd.Prelude.{
  ℕ, ◌+◌, Bool, true, false, not, ◌||◌, Option, none, some, ltb, ◌==◌, if◌then◌else◌, length, null,
  Uuid, Instant, Result, ok, err, ◌>>=◌, ◌>>◌, require, value_error, Code, title_required,
  title_too_long, content_required, content_too_long, version_conflict_code, empty_update,
  semantic_error_code_invalid,
}
use rag_anotacoes_sdd.Text.{Text, strip}

pub data SemanticStatus : Type 0 where
  pending processing ready failed : SemanticStatus

-- The `field` of `_validate_text`, and the messages that are made from it.
pub data Field : Type 0 where
  title_field content_field : Field

abbrev pub required : Field → Code
required title_field = title_required
required content_field = content_required

abbrev pub too_long : Field → Code
too_long title_field = title_too_long
too_long content_field = content_too_long

unfoldable pub validate_text : Text → Field → ℕ → Result Text
validate_text value field maximum =
    let normalized = strip value in
    if null normalized
    then err (value_error (required field))
    else if ltb maximum (length normalized)
    then err (value_error (too_long field))
    else ok normalized

pub record Note : Type 0 where
  pub id : Uuid
  pub user_id : Uuid
  pub title : Text
  pub content : Text
  pub version : ℕ
  pub semantic_status : SemanticStatus
  pub semantic_error_code : Option Text
  pub semantic_updated_at : Option Instant
  pub created_at : Instant
  pub updated_at : Instant

abbrev pub title_maximum : ℕ
title_maximum = 200

abbrev pub content_maximum : ℕ
content_maximum = 100000

unfoldable pub create : Uuid → Uuid → Text → Text → Instant → Result Note
create note_id user_id title content now = do
  title' ← validate_text title title_field title_maximum
  content' ← validate_text content content_field content_maximum
  ok (record {
    id = note_id;
    user_id = user_id;
    title = title';
    content = content';
    version = 1;
    semantic_status = pending;
    semantic_error_code = none;
    semantic_updated_at = some now;
    created_at = now;
    updated_at = now;
  })

-- The old text, or the new one if it is given and valid.
unfoldable pub updated_text : Option Text → Text → Field → ℕ → Result Text
updated_text none old field maximum = ok old
updated_text (some new) old field maximum = validate_text new field maximum

abbrev is_none {ℓ} : {A : Type ℓ} → Option A → Bool
is_none none = true
is_none (some a) = false

abbrev is_both_none : Option Text → Option Text → Bool
is_both_none none none = true
is_both_none _ _ = false

-- `expected_version is not None and expected_version != self.version`
abbrev conflicts : Option ℕ → ℕ → Bool
conflicts none version = false
conflicts (some expected) version = not (expected == version)

unfoldable pub update : Note → Option Text → Option Text → Instant → Option ℕ → Result Note
unfolding updated_text
update self title content now expected_version = do
  require (not (conflicts expected_version self.version)) (value_error version_conflict_code)
  require (not (is_both_none title content)) (value_error empty_update)
  title' ← updated_text title self.title title_field title_maximum
  content' ← updated_text content self.content content_field content_maximum
  ok (record self {
    title = title';
    content = content';
    version = self.version + 1;
    semantic_status = pending;
    semantic_error_code = none;
    semantic_updated_at = some now;
    updated_at = now;
  })

unfoldable pub mark_ready : Note → Instant → Note
mark_ready self now = record self {
  semantic_status = ready;
  semantic_error_code = none;
  semantic_updated_at = some now;
}

unfoldable pub mark_failed : Note → Text → Instant → Result Note
mark_failed self error_code now =
    if null error_code || ltb 64 (length error_code)
    then err (value_error semantic_error_code_invalid)
    else ok (record self {
      semantic_status = failed;
      semantic_error_code = some error_code;
      semantic_updated_at = some now;
    })
