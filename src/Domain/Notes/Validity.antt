-- ===== src/Domain/Notes/Validity.antt =====
-- What holds of every note: its texts are trimmed and in range, its error code fits its status.
use rag_anotacoes_sdd.Prelude.{
  ℕ, ◌+◌, ◌≤◌, ◌≡◌, ◌≢◌, ◌↔◌, value_error, version_conflict_code, empty_update, err, Option, none,
  some, length, arith, Uuid, Instant, ok, [],
}
use rag_anotacoes_sdd.Text.{Text, strip}
use rag_anotacoes_sdd.Text.Strip.{strip-strip}
use rag_anotacoes_sdd.Domain.Notes.{
  Note, Field, title_field, content_field, title_maximum, content_maximum, SemanticStatus, failed,
  pending, validate_text, create, update, updated_text, mark_ready, mark_failed,
}

-- A text that `_validate_text` accepts and leaves as it is.
pub record IsTrimmed (maximum : ℕ) (t : Text) : Type 0 where
  pub trimmed : strip t ≡ t
  pub inhabited : t ≢ []
  pub short : length t ≤ maximum

-- The error code of a note stands exactly beside the status `failed`, and is safe to store.
abbrev pub StatusFits : SemanticStatus → Option Text → Type 0
StatusFits failed none = ⊥
StatusFits failed (some c) = (1 ≤ length c) × (length c ≤ 64)
StatusFits _ none = Unit
StatusFits _ (some c) = ⊥

pub record IsValid (n : Note) : Type 0 where
  pub title_fits : IsTrimmed title_maximum n.title
  pub content_fits : IsTrimmed content_maximum n.content
  pub version_fits : 1 ≤ n.version
  pub status_fits : StatusFits n.semantic_status n.semantic_error_code

pub validate_text-IsTrimmed :
    (value : Text) (field : Field) (maximum : ℕ) {t : Text}
    → validate_text value field maximum ≡ ok t
    → IsTrimmed maximum t
unfolding validate_text
validate_text-IsTrimmed value field maximum h = ground (arith, strip-strip value)

-- A text that was accepted once is accepted again, unchanged.
pub validate_text-trimmed :
    (t : Text) (field : Field) (maximum : ℕ)
    → IsTrimmed maximum t
    → validate_text t field maximum ≡ ok t
unfolding validate_text
validate_text-trimmed t field maximum h = ground arith

-- A created note is valid, has version 1, waits for indexing, and belongs to the given user.
pub create-IsValid :
    (note_id user_id : Uuid) (title content : Text) (now : Instant) {n : Note}
    → create note_id user_id title content now ≡ ok n
    → IsValid n
      × (n.id ≡ note_id)
      × (n.user_id ≡ user_id)
      × (n.version ≡ 1)
      × (n.semantic_status ≡ pending)
      × (n.created_at ≡ now)
unfolding create
create-IsValid note_id user_id title content now {n} h = ground (
  arith,
  validate_text-IsTrimmed title title_field title_maximum {t = n.title},
  validate_text-IsTrimmed content content_field content_maximum {t = n.content},
)

-- `create` accepts exactly the texts that are not blank and, once trimmed, not too long.
pub create-ok_iff :
    (note_id user_id : Uuid) (title content : Text) (now : Instant)
    → ((n : Note) × (create note_id user_id title content now ≡ ok n)) ↔ (
        (strip title ≢ [])
        × (length (strip title) ≤ title_maximum)
        × (strip content ≢ [])
        × (length (strip content) ≤ content_maximum))
unfolding create validate_text
create-ok_iff note_id user_id title content now = (
  λ (n, e). ground arith,
  λ h. (
    record {
      id = note_id;
      user_id = user_id;
      title = strip title;
      content = strip content;
      version = 1;
      semantic_status = pending;
      semantic_error_code = none;
      semantic_updated_at = some now;
      created_at = now;
      updated_at = now;
    },
    ground arith,
  ),
)

updated_text-IsTrimmed :
    (new : Option Text) (old : Text) (field : Field) (maximum : ℕ) {t : Text}
    → IsTrimmed maximum old
    → updated_text new old field maximum ≡ ok t
    → IsTrimmed maximum t
unfolding updated_text
updated_text-IsTrimmed none old field maximum v h = ground arith
updated_text-IsTrimmed (some new) old field maximum v h =
    validate_text-IsTrimmed new field maximum h

-- An update that succeeds keeps the note valid, adds one to its version, and sends it back to
-- indexing; it never changes whose note it is, its identifier or when it was created.
pub update-IsValid :
    (n : Note) (title content : Option Text) (now : Instant) (expected : Option ℕ) {m : Note}
    → IsValid n
    → update n title content now expected ≡ ok m
    → IsValid m
      × (m.id ≡ n.id)
      × (m.user_id ≡ n.user_id)
      × (m.created_at ≡ n.created_at)
      × (m.version ≡ n.version + 1)
      × (m.semantic_status ≡ pending)
      × (m.updated_at ≡ now)
unfolding update
update-IsValid n title content now expected {m} v h = ground (
  arith,
  updated_text-IsTrimmed title n.title title_field title_maximum {t = m.title} v.title_fits,
  updated_text-IsTrimmed content n.content content_field content_maximum {t = m.content}
      v.content_fits,
)

-- An update that expects another version raises, and so does one that changes nothing.
pub update_refuses :
    (n : Note) (title content : Option Text) (now : Instant) (expected : ℕ)
    → ((expected ≢ n.version)
        → update n title content now (some expected) ≡ err (value_error version_conflict_code))
      × (update n none none now (some n.version) ≡ err (value_error empty_update))
unfolding update
update_refuses n title content now expected = (λ h. ground arith, ground arith)

pub mark_ready-IsValid : (n : Note) (now : Instant) → IsValid n → IsValid (mark_ready n now)
unfolding mark_ready
mark_ready-IsValid n now v = ground arith

pub mark_failed-IsValid :
    (n : Note) (code : Text) (now : Instant) {m : Note}
    → IsValid n
    → mark_failed n code now ≡ ok m
    → IsValid m
unfolding mark_failed
mark_failed-IsValid n code now v h = ground arith
