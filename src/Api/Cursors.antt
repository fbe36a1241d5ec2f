-- ===== src/Api/Cursors.antt =====
-- api/notes.py, `encode_cursor` and `decode_cursor`. The formats are parameters: ISO dates, the
-- text of a UUID, a JSON list of two items, and URL-safe base64 of UTF-8.
pub mod RoundTrip
use rag_anotacoes_sdd.Prelude.{
  ℕ, Option, none, some, codes, Uuid, Instant, Result, ok, err, Error, attribute_error, ◌>>=◌,
}
use rag_anotacoes_sdd.Text.{Text}
use rag_anotacoes_sdd.Domain.Notes.{Note}
use rag_anotacoes_sdd.Api.Auth.{api}

-- An item of the list: a string, null, or a value of another kind.
pub data Json : Type 0 where
  string : Text → Json
  null_value other_value : Json

-- `read` is `json.loads(base64.urlsafe_b64decode(...).decode())`, unpacked into two items, and
-- nothing where one of these calls raises a ValueError or the unpacking a TypeError.
pub record Formats : Type 0 where
  pub isoformat : Instant → Text
  pub fromisoformat : Text → Option Instant
  pub show : Uuid → Text
  pub read_uuid : Text → Option Uuid
  pub write : Json → Json → Text
  pub read : Text → Option (Json × Json)

abbrev pub invalid_cursor : Error
invalid_cursor = api 422 (codes "validation_error") (codes "Cursor inválido.")

abbrev or_invalid : {A : Type 0} → Option A → Result A
or_invalid none = err invalid_cursor
or_invalid (some a) = ok a

module _ (f : Formats) where
  unfoldable pub encode_cursor : Note → Text
  encode_cursor note = f.write (string (f.isoformat note.updated_at)) (string (f.show note.id))

  -- `datetime.fromisoformat(...)`, which raises a TypeError for what is no string.
  abbrev instant_of : Json → Result Instant
  instant_of (string s) = or_invalid (f.fromisoformat s)
  instant_of _ = err invalid_cursor

  -- `UUID(...)`, which raises a TypeError for `None`, and an AttributeError, which is not caught,
  -- for any other value that is no string.
  abbrev uuid_of : Json → Result Uuid
  uuid_of (string s) = or_invalid (f.read_uuid s)
  uuid_of null_value = err invalid_cursor
  uuid_of other_value = err attribute_error

  abbrev items_of : Option (Json × Json) → Result (Json × Json)
  items_of none = err invalid_cursor
  items_of (some items) = ok items

  unfoldable pub decode_cursor : Text → Result (Instant × Uuid)
  decode_cursor value = do
    items ← items_of (f.read value)
    updated_at ← instant_of items.0
    note_id ← uuid_of items.1
    ok (updated_at, note_id)
