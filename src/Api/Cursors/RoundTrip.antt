-- ===== src/Api/Cursors/RoundTrip.antt =====
-- A cursor is read as the place that it was written for.
use rag_anotacoes_sdd.Prelude.{◌≡◌, some, ok, Uuid, Instant, arith, null, false}
use rag_anotacoes_sdd.Text.{Text}
use rag_anotacoes_sdd.Domain.Notes.{Note}
use rag_anotacoes_sdd.Api.Cursors.{Formats, string, encode_cursor, decode_cursor}

-- What the formats promise: each reader reads what its writer wrote, which is never empty.
pub record AreInverse (f : Formats) : Type 0 where
  pub dates : (t : Instant) → f.fromisoformat (f.isoformat t) ≡ some t
  pub ids : (id : Uuid) → f.read_uuid (f.show id) ≡ some id
  pub some_text : (a b : Text) → null (f.write (string a) (string b)) ≡ false
  pub lists : (a b : Text) → f.read (f.write (string a) (string b)) ≡ some (string a, string b)

-- Where each reader of the formats reads what its writer wrote, the cursor of a note is read as the
-- note's time of change and identifier.
pub decode_cursor-encode_cursor :
    (f : Formats) (note : Note)
    → AreInverse f
    → decode_cursor f (encode_cursor f note) ≡ ok (note.updated_at, note.id)
unfolding decode_cursor encode_cursor
decode_cursor-encode_cursor f note laws = ground (
  arith,
  laws.dates note.updated_at,
  laws.ids note.id,
  laws.lists (f.isoformat note.updated_at) (f.show note.id),
)
