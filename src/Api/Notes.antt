-- ===== src/Api/Notes.antt =====
-- api/notes.py: the handlers of the notes. `NoteService` and `RetryGateway` are made for the user
-- of the session; `int(...)` is a parameter; identifiers and the clock are arguments.
pub mod Cuts
pub mod Walk
pub mod Locking
use rag_anotacoes_sdd.Prelude.{
  ℕ, ◌+◌, Bool, true, false, ◌&&◌, Option, none, some, List, [], ◌∷◌, ◌++◌, map, length, take, ltb,
  leb, codes, Uuid, Instant, Result, ok, err, Error, Item, is_value_error, note_not_found,
  version_conflict, value_error, invalid_literal, version_conflict_code, if◌then◌else◌,
}
use rag_anotacoes_sdd.Text.{Text, text_eq}
use rag_anotacoes_sdd.Domain.Notes.{Note, SemanticStatus}
use rag_anotacoes_sdd.Domain.Users.{Session}
use rag_anotacoes_sdd.Config.{Settings}
use rag_anotacoes_sdd.Services.Authentication.{
  Hashing, State, Action, pure, raise, lift, stored, ◌>>=◌, ◌>>◌,
}
use rag_anotacoes_sdd.Services.Notes.{gateway}
use rag_anotacoes_sdd.Services.Notes
use rag_anotacoes_sdd.Services.Gateways
use rag_anotacoes_sdd.Api.Auth.{
  Request, Wording, api, field_error, require_valid, except_as, current_session, mutation_session,
}
use rag_anotacoes_sdd.Api.Cursors.{Formats, encode_cursor, decode_cursor}

pub record NoteResponse : Type 0 where
  pub id : Uuid
  pub title : Text
  pub content : Text
  pub version : ℕ
  pub semantic_status : SemanticStatus
  pub semantic_error_code : Option Text
  pub created_at : Instant
  pub updated_at : Instant

-- `NoteResponse.from_domain`
abbrev pub note_response : Note → NoteResponse
note_response note = record {
  id = note.id;
  title = note.title;
  content = note.content;
  version = note.version;
  semantic_status = note.semantic_status;
  semantic_error_code = note.semantic_error_code;
  created_at = note.created_at;
  updated_at = note.updated_at;
}

pub record NotePage : Type 0 where
  pub items : List NoteResponse
  pub next_cursor : Option Text

abbrev pub not_found : Error
not_found = api 404 (codes "note_not_found") (codes "Anotação não encontrada.")

abbrev pub changed : Error
changed = api 409 (codes "version_conflict") (codes "A anotação foi alterada.")

abbrev pub not_retryable : Error
not_retryable =
    api 409 (codes "indexing_not_retryable") (codes "A indexação não pode ser repetida.")

abbrev pub missing_as_404 : Error → Error
missing_as_404 note_not_found = not_found
missing_as_404 e = e

-- The two `except` clauses of `update_note`, in their order.
abbrev pub update_errors : Error → Error
update_errors note_not_found = not_found
update_errors e = if is_value_error e then changed else e

-- What `int(...)` reads: a number from zero on, a negative one, or nothing (a ValueError).
pub data Reading : Type 0 where
  number : ℕ → Reading
  negative unreadable : Reading

-- `s.strip('"')`
unfoldable pub lstrip_quotes : Text → Text
lstrip_quotes [] = []
lstrip_quotes (c ∷ s) =
    let rest = lstrip_quotes s in if text_eq (c ∷ []) (codes "\"") then rest else c ∷ s

abbrev drop_quote : ℕ → Text → Text
drop_quote c [] = if text_eq (c ∷ []) (codes "\"") then [] else c ∷ []
drop_quote c (d ∷ r) = c ∷ d ∷ r

unfoldable pub rstrip_quotes : Text → Text
rstrip_quotes [] = []
rstrip_quotes (c ∷ s) = drop_quote c (rstrip_quotes s)

unfoldable pub strip_quotes : Text → Text
unfolding lstrip_quotes rstrip_quotes
strip_quotes s = rstrip_quotes (lstrip_quotes s)

-- The bounds of a text that may be left out.
abbrev optional_error : Wording → Text → ℕ → Option Text → List Item
optional_error wording name high none = []
optional_error wording name high (some value) = field_error wording name 1 high value

abbrev change_error : Option Text → Option Text → List Item
change_error none none =
    record { loc = codes "body" ∷ []; msg = codes "Value error, at least one field is required" }
    ∷ []
change_error _ _ = []

-- `NotePatch`: where both texts are left out, no bound is broken.
unfoldable pub patch_errors : Wording → Option Text → Option Text → List Item
patch_errors wording title content =
    optional_error wording (codes "title") 200 title
    ++ (optional_error wording (codes "content") 100000 content ++ change_error title content)

-- `decode_cursor(cursor) if cursor else None`
unfoldable pub before_of : Formats → Option Text → Result (Option (Instant × Uuid))
before_of f none = ok none
before_of f (some []) = ok none
before_of f (some (c ∷ cursor)) = elim (decode_cursor f (c ∷ cursor)) [
  | err e ↦ err e
  | ok place ↦ ok (some place)
]

-- `encode_cursor(items[-1]) if items else None`
unfoldable pub last_cursor : Formats → List Note → Option Text
last_cursor f [] = none
last_cursor f (n ∷ []) = some (encode_cursor f n)
last_cursor f (n ∷ m ∷ ns) = last_cursor f (m ∷ ns)

-- The page that `list_notes` makes of the values, of which there may be one more than the limit.
unfoldable pub page_of : Formats → ℕ → List Note → NotePage
page_of f limit values = record {
  items = map note_response (take limit values);
  next_cursor = if ltb limit (length values) then last_cursor f (take limit values) else none;
}

-- `limit: Annotated[int, Query(ge=1, le=100)]`
abbrev limit_error : (ℕ → Text) → ℕ → List Item
limit_error wording limit =
    if leb 1 limit && leb limit 100
    then []
    else record { loc = codes "query" ∷ codes "limit" ∷ []; msg = wording limit } ∷ []

abbrev pub is_retried : Bool → Result (Unit {0})
is_retried true = ok tt
is_retried false = err not_retryable

abbrev pub existing : Option Note → Result Note
existing none = err not_found
existing (some note) = ok note

module _ (h : Hashing) (configuration : Settings) where
  unfoldable pub create :
      Wording
      → (Uuid → Text)
      → Uuid
      → Uuid
      → Instant
      → Request
      → Text
      → Text
      → Action (NoteResponse × Text)
  create wording show id job_id now request title content = do
    session ← mutation_session h configuration now request
    require_valid (
        field_error wording (codes "title") 1 200 title
        ++ field_error wording (codes "content") 1 100000 content)
    note ←
        stored (Notes.create (gateway session.user_id) session.user_id id job_id now title content)
    pure (note_response note, codes "/api/v1/notes/" ++ show note.id)

  unfoldable pub list_notes :
      (ℕ → Text) → Formats → Instant → Request → Option Text → ℕ → Action NotePage
  list_notes wording f now request cursor limit = do
    session ← current_session h configuration now request
    require_valid (limit_error wording limit)
    before ← lift (before_of f cursor)
    values ← stored (Gateways.list_notes session.user_id (limit + 1) before)
    pure (page_of f limit values)

  unfoldable pub get_note : Instant → Request → Uuid → Action NoteResponse
  get_note now request note_id = do
    session ← current_session h configuration now request
    note ←
        except_as missing_as_404
          (stored (Notes.get (gateway session.user_id) session.user_id note_id))
    pure (note_response note)

  -- The body of the `try`. No version is negative, so `Note.update` refuses a negative number.
  abbrev pub update_at :
      Uuid → Instant → Session → Uuid → Option Text → Option Text → Reading → Action Note
  update_at job_id now session note_id title content unreadable =
      raise (value_error invalid_literal)
  update_at job_id now session note_id title content negative = do
    _ ← stored (Notes.get (gateway session.user_id) session.user_id note_id)
    raise (value_error version_conflict_code)
  update_at job_id now session note_id title content (number expected) = stored (
      Notes.update (gateway session.user_id) session.user_id job_id now note_id title content
        expected)

  unfoldable pub update_note :
      Wording
      → (Text → Reading)
      → Uuid
      → Instant
      → Request
      → Uuid
      → Option Text
      → Option Text
      → Text
      → Action NoteResponse
  update_note wording int job_id now request note_id title content if_match = do
    session ← mutation_session h configuration now request
    require_valid (patch_errors wording title content)
    note ←
        except_as update_errors
          (update_at job_id now session note_id title content (int (strip_quotes if_match)))
    pure (note_response note)

  unfoldable pub delete_note : Instant → Request → Uuid → Action (Unit {0})
  delete_note now request note_id = do
    session ← mutation_session h configuration now request
    except_as missing_as_404
        (stored (Notes.delete (gateway session.user_id) session.user_id note_id))

  unfoldable pub retry_indexing : Instant → Request → Uuid → Action NoteResponse
  retry_indexing now request note_id = do
    session ← mutation_session h configuration now request
    note ← stored (Gateways.get_note session.user_id note_id)
    _ ← lift (existing note)
    retried ← stored (Gateways.retry_failed note_id session.user_id now)
    lift (is_retried retried)
    refreshed ← stored (Gateways.get_note session.user_id note_id)
    found ← lift (existing refreshed)
    pure (note_response found)
