-- ===== src/Domain/Chat.antt =====
-- domain/chat.py: the reply to a chat message, and the check of the sources that a model cites.
pub mod Sources
pub mod Replies
use rag_anotacoes_sdd.Prelude.{
  Bool, true, false, not, ◌&&◌, ◌||◌, Option, none, some, List, [], ◌∷◌, ◌++◌, ◌==◌, if◌then◌else◌,
  null, any, Uuid, Result, ok, err, ◌>>=◌, ◌>>◌, require, value_error, invalid_intent, empty_answer,
  clarification_must_not_have_side_effects, created_note_requires_create_intent,
  sources_require_rag_intent,
}
use rag_anotacoes_sdd.Text.{Text, strip}
use rag_anotacoes_sdd.Domain.Notes.{Note}

pub record Source : Type 0 where
  pub note_id : Uuid
  pub title : Text
  pub excerpt : Text

-- The `intent` strings; `other` is any string that is none of the four.
pub data Intent : Type 0 where
  rag general_chat create_note clarification : Intent
  other : Text → Intent

abbrev pub is_known : Intent → Bool
is_known (other s) = false
is_known _ = true

abbrev pub is_rag : Intent → Bool
is_rag rag = true
is_rag _ = false

abbrev pub is_create_note : Intent → Bool
is_create_note create_note = true
is_create_note _ = false

abbrev pub is_some {ℓ} : {A : Type ℓ} → Option A → Bool
is_some none = false
is_some (some a) = true

pub record ChatResponse : Type 0 where
  pub intent : Intent
  pub answer : Text
  pub needs_clarification : Bool
  pub sources : List Source
  pub created_note : Option Note

-- `__post_init__`: a reply that breaks a rule is never made.
unfoldable pub chat_response : ChatResponse → Result ChatResponse
chat_response self = do
  require (is_known self.intent) (value_error invalid_intent)
  require (not (null (strip self.answer))) (value_error empty_answer)
  require (not (self.needs_clarification && (not (null self.sources) || is_some self.created_note)))
      (value_error clarification_must_not_have_side_effects)
  require (not (is_some self.created_note && not (is_create_note self.intent)))
      (value_error created_note_requires_create_intent)
  require (not (not (is_rag self.intent) && not (null self.sources)))
      (value_error sources_require_rag_intent)
  ok self

-- `{source.note_id: source for source in available}`, asked for a key: the last one wins.
unfoldable pub by_id : List Source → Uuid → Option Source
by_id [] note_id = none
by_id (source ∷ rest) note_id = elim (by_id rest note_id) [
  | some later ↦ some later
  | none ↦ if source.note_id == note_id then some source else none
]

abbrev pub member : Uuid → List Uuid → Bool
member note_id = any (λ seen. seen == note_id)

-- The loop of `verified_sources` over the requested identifiers.
unfoldable pub verify_from :
    List Source → List Source → List Uuid → List Uuid → Option (List Source)
verify_from available unique seen [] = some unique
verify_from available unique seen (note_id ∷ rest) = elim (by_id available note_id) [
  | none ↦ none
  | some source ↦ elim (member note_id seen) [
    | true ↦ verify_from available unique seen rest
    | false ↦ verify_from available (unique ++ source ∷ []) (note_id ∷ seen) rest
  ]
]

unfoldable pub verified_sources : List Uuid → List Source → Option (List Source)
unfolding verify_from
verified_sources requested_ids available = verify_from available [] [] requested_ids
