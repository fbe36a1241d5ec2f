-- ===== src/Services/Intent.antt =====
-- services/intent.py: the classification of a message, with one repair. The model and the JSON
-- reader are parameters: `complete` is what `OllamaPort.complete` answers to a prompt or raises,
-- and `read` is `json.loads` with the types of `IntentDecision`'s fields.
pub mod Decisions
pub mod Wording
use rag_anotacoes_sdd.Prelude.{
  ℕ, Bool, true, false, not, ◌&&◌, ◌||◌, Option, none, some, length, leb, take, if◌then◌else◌,
  Result, ok, err, ◌>>=◌, classification_error,
}
use rag_anotacoes_sdd.Text.{Text}
use rag_anotacoes_sdd.Domain.Chat.{Intent, is_known, is_create_note, is_some}

pub record IntentDecision : Type 0 where
  pub intent : Intent
  pub title : Option Text
  pub content : Option Text
  pub needs_clarification : Bool

-- `Field(default=None, min_length=1, max_length=...)`
abbrev pub in_range : ℕ → Option Text → Bool
in_range maximum none = true
in_range maximum (some t) = leb 1 (length t) && leb (length t) maximum

abbrev pub is_clarification : Intent → Bool
is_clarification Intent.clarification = true
is_clarification _ = false

-- The intents that only read.
abbrev pub is_answer : Intent → Bool
is_answer Intent.rag = true
is_answer Intent.general_chat = true
is_answer _ = false

-- The field constraints and `validate_intent_fields`.
unfoldable pub is_valid : IntentDecision → Bool
is_valid self =
    is_known self.intent
    && in_range 200 self.title
    && in_range 100000 self.content
    && not (not (is_create_note self.intent) && (is_some self.title || is_some self.content))
    && not (is_clarification self.intent && not self.needs_clarification)
    && not (is_answer self.intent && self.needs_clarification)
    && not (
        is_create_note self.intent
        && not self.needs_clarification
        && not (is_some self.title && is_some self.content))

unfoldable pub complete_creation : IntentDecision → Bool
complete_creation self =
    is_create_note self.intent
    && not self.needs_clarification
    && is_some self.title
    && is_some self.content

-- The prompts, by what they quote: the message, and for a repair the first 4,000 characters of
-- the answer before. Their wording is in Services.Intent.Wording.
pub data Prompt : Type 0 where
  classify_prompt : Text → Prompt
  repair_prompt : Text → Text → Prompt

-- `intent in {"rag", "general_chat", "clarification"}`, or a complete creation.
unfoldable pub is_settled : IntentDecision → Bool
is_settled d = is_answer d.intent || is_clarification d.intent || complete_creation d

abbrev validated : Option IntentDecision → Option IntentDecision
validated none = none
validated (some d) = if is_valid d then some d else none

-- What becomes of the repaired decision.
unfoldable pub conclude : Option IntentDecision → Result IntentDecision
conclude none = err classification_error
conclude (some d) =
    if is_settled d
    then ok d
    else if is_create_note d.intent
    then ok (record d { needs_clarification = true })
    else err classification_error

module _ (complete : Prompt → Result Text) (read : Text → Option IntentDecision) where
  -- `_parse`
  unfoldable pub parse : Text → Option IntentDecision
  parse raw = validated (read raw)

  unfoldable pub repair : Text → Text → Result IntentDecision
  repair message raw = do
    repaired ← complete (repair_prompt message (take 4000 raw))
    conclude (parse repaired)

  unfoldable pub settle : Text → Text → Option IntentDecision → Result IntentDecision
  settle message raw none = repair message raw
  settle message raw (some d) = if is_settled d then ok d else repair message raw

  unfoldable pub classify : Text → Result IntentDecision
  classify message = do raw ← complete (classify_prompt message); settle message raw (parse raw)
