-- ===== src/Domain/Chat/Replies.antt =====
-- What every reply that can be made satisfies.
use rag_anotacoes_sdd.Prelude.{◌≡◌, ◌≢◌, true, none, [], arith, ok}
use rag_anotacoes_sdd.Text.{strip}
use rag_anotacoes_sdd.Domain.Chat.{ChatResponse, rag, create_note, is_known, chat_response}

-- The rules of a reply: a known intent and a visible answer; sources only of `rag`; a note only
-- of `create_note`; neither beside a question back.
pub record IsCoherent (r : ChatResponse) : Type 0 where
  pub known : is_known r.intent ≡ true
  pub answered : strip r.answer ≢ []
  pub sources_of_rag : r.sources ≢ [] → r.intent ≡ rag
  pub note_of_creation : r.created_note ≢ none → r.intent ≡ create_note
  pub asks_only : r.needs_clarification ≡ true → (r.sources ≡ []) × (r.created_note ≡ none)

-- A reply can be made exactly when it follows the rules, and is made as it was given.
pub chat_response-IsCoherent :
    (r : ChatResponse)
    → ((chat_response r ≡ ok r) → IsCoherent r) × (IsCoherent r → chat_response r ≡ ok r)
unfolding chat_response
chat_response-IsCoherent r = (λ h. ground arith, λ h. ground arith)
