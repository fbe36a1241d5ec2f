-- ===== src/Tests/Answers.antt =====
-- Runs and instances for the classification, the retrieval and the answers of
-- app/src/notes_rag/services.
use rag_anotacoes_sdd.Prelude.{
  ◌≡◌, ◌↔◌, ◌⊎◌, refl, false, none, some, Option, [], ◌∷◌, codes, Result, ok, err,
  model_unavailable, classification_error,
}
use rag_anotacoes_sdd.Text.{Text, is_space, lstrip, rstrip, strip}
use rag_anotacoes_sdd.Domain.Chat.{
  ChatResponse, Intent, chat_response, by_id, verify_from, verified_sources,
}
use rag_anotacoes_sdd.Services.Intent.{
  IntentDecision, Prompt, is_valid, complete_creation, is_settled, conclude, parse, repair, settle,
  classify, classify_prompt, repair_prompt,
}
use rag_anotacoes_sdd.Services.Intent.Decisions.{
  IsDecision, IsOpen, RepairFails, classify-IsDecision, classify_fails,
}
use rag_anotacoes_sdd.Services.Retrieval.{RetrievalResult}
use rag_anotacoes_sdd.Services.Rag.{Ports, grounded_response, respond, respond_to}
use rag_anotacoes_sdd.Services.Rag.Answers.{Outcome, respond-Outcome}

abbrev decision : IntentDecision
decision = record { intent = Intent.rag; title = none; content = none; needs_clarification = false }

-- A model whose first answer is no decision, and whose repair is one.
abbrev complete : Prompt → Result Text
complete (classify_prompt m) = ok []
complete (repair_prompt m raw) = ok (codes "rag")

abbrev read : Text → Option IntentDecision
read [] = none
read (c ∷ t) = some decision

classify_run : classify complete read (codes "oi") ≡ ok decision
unfolding is_valid complete_creation is_settled conclude parse repair settle classify
classify_run = refl

classify-IsDecision_example : IsDecision Intent.rag none none false
classify-IsDecision_example = classify-IsDecision complete read (codes "oi") classify_run

abbrev unreadable : Text → Option IntentDecision
unreadable t = none

failed_run : classify complete unreadable (codes "oi") ≡ err classification_error
unfolding is_valid complete_creation is_settled conclude parse repair settle classify
failed_run = refl

classify_fails_example : (classify complete unreadable (codes "oi") ≡ err classification_error) ↔ (
    (complete (classify_prompt (codes "oi")) ≡ err classification_error)
    ⊎ ((raw : Text) × (complete (classify_prompt (codes "oi")) ≡ ok raw)
        × IsOpen complete unreadable raw
        × RepairFails complete unreadable (codes "oi") raw classification_error))
classify_fails_example = classify_fails complete unreadable (codes "oi") classification_error

abbrev item : RetrievalResult
item = record { note_id = 3; title = codes "T"; excerpt = codes "E"; similarity = 9 }

abbrev ports : Ports (Unit {0})
ports = record {
  decide = λ message. ok decision;
  general = λ prompt. err model_unavailable;
  grounded = λ prompt. ok (codes "{}");
  read_completion =
      λ raw. some (record { answer = codes " sim "; citation_ids = 3 ∷ []; insufficient = false });
  show = λ id. [];
  search = λ message w. (ok (item ∷ []), w);
  create = none;
}

abbrev reply : ChatResponse
reply = record {
  intent = Intent.rag;
  answer = codes "sim";
  needs_clarification = false;
  sources = record { note_id = 3; title = codes "T"; excerpt = codes "E" } ∷ [];
  created_note = none;
}

respond_run : respond ports (codes "oi") tt ≡ (ok reply, tt)
unfolding respond respond_to chat_response grounded_response verified_sources verify_from by_id
    strip lstrip rstrip is_space
respond_run = refl

respond-Outcome_example :
    (d : IntentDecision) × (ports.decide (codes "oi") ≡ ok d)
    × Outcome ports (codes "oi") d tt reply tt d.intent
respond-Outcome_example = respond-Outcome ports (codes "oi") tt respond_run
