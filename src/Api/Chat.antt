-- ===== src/Api/Chat.antt =====
-- api/chat.py: the handler of a chat message.
use rag_anotacoes_sdd.Prelude.{
  Bool, not, Option, none, some, List, any, length, leb, codes, Uuid, Instant, Result, ok, err,
  Error, classification_error, model_unavailable, invalid_payload, if◌then◌else◌,
}
use rag_anotacoes_sdd.Text.{Text}
use rag_anotacoes_sdd.Domain.Notes.{Note}
use rag_anotacoes_sdd.Domain.Chat.{ChatResponse, Intent, Source}
use rag_anotacoes_sdd.Config.{Settings}
use rag_anotacoes_sdd.Services.Authentication.{Hashing, Action, lift, stored, ◌>>=◌, ◌>>◌}
use rag_anotacoes_sdd.Services.Rag.{respond}
use rag_anotacoes_sdd.Services.Runtime.{Model, rag_service}
use rag_anotacoes_sdd.Api.Auth.{
  Request, Wording, api, field_error, require_valid, except_as, mutation_session,
}
use rag_anotacoes_sdd.Api.Notes.{NoteResponse, note_response}

pub record ChatResponseBody : Type 0 where
  pub intent : Intent
  pub answer : Text
  pub needs_clarification : Bool
  pub sources : List Source
  pub created_note : Option NoteResponse

abbrev note_of : Option Note → Option NoteResponse
note_of none = none
note_of (some note) = some (note_response note)

-- `ChatResponseBody.from_domain`: a `SourceResponse` holds at most 500 characters of excerpt.
unfoldable pub chat_body : ChatResponse → Result ChatResponseBody
chat_body response =
    if any (λ s. not (leb (length s.excerpt) 500)) response.sources
    then err invalid_payload
    else ok (record {
      intent = response.intent;
      answer = response.answer;
      needs_clarification = response.needs_clarification;
      sources = response.sources;
      created_note = note_of response.created_note;
    })

abbrev pub chat_errors : Error → Error
chat_errors classification_error =
    api 502 (codes "classification_failed")
      (codes "Nao foi possivel classificar a mensagem. Tente reformula-la.")
chat_errors model_unavailable =
    api 503 (codes "model_unavailable") (codes "O modelo local está indisponível.")
chat_errors e = e

-- The body of the `try`.
abbrev pub answered :
    {J : Type 0}
    → Model J
    → Settings
    → Uuid
    → Uuid
    → Instant
    → Uuid
    → Text
    → Action ChatResponseBody
answered model configuration id job_id now user_id message = do
  response ← stored (respond (rag_service model configuration user_id id job_id now) message)
  lift (chat_body response)

unfoldable pub send_message :
    {J : Type 0}
    → Model J
    → Hashing
    → Settings
    → Wording
    → Uuid
    → Uuid
    → Instant
    → Request
    → Text
    → Action ChatResponseBody
send_message model h configuration wording id job_id now request message = do
  session ← mutation_session h configuration now request
  require_valid (field_error wording (codes "message") 1 4000 message)
  except_as chat_errors (answered model configuration id job_id now session.user_id message)
