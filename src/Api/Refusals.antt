-- ===== src/Api/Refusals.antt =====
-- What the handlers answer to a request without an admitted session.
use rag_anotacoes_sdd.Prelude.{◌≡◌, refl, ◌⊎◌, inl, inr, Option, Uuid, Instant, ok, err, Error}
use rag_anotacoes_sdd.Text.{Text}
use rag_anotacoes_sdd.Domain.Users.{Session}
use rag_anotacoes_sdd.Config.{Settings}
use rag_anotacoes_sdd.Services.Authentication.{Hashing, State}
use rag_anotacoes_sdd.Services.Runtime.{Model}
use rag_anotacoes_sdd.Api.Auth.{Request, Wording, mutation_session, logout}
use rag_anotacoes_sdd.Api.Auth.Admission.{IsAdmitted, IsRefusal, mutation_session_cases}
use rag_anotacoes_sdd.Api.Notes.{Reading, create, update_note, delete_note, retry_indexing}
use rag_anotacoes_sdd.Api.Chat.{send_message}

module _ {J : Type 0} (model : Model J) (h : Hashing) (configuration : Settings) (now : Instant)
    (request : Request) (s : State) where
  -- Each of the six handlers that depend on `mutation_session` ends with the error, and changes
  -- nothing.
  pub record AllRefuse (e : Error) : Type 0 where
    pub created :
        (wording : Wording) (show : Uuid → Text) (id job_id : Uuid) (title content : Text)
        → create h configuration wording show id job_id now request title content s ≡ (err e, s)
    pub updated :
        (wording : Wording) (int : Text → Reading) (job_id note_id : Uuid)
        (title content : Option Text) (if_match : Text)
        → update_note h configuration wording int job_id now request note_id title content if_match
            s
          ≡ (err e, s)
    pub deleted : (note_id : Uuid) → delete_note h configuration now request note_id s ≡ (err e, s)
    pub retried :
        (note_id : Uuid) → retry_indexing h configuration now request note_id s ≡ (err e, s)
    pub answered :
        (wording : Wording) (id job_id : Uuid) (message : Text)
        → send_message model h configuration wording id job_id now request message s ≡ (err e, s)
    pub logged_out : logout h configuration now request s ≡ (err e, s)

  all_refuse :
      (e : Error) → mutation_session h configuration now request s ≡ (err e, s) → AllRefuse e
  unfolding create update_note delete_note retry_indexing send_message logout
  all_refuse e refused = record {
    created = λ wording show id job_id title content. rw refused refl;
    updated = λ wording int job_id note_id title content if_match. rw refused refl;
    deleted = λ note_id. rw refused refl;
    retried = λ note_id. rw refused refl;
    answered = λ wording id job_id message. rw refused refl;
    logged_out = rw refused refl;
  }

  -- Either the request has an admitted session, which `mutation_session` returns without a change,
  -- or there is one error, a 401 or a 403, with which the six handlers that depend on it end (a note
  -- created, changed or deleted, its indexing retried, a chat message, the logout), and none of them
  -- changes anything. Registration and login, which need no session, are not among them.
  pub mutations_refused :
      ((session : Session) × IsAdmitted h configuration now request s session
        × (mutation_session h configuration now request s ≡ (ok session, s)))
      ⊎ ((e : Error) × IsRefusal e × AllRefuse e)
  mutations_refused = elim (mutation_session_cases h configuration now request s) [
    | inl admitted ↦ inl admitted
    | inr (e, refusal, refused) ↦ inr (e, refusal, all_refuse e refused)
  ]
