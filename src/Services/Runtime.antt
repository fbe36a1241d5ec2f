-- ===== src/Services/Runtime.antt =====
-- runtime.py: `RetrievalGateway` and the factories, which wire the services to one model client
-- and one database. The JSON readers of services/intent.py and services/rag.py are
-- parameters.
use rag_anotacoes_sdd.Prelude.{ℕ, Option, none, some, List, Uuid, Instant, Result}
use rag_anotacoes_sdd.Text.{Text}
use rag_anotacoes_sdd.Config
use rag_anotacoes_sdd.Config.{Settings}
use rag_anotacoes_sdd.Llm.{OllamaClient, embed, complete}
use rag_anotacoes_sdd.Persistence.Tables.{Tables, Vector}
use rag_anotacoes_sdd.Persistence.Transactions.{transaction}
use rag_anotacoes_sdd.Services.Gateways.{Call}
use rag_anotacoes_sdd.Services.Intent.{IntentDecision, classify}
use rag_anotacoes_sdd.Services.Intent.Wording.{prompt_text}
use rag_anotacoes_sdd.Services.Retrieval
use rag_anotacoes_sdd.Services.Retrieval.{RetrievalResult}
use rag_anotacoes_sdd.Services.Rag
use rag_anotacoes_sdd.Services.Rag.{GroundedCompletion}
use rag_anotacoes_sdd.Services.Notes
use rag_anotacoes_sdd.Services.Notes.{gateway}

-- The model client, and what stands for the libraries around it.
pub record Model (J : Type 0) : Type 0 where
  pub client : OllamaClient J
  pub intent_schema : J
  pub grounding_schema : J
  pub read_decision : Text → Option IntentDecision
  pub read_completion : Text → Option GroundedCompletion
  pub show : Uuid → Text
  pub cosine_distance : Vector → Vector → ℕ
  pub one : ℕ

module _ {J : Type 0} (model : Model J) where
  -- The completion calls of the services: temperature 0, and the length where one is given.
  abbrev pub classification : Text → Result IntentDecision
  classification =
      classify
        (λ prompt. complete model.client (prompt_text prompt) (some model.intent_schema) 0 none)
        model.read_decision

  abbrev pub retrieval_ports : Retrieval.Ports
  retrieval_ports = record {
    embed = embed model.client;
    cosine_distance = model.cosine_distance;
    one = model.one;
  }

  -- `RetrievalGateway.search`
  unfoldable pub search_notes :
      Config.Settings → Uuid → Text → Option ℕ → Call (List RetrievalResult)
  search_notes settings user_id query limit = transaction (
      Retrieval.search retrieval_ports
        (record {
          minimum_similarity = settings.retrieval_minimum_similarity;
          default_limit = settings.retrieval_limit;
        })
        user_id query limit)

  -- `rag_service`, for one message: the identifiers and the instant are those of a created note.
  abbrev pub rag_service : Config.Settings → Uuid → Uuid → Uuid → Instant → Rag.Ports Tables
  rag_service settings user_id id job_id now = record {
    decide = classification;
    general = λ prompt. complete model.client prompt none 0 (some 160);
    grounded = λ prompt. complete model.client prompt (some model.grounding_schema) 0 none;
    read_completion = model.read_completion;
    show = model.show;
    search = λ message. search_notes settings user_id message none;
    create =
        some (λ title content. Notes.create (gateway user_id) user_id id job_id now title content);
  }
