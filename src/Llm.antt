-- ===== src/Llm.antt =====
-- llm/ollama.py, `OllamaClient`. The HTTP transport is a parameter: what it answers to a POST, or
-- that it fails. JSON stays abstract, with the readers that pydantic and `dict.get` are.
pub mod Identity
use rag_anotacoes_sdd.Prelude.{
  ℕ, Bool, true, false, not, Option, none, some, List, [], ◌∷◌, codes, Result, ok, err, ◌>>=◌, ◌>>◌,
  require, model_unavailable, model_identity_error, invalid_payload, attribute_error,
}
use rag_anotacoes_sdd.Text.{Text}
use rag_anotacoes_sdd.Config.{contains}
use rag_anotacoes_sdd.Persistence.Tables.{Vector}

-- The three payloads. `temperature` is in parts of one; `format` and `num_predict` are left out
-- of the payload where there are none.
pub data Payload (J : Type 0) : Type 0 where
  embed_input : Text → List Text → Payload J
  generation : Text → Text → ℕ → Option J → Option ℕ → Payload J
  shown_model : Text → Payload J

-- What a POST comes to: an `httpx.HTTPError`, a bad status included; a body that is no JSON; JSON.
pub data Answer (J : Type 0) : Type 0 where
  http_error not_json : Answer J
  json : J → Answer J

-- `read_embeddings` and `read_response` are `model_validate` of the two answers; `read_show` is
-- `details.parent_model` and `digest` of an answer that is an object with an object for `details`.
pub record OllamaClient (J : Type 0) : Type 0 where
  pub embedding_model : Text
  pub generation_model : Text
  pub transport : Text → Payload J → Answer J
  pub read_embeddings : J → Option (List Vector)
  pub read_response : J → Option Text
  pub read_show : J → Option (Option Text × Option Text)

-- A `ValidationError` where the answer has another shape.
abbrev pub validated : {A : Type 0} → Option A → Result A
validated none = err invalid_payload
validated (some a) = ok a

-- `parent_model or digest or ""`
abbrev identity_of : Option Text → Option Text → Text
identity_of (some (c ∷ s)) digest = c ∷ s
identity_of _ (some digest) = digest
identity_of _ none = []

abbrev pub shown : Option (Option Text × Option Text) → Result Text
shown none = err attribute_error
shown (some (parent_model, digest)) = ok (identity_of parent_model digest)

module _ {J : Type 0} where
  abbrev pub answered : Answer J → Result J
  answered http_error = err model_unavailable
  answered not_json = err model_unavailable
  answered (json j) = ok j

  module _ (self : OllamaClient J) where
    -- `_post`
    unfoldable pub post : Text → Payload J → Result J
    post path payload = answered (self.transport path payload)

    unfoldable pub embed : List Text → Result (List Vector)
    embed texts = do
      payload ← post (codes "/api/embed") (embed_input self.embedding_model texts)
      validated (self.read_embeddings payload)

    unfoldable pub complete : Text → Option J → ℕ → Option ℕ → Result Text
    complete prompt json_schema temperature max_tokens = do
      payload ←
          post (codes "/api/generate")
            (generation self.generation_model prompt temperature json_schema max_tokens)
      validated (self.read_response payload)

    unfoldable pub model_identity : Text → Result Text
    model_identity model = do
      payload ← post (codes "/api/show") (shown_model model)
      shown (self.read_show payload)

    unfoldable pub verify_model : Text → Text → Result (Unit {0})
    verify_model model expected_identity = do
      observed ← model_identity model
      require (contains expected_identity observed) model_identity_error
