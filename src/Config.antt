-- ===== src/Config.antt =====
-- config.py: the settings, with the bounds of their fields and `validate_security_boundaries`.
-- Reading them from the environment is the library's. `str.casefold` is a parameter, and so is
-- `is_http_url`, which says whether the library's `HttpUrl` takes a text; a similarity
-- is a number of parts of `one`, and a time in seconds with a fraction is in microseconds. A URL is
-- kept as it was written: the slash that the library may put at its end is one that its readers drop.
pub mod Security
use rag_anotacoes_sdd.Prelude.{
  ℕ, Bool, true, false, not, ◌&&◌, ◌||◌, List, [], ◌∷◌, any, length, leb, ltb, ◌==◌, codes, seconds,
  Result, ok, ◌>>◌, require, invalid_payload,
}
use rag_anotacoes_sdd.Text.{Text, text_eq}

pub record Settings : Type 0 where
  pub database_url : Text
  pub migration_database_url : Text
  pub session_secret : Text
  pub csrf_secret : Text
  pub cookie_secure : Bool
  pub allowed_origin : Text
  pub ollama_url : Text
  pub embedding_model : Text
  pub embedding_model_digest : Text
  pub generation_model : Text
  pub generation_model_id : Text
  pub retrieval_limit : ℕ
  pub retrieval_minimum_similarity : ℕ
  pub worker_poll_seconds : ℕ
  pub worker_lease_seconds : ℕ
  pub session_lifetime_seconds : ℕ

abbrev is_between : ℕ → ℕ → ℕ → Bool
is_between low high n = leb low n && leb n high

-- The types and `Field` constraints.
unfoldable pub fields_fit : (Text → Bool) → ℕ → Settings → Bool
fields_fit is_http_url one self =
    is_http_url self.allowed_origin
    && is_http_url self.ollama_url
    && leb 32 (length self.session_secret)
    && leb 32 (length self.csrf_secret)
    && is_between 1 10 self.retrieval_limit
    && leb self.retrieval_minimum_similarity one
    && is_between 1 (seconds 60) self.worker_poll_seconds
    && is_between 10 600 self.worker_lease_seconds
    && leb 300 self.session_lifetime_seconds

-- `s.startswith(prefix)`
unfoldable pub starts_with : Text → Text → Bool
starts_with [] s = true
starts_with (c ∷ p) [] = false
starts_with (c ∷ p) (d ∷ s) = c == d && starts_with p s

-- `part in s`
unfoldable pub contains : Text → Text → Bool
unfolding starts_with
contains part [] = starts_with part []
contains part (c ∷ s) = starts_with part (c ∷ s) || contains part s

abbrev pub placeholders : List Text
placeholders = codes "change_me" ∷ codes "changeme" ∷ codes "replace_me" ∷ []

-- The inner loop over the markers, for one value.
unfoldable pub is_placeholder : (Text → Text) → Text → Bool
is_placeholder casefold value = any (λ marker. contains marker (casefold value)) placeholders

unfoldable pub validate_security_boundaries : (Text → Text) → Settings → Result Settings
validate_security_boundaries casefold self =
    require
      (not (
        any (is_placeholder casefold)
          (self.session_secret ∷ self.csrf_secret ∷ self.embedding_model_digest ∷ [])))
      invalid_payload
    >> (require (not (text_eq self.database_url self.migration_database_url)) invalid_payload
        >> ok self)

-- `Settings(...)`: the fields are checked first.
unfoldable pub settings : (Text → Text) → (Text → Bool) → ℕ → Settings → Result Settings
settings casefold is_http_url one self =
    require (fields_fit is_http_url one self) invalid_payload
    >> validate_security_boundaries casefold self
