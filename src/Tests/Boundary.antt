-- ===== src/Tests/Boundary.antt =====
-- Runs and instances for the settings, the model client and the cursors.
use rag_anotacoes_sdd.Prelude.{
  ℕ, ◌≡◌, refl, ap, ◌↔◌, Bool, false, Option, none, some, [], ◌∷◌, ◌++◌, length, take, drop, codes,
  ok,
}
use rag_anotacoes_sdd.Text.{Text, text_eq}
use rag_anotacoes_sdd.Config.{
  Settings, settings, starts_with, contains, is_placeholder, fields_fit,
  validate_security_boundaries,
}
use rag_anotacoes_sdd.Config.Security.{IsSecure, settings-ok_iff}
use rag_anotacoes_sdd.Llm.{
  Payload, shown_model, Answer, http_error, json, OllamaClient, verify_model, model_identity, post,
}
use rag_anotacoes_sdd.Llm.Identity.{IsIdentified, verify_model-ok_iff}
use rag_anotacoes_sdd.Api.Cursors.{Json, string, Formats}
use rag_anotacoes_sdd.Api.Cursors.RoundTrip.{AreInverse}

abbrev pub configuration : Settings
configuration = record {
  database_url = codes "postgresql://app";
  migration_database_url = codes "postgresql://owner";
  session_secret = codes "0123456789abcdef0123456789abcdef";
  csrf_secret = codes "fedcba9876543210fedcba9876543210";
  cookie_secure = false;
  allowed_origin = codes "https://notes.example";
  ollama_url = codes "http://ollama";
  embedding_model = codes "embed";
  embedding_model_digest = codes "sha256:1";
  generation_model = codes "generate";
  generation_model_id = codes "base";
  retrieval_limit = 5;
  retrieval_minimum_similarity = 40;
  worker_poll_seconds = 2000000;
  worker_lease_seconds = 60;
  session_lifetime_seconds = 3600;
}

-- A stand-in for the library's test of a URL.
abbrev is_https : Text → Bool
is_https t = starts_with (codes "http") t

accepted : settings (λ t. t) is_https 100 configuration ≡ ok configuration
unfolding settings fields_fit validate_security_boundaries is_placeholder contains starts_with
    text_eq
accepted = refl

settings-ok_iff_example :
    (settings (λ t. t) is_https 100 configuration ≡ ok configuration)
    ↔ IsSecure (λ t. t) is_https 100 configuration
settings-ok_iff_example = settings-ok_iff (λ t. t) is_https 100 configuration

-- A server that shows one model.
abbrev transport : Text → Payload ℕ → Answer ℕ
transport path (shown_model model) = json 1
transport path _ = http_error

abbrev pub client : OllamaClient ℕ
client = record {
  embedding_model = codes "embed";
  generation_model = codes "generate";
  transport = transport;
  read_embeddings = λ j. none;
  read_response = λ j. none;
  read_show = λ j. some (none, some (codes "sha256:base-1"));
}

identified : verify_model client (codes "generate") (codes "base") ≡ ok tt
unfolding verify_model model_identity post contains starts_with
identified = refl

verify_model-ok_iff_example :
    (verify_model client (codes "generate") (codes "base") ≡ ok tt)
    ↔ IsIdentified client (codes "generate") (codes "base")
verify_model-ok_iff_example = verify_model-ok_iff client (codes "generate") (codes "base")

-- Numbers for dates and identifiers, and a list as its first text with its length before it.
abbrev number_of : Text → Option ℕ
number_of [] = none
number_of (n ∷ _) = some n

abbrev written : Json → Json → Text
written (string a) (string b) = length a ∷ a ++ b
written _ _ = []

abbrev lists_of : Text → Option (Json × Json)
lists_of [] = none
lists_of (n ∷ s) = some (string (take n s), string (drop n s))

abbrev pub formats : Formats
formats = record {
  isoformat = λ t. t ∷ [];
  fromisoformat = number_of;
  show = λ id. id ∷ [];
  read_uuid = number_of;
  write = written;
  read = lists_of;
}

taken : (a b : Text) → take (length a) (a ++ b) ≡ a
taken [] b = refl
taken (x ∷ a) b = ap (λ s. x ∷ s) (taken a b)

dropped : (a b : Text) → drop (length a) (a ++ b) ≡ b
dropped [] b = refl
dropped (x ∷ a) b = dropped a b

pub formats-AreInverse : AreInverse formats
formats-AreInverse = record {
  dates = λ t. refl;
  ids = λ id. refl;
  some_text = λ a b. refl;
  lists = λ a b. rw (taken a b, dropped a b) refl;
}
