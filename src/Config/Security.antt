-- ===== src/Config/Security.antt =====
-- Which settings the application starts with.
use rag_anotacoes_sdd.Prelude.{
  ℕ, ◌≤◌, ◌<◌, ◌≡◌, ◌≢◌, ◌↔◌, refl, ap, inl, inr, true, false, List, [], ◌∷◌, ◌++◌, All, any,
  length, seconds, arith, ok, Bool, Bool-cases, codes,
}
use rag_anotacoes_sdd.Text.{Text, text_eq_refl, text_eq_sound}
use rag_anotacoes_sdd.Config.{
  Settings, fields_fit, starts_with, contains, is_placeholder, placeholders,
  validate_security_boundaries, settings,
}

starts_with_lem : (p s : Text) → starts_with p s ≡ true → (rest : Text) × (s ≡ p ++ rest)
unfolding starts_with
starts_with_lem [] s h = (s, refl)
starts_with_lem (c ∷ p) [] h = absurd (cc)
starts_with_lem (c ∷ p) (d ∷ s) h =
    let (rest, e) = starts_with_lem p s (ground arith) in (rest, ground arith)

starts_with-append : (p s : Text) → starts_with p (p ++ s) ≡ true
unfolding starts_with
starts_with-append [] s = refl
starts_with-append (c ∷ p) s = ground (arith, starts_with-append p s)

pub contains-split :
    (part s : Text)
    → contains part s ≡ true
    → (before : Text) × (after : Text) × (s ≡ before ++ (part ++ after))
unfolding contains
contains-split part [] h = let (rest, e) = starts_with_lem part [] h in ([], rest, e)
contains-split part (c ∷ s) h = elim (Bool-cases (starts_with part (c ∷ s))) [
  | inl here ↦ let (rest, e) = starts_with_lem part (c ∷ s) here in ([], rest, e)
  | inr later ↦
      let (before, after, e) = contains-split part s (ground arith) in
      (c ∷ before, after, ap (λ t. c ∷ t) e)
]

contains_here : (part s : Text) → starts_with part s ≡ true → contains part s ≡ true
unfolding contains
contains_here part [] h = h
contains_here part (c ∷ s) h = ground arith

pub contains-append : (part before after : Text) → contains part (before ++ (part ++ after)) ≡ true
unfolding contains
contains-append part [] after = contains_here part (part ++ after) (starts_with-append part after)
contains-append part (c ∷ before) after = ground (arith, contains-append part before after)

-- No part of `value`, case-folded, is one of the markers.
abbrev pub IsSecret : (Text → Text) → Text → Type 0
IsSecret casefold value =
    All (λ marker. (before after : Text) → casefold value ≢ before ++ (marker ++ after))
      (codes "change_me" ∷ codes "changeme" ∷ codes "replace_me" ∷ [])

-- The bounds of the fields and the two rules that keep the deployment secure.
pub record IsSecure (casefold : Text → Text) (is_http_url : Text → Bool) (one : ℕ) (s : Settings)
    : Type 0 where
  pub urls : (is_http_url s.allowed_origin ≡ true) × (is_http_url s.ollama_url ≡ true)
  pub session_secret : (32 ≤ length s.session_secret) × IsSecret casefold s.session_secret
  pub csrf_secret : (32 ≤ length s.csrf_secret) × IsSecret casefold s.csrf_secret
  pub digest : IsSecret casefold s.embedding_model_digest
  pub roles_apart : s.database_url ≢ s.migration_database_url
  pub limit : (1 ≤ s.retrieval_limit) × (s.retrieval_limit ≤ 10)
  pub similarity : s.retrieval_minimum_similarity ≤ one
  pub poll : (0 < s.worker_poll_seconds) × (s.worker_poll_seconds ≤ seconds 60)
  pub lease : (10 ≤ s.worker_lease_seconds) × (s.worker_lease_seconds ≤ 600)
  pub lifetime : 300 ≤ s.session_lifetime_seconds

any-false :
    (casefold : Text → Text) (value : Text) (markers : List Text)
    → any (λ marker. contains marker (casefold value)) markers ≡ false
    → All (λ marker. (before after : Text) → casefold value ≢ before ++ (marker ++ after)) markers
any-false casefold value [] h = tt
any-false casefold value (m ∷ ms) h = (
  λ before after e. ground (arith, contains-append m before after, e),
  any-false casefold value ms (ground arith),
)

false-any :
    (casefold : Text → Text) (value : Text) (markers : List Text)
    → All (λ marker. (before after : Text) → casefold value ≢ before ++ (marker ++ after)) markers
    → any (λ marker. contains marker (casefold value)) markers ≡ false
false-any casefold value [] v = refl
false-any casefold value (m ∷ ms) v = elim (Bool-cases (contains m (casefold value))) [
  | inl e ↦
      let (before, after, same) = contains-split m (casefold value) e in
      absurd (v.0 before after same)
  | inr e ↦ ground (arith, false-any casefold value ms v.1)
]

is_placeholder-IsSecret :
    (casefold : Text → Text) (value : Text)
    → (is_placeholder casefold value ≡ false) ↔ IsSecret casefold value
unfolding is_placeholder
is_placeholder-IsSecret casefold value =
    (any-false casefold value placeholders, false-any casefold value placeholders)

-- The settings are accepted, as they were given, exactly when the origin and the model server are
-- URLs for the library, every number is in its range, the two secrets are long enough, neither they
-- nor the embedding model's digest, case-folded, has one of the three markers in it, and the
-- runtime and the migrations use different database URLs.
pub settings-ok_iff :
    (casefold : Text → Text) (is_http_url : Text → Bool) (one : ℕ) (s : Settings)
    → (settings casefold is_http_url one s ≡ ok s) ↔ IsSecure casefold is_http_url one s
unfolding settings fields_fit validate_security_boundaries
settings-ok_iff casefold is_http_url one s = (
  λ h. record {
    urls = ground arith;
    session_secret =
        (ground arith, (is_placeholder-IsSecret casefold s.session_secret).0 (ground arith));
    csrf_secret = (ground arith, (is_placeholder-IsSecret casefold s.csrf_secret).0 (ground arith));
    digest = (is_placeholder-IsSecret casefold s.embedding_model_digest).0 (ground arith);
    roles_apart = λ e. ground (arith, text_eq_refl s.database_url, e);
    limit = ground arith;
    similarity = ground arith;
    poll = ground arith;
    lease = ground arith;
    lifetime = ground arith;
  },
  λ v.
      let a = (is_placeholder-IsSecret casefold s.session_secret).1 v.session_secret.1 in
      let b = (is_placeholder-IsSecret casefold s.csrf_secret).1 v.csrf_secret.1 in
      let c = (is_placeholder-IsSecret casefold s.embedding_model_digest).1 v.digest in
      let d = text_eq_sound s.database_url s.migration_database_url in
      ground (arith, a, b, c, v.roles_apart, d),
)
