-- ===== src/Llm/Identity.antt =====
-- Which models `verify_model` lets pass.
use mathlib.Core.Path.{subst}
use rag_anotacoes_sdd.Prelude.{
  ◌≡◌, ◌≢◌, ◌↔◌, ◌⊎◌, inl, inr, refl, [], ◌∷◌, Option, none, some, ◌++◌, codes, ok, arith,
  bind_inversion, require, model_identity_error, ◌∙◌,
}
use rag_anotacoes_sdd.Text.{Text}
use rag_anotacoes_sdd.Config.{contains}
use rag_anotacoes_sdd.Config.Security.{contains-split, contains-append}
use rag_anotacoes_sdd.Llm.{
  Answer, http_error, not_json, json, OllamaClient, identity_of, shown_model, post, model_identity,
  verify_model, shown, answered,
}

-- Which identity a shown model has: its parent model's name, if that is there and not empty; else
-- its digest, if that is there; else none, which is the empty text.
pub data Names (parent_model digest : Option Text) (identity : Text) : Type 0 where
  by_parent : parent_model ≡ some identity → identity ≢ [] → Names parent_model digest identity
  by_digest :
      (parent_model ≡ none) ⊎ (parent_model ≡ some [])
      → digest ≡ some identity
      → Names parent_model digest identity
  by_nothing :
      (parent_model ≡ none) ⊎ (parent_model ≡ some [])
      → digest ≡ none
      → identity ≡ []
      → Names parent_model digest identity

identity_of-Names : (p d : Option Text) → Names p d (identity_of p d)
identity_of-Names none none = by_nothing (inl refl) refl refl
identity_of-Names none (some d) = by_digest (inl refl) refl
identity_of-Names (some []) none = by_nothing (inr refl) refl refl
identity_of-Names (some []) (some d) = by_digest (inr refl) refl
identity_of-Names (some (c ∷ s)) d = by_parent refl (λ e. cc)

Names-identity_of : (p d : Option Text) (t : Text) → Names p d t → identity_of p d ≡ t
Names-identity_of p d t (by_parent e n) = named t e n
  where
    named : (s : Text) → p ≡ some s → s ≢ [] → identity_of p d ≡ s
    named [] e' n' = absurd (n' refl)
    named (c ∷ s) e' n' = rw e' refl
Names-identity_of p d t (by_digest (inl e) e') = rw (e, e') refl
Names-identity_of p d t (by_digest (inr e) e') = rw (e, e') refl
Names-identity_of p d t (by_nothing (inl e) e' e'') = rw (e, e', e'') refl
Names-identity_of p d t (by_nothing (inr e) e' e'') = rw (e, e', e'') refl

module _ {J : Type 0} (self : OllamaClient J) where
  -- The server shows the model with an identity that has the expected one in it.
  pub record IsIdentified (model expected : Text) : Type 0 where
    pub answer : J
    pub parent_model : Option Text
    pub digest : Option Text
    pub posted : self.transport (codes "/api/show") (shown_model model) ≡ json answer
    pub read : self.read_show answer ≡ some (parent_model, digest)
    pub before : Text
    pub after : Text
    pub identity : Names parent_model digest (before ++ (expected ++ after))

  answered_inversion : (a : Answer J) {j : J} → answered a ≡ ok j → a ≡ json j
  answered_inversion http_error h = cc
  answered_inversion not_json h = cc
  answered_inversion (json i) h = ground (arith, h)

  shown_inversion :
      (o : Option (Option Text × Option Text)) {t : Text}
      → shown o ≡ ok t
      → (parent_model : Option Text) × (digest : Option Text) × (o ≡ some (parent_model, digest))
        × (identity_of parent_model digest ≡ t)
  shown_inversion none h = cc
  shown_inversion (some (parent_model, digest)) h = (parent_model, digest, refl, ground (arith, h))

  model_identity_inversion :
      (model : Text) {t : Text}
      → model_identity self model ≡ ok t
      → (j : J) × (self.transport (codes "/api/show") (shown_model model) ≡ json j)
        × (shown (self.read_show j) ≡ ok t)
  unfolding model_identity post
  model_identity_inversion model h =
      let (j, e, e') =
        bind_inversion (answered (self.transport (codes "/api/show") (shown_model model)))
          (λ j. shown (self.read_show j)) h in
      (j, answered_inversion (self.transport (codes "/api/show") (shown_model model)) e, e')

  -- `verify_model` returns exactly where the server shows the model with an identity that has the
  -- expected one in it: the parent model's name if that is there and not empty, and only else the
  -- digest. In every other case it raises.
  pub verify_model-ok_iff :
      (model expected : Text)
      → (verify_model self model expected ≡ ok tt) ↔ IsIdentified model expected
  unfolding verify_model model_identity post
  verify_model-ok_iff model expected = (
    λ h.
        let (t, e, e') =
          bind_inversion (model_identity self model)
            (λ observed. require (contains expected observed) model_identity_error) h in
        let (j, posted, e'') = model_identity_inversion model e in
        let (parent_model, digest, read, same) = shown_inversion (self.read_show j) e'' in
        let (before, after, split) = contains-split expected t (ground (arith, e')) in
        record {
          answer = j;
          parent_model = parent_model;
          digest = digest;
          posted = posted;
          read = read;
          before = before;
          after = after;
          identity =
              subst (λ t. Names parent_model digest t) (same ∙ split)
                (identity_of-Names parent_model digest);
        },
    λ v.
        let there = contains-append expected v.before v.after in
        let named =
          Names-identity_of v.parent_model v.digest (v.before ++ (expected ++ v.after))
            v.identity in
        rw (v.posted, v.read, named, there) refl,
  )
