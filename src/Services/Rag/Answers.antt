-- ===== src/Services/Rag/Answers.antt =====
-- What the answer to a message may be and may do, by the intent of the message.
use mathlib.Core.Path.{subst}
use rag_anotacoes_sdd.Prelude.{
  ◌≡◌, ◌⊎◌, refl, sym, inl, inr, Bool, true, false, ◌||◌, Option, none, some, List, [], ◌∷◌, map,
  null, Result, ok, arith, Bool-cases, Option-cases, if◌then◌else◌,
}
use rag_anotacoes_sdd.Text.{Text, is_space, lstrip, rstrip, strip}
use rag_anotacoes_sdd.Text.Strip.{strip-strip}
use rag_anotacoes_sdd.Domain.Notes.{Note}
use rag_anotacoes_sdd.Domain.Chat.{Source, ChatResponse, Intent, chat_response, verified_sources}
use rag_anotacoes_sdd.Domain.Chat.Sources.{CitesExactly, verified_sources-CitesExactly}
use rag_anotacoes_sdd.Services.Retrieval.{RetrievalResult}
use rag_anotacoes_sdd.Services.Intent.{IntentDecision, complete_creation}
use rag_anotacoes_sdd.Services.Notes.{then_inversion, lift, ◌>>=◌}
use rag_anotacoes_sdd.Services.Rag.{
  GroundedCompletion, Ports, insufficient_answer, grounded_response, build_prompt,
  build_general_prompt, default_budget, source_of, or_empty, ask_creation, general_reply, created,
  create_with, answer_rag, respond_to, respond,
}

insufficient-visible : null (strip insufficient_answer) ≡ false
unfolding insufficient_answer strip lstrip rstrip is_space
insufficient-visible = refl

-- A grounded answer cites exactly what the completion cites, all of it from the context; without
-- such support the answer is the fixed refusal, with no source.
abbrev pub IsGrounded : List Source → Option GroundedCompletion → ChatResponse → Type 0
IsGrounded available none r = (r.answer ≡ insufficient_answer) × (r.sources ≡ [])
IsGrounded available (some c) r =
    ((r.answer ≡ insufficient_answer) × (r.sources ≡ []))
    ⊎ ((r.answer ≡ strip c.answer)
        × (c.insufficient ≡ false)
        × CitesExactly c.citation_ids available r.sources)

grounded_response-made :
    (available : List Source) (o : Option GroundedCompletion)
    → chat_response (grounded_response available o) ≡ ok (grounded_response available o)
unfolding grounded_response chat_response
grounded_response-made available none = ground (arith, insufficient-visible)
grounded_response-made available (some c) =
    ground (arith, insufficient-visible, strip-strip c.answer)

grounded_response-note :
    (available : List Source) (o : Option GroundedCompletion)
    → (grounded_response available o).created_note ≡ none
unfolding grounded_response
grounded_response-note available none = refl
grounded_response-note available (some c) = ground arith

grounded_response-IsGrounded :
    (available : List Source) (o : Option GroundedCompletion)
    → IsGrounded available o (grounded_response available o)
unfolding grounded_response
grounded_response-IsGrounded available none = (refl, refl)
grounded_response-IsGrounded available (some c) =
    elim (Option-cases (verified_sources c.citation_ids available)) [
      | inl e ↦ inl (ground arith)
      | inr (s, e) ↦
          let cites = verified_sources-CitesExactly c.citation_ids available e in
          elim (Bool-cases (c.insufficient || (null s || null (strip c.answer)))) [
            | inl refused ↦ inl (ground arith)
            | inr answered ↦
                let same : (grounded_response available (some c)).sources ≡ s = ground arith in
                inr (
                  ground arith,
                  ground arith,
                  subst (λ x. CitesExactly c.citation_ids available x) (sym same) cites,
                )
          ]
    ]

module _ {W : Type 0} (p : Ports W) (message : Text) (d : IntentDecision) (w : W) (r : ChatResponse)
    (w' : W) where
  -- The message is answered without reading or writing anything.
  abbrev pub IsPlain : Type 0
  IsPlain = (w' ≡ w) × (r.sources ≡ []) × (r.created_note ≡ none)

  abbrev pub Creates : Bool → Option (Text → Text → W → Result Note × W) → Type 0
  Creates true (some create) =
      (n : Note) × (create (or_empty d.title) (or_empty d.content) w ≡ (ok n, w'))
      × (r.created_note ≡ some n)
      × (r.sources ≡ [])
  Creates _ _ = IsPlain × (r.needs_clarification ≡ true)

  abbrev pub Answers : List Source → Type 0
  Answers [] = (r.answer ≡ insufficient_answer) × (r.sources ≡ [])
  Answers (s ∷ ss) =
      (raw : Text) × (p.grounded (build_prompt p.show message (s ∷ ss) default_budget) ≡ ok raw)
      × IsGrounded (s ∷ ss) (p.read_completion raw) r

  -- What a reply may say and have done, by the intent of the decision.
  abbrev pub Outcome : Intent → Type 0
  Outcome Intent.clarification = IsPlain × (r.needs_clarification ≡ true)
  Outcome Intent.general_chat = IsPlain × (r.intent ≡ Intent.general_chat)
  Outcome Intent.create_note = Creates (complete_creation d) p.create
  Outcome _ =
      (results : List RetrievalResult) × (p.search message w ≡ (ok results, w'))
      × (r.created_note ≡ none)
      × Answers (map source_of results)

  replied :
      {a : ChatResponse} {v : W}
      → ◌≡◌ {A = Result ChatResponse × W} (chat_response a, v) (ok r, w')
      → (a ≡ r) × (v ≡ w')
  unfolding chat_response
  replied h = ground arith

  asked : ask_creation p w ≡ (ok r, w') → IsPlain × (r.needs_clarification ≡ true)
  asked h = let made = replied h in ground arith

  create_with-Creates :
      (c : Option (Text → Text → W → Result Note × W))
      → create_with p d c w ≡ (ok r, w')
      → Creates true c
  create_with-Creates none h = asked h
  create_with-Creates (some create) h =
      let (n, middle, e, h') =
        then_inversion (create (or_empty d.title) (or_empty d.content)) (λ n. lift (created p n)) w
          h in
      let made = replied h' in (n, cc, ground arith, ground arith)

  answer_rag-Answers :
      {v : W} (sources : List Source)
      → answer_rag p message sources v ≡ (ok r, w')
      → (w' ≡ v) × (r.created_note ≡ none) × Answers sources
  answer_rag-Answers {v} [] h = let made = replied h in ground arith
  answer_rag-Answers {v} (s ∷ ss) h =
      let (raw, middle, e, h') =
        then_inversion (lift (p.grounded (build_prompt p.show message (s ∷ ss) default_budget)))
          (λ raw. lift (chat_response (grounded_response (s ∷ ss) (p.read_completion raw)))) v h in
      let made = replied h' in
      (
        ground arith,
        ground (arith, grounded_response-note (s ∷ ss) (p.read_completion raw)),
        (
          raw,
          ground arith,
          subst (λ a. IsGrounded (s ∷ ss) (p.read_completion raw) a) made.0
              (grounded_response-IsGrounded (s ∷ ss) (p.read_completion raw)),
        ),
      )

  -- The branch of a creation, by what the decision and the service have.
  creation :
      (b : Bool)
      → (if b then create_with p d p.create else ask_creation p) w ≡ (ok r, w')
      → Creates b p.create
  creation true h = create_with-Creates p.create h
  creation false h = asked h

  from_notes :
      (p.search message >>= (λ found. answer_rag p message (map source_of found))) w ≡ (ok r, w')
      → (results : List RetrievalResult) × (p.search message w ≡ (ok results, w'))
        × (r.created_note ≡ none)
        × Answers (map source_of results)
  from_notes h =
      let (results, middle, e, h') =
        then_inversion (p.search message) (λ found. answer_rag p message (map source_of found)) w
          h in
      let (same, uncreated, rest) = answer_rag-Answers (map source_of results) h' in
      (results, ground arith, uncreated, rest)

  respond_to-Outcome : (i : Intent) → respond_to p message d i w ≡ (ok r, w') → Outcome i
  unfolding respond_to
  respond_to-Outcome Intent.clarification h = let made = replied h in ground arith
  respond_to-Outcome Intent.general_chat h =
      let (answer, middle, e, h') =
        then_inversion (lift (p.general (build_general_prompt message)))
          (λ answer. lift (chat_response (general_reply answer))) w h in
      let made = replied h' in ground arith
  respond_to-Outcome Intent.create_note h = creation (complete_creation d) h
  respond_to-Outcome Intent.rag h = from_notes h
  respond_to-Outcome (Intent.other s) h = from_notes h

-- A reply rests on the decision on the message, and has the outcome of the decided intent. A
-- question back and general chat change nothing and show no source; a creation is one call of the
-- notes, and the reply shows the note it returned, or it is a question back; every other
-- message is one retrieval, and the reply is the fixed refusal without sources, or the answer of
-- a completion that does not say it is insufficient, and cites retrieved notes as the completion does.
pub respond-Outcome :
    {W : Type 0} (p : Ports W) (message : Text) (w : W) {r : ChatResponse} {w' : W}
    → ◌≡◌ {A = Result ChatResponse × W} (respond p message w) (ok r, w')
    → (d : IntentDecision) × (p.decide message ≡ ok d) × Outcome p message d w r w' d.intent
unfolding respond
respond-Outcome {W = W} p message w {r} {w'} h =
    let (d, middle, e, h') =
      then_inversion (lift (p.decide message)) (λ d. respond_to p message d d.intent) w h in
    let same : middle ≡ w = ground arith in
    let there =
      subst (λ v. ◌≡◌ {A = Result ChatResponse × W} (respond_to p message d d.intent v) (ok r, w'))
        same h' in
    (d, ground arith, respond_to-Outcome p message d w r w' d.intent there)
