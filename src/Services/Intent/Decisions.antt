-- ===== src/Services/Intent/Decisions.antt =====
-- Which decisions a classification can end in, and when it fails.
use rag_anotacoes_sdd.Prelude.{
  ℕ, ◌≤◌, ◌≡◌, ◌≢◌, ◌⊎◌, ◌↔◌, ◌∙◌, refl, Bool, true, false, Option, none, some, length, take,
  Result, ok, err, Error, classification_error, arith, Bool-cases, bind_failure, bind_inversion,
  inl, inr,
}
use rag_anotacoes_sdd.Text.{Text}
use rag_anotacoes_sdd.Domain.Chat.{Intent}
use rag_anotacoes_sdd.Services.Intent.{
  IntentDecision, Prompt, classify_prompt, repair_prompt, is_valid, complete_creation, is_settled,
  parse, repair, classify, conclude, settle,
}

abbrev pub IsText : ℕ → Option Text → Type 0
IsText maximum none = ⊥
IsText maximum (some t) = (1 ≤ length t) × (length t ≤ maximum)

-- What a decision may say, by its intent. A creation asks back, or has both texts in range; a
-- clarification asks back, an answer does not, and neither has a text.
abbrev pub IsDecision : Intent → Option Text → Option Text → Bool → Type 0
IsDecision Intent.rag title content asks = (title ≡ none) × (content ≡ none) × (asks ≡ false)
IsDecision Intent.general_chat title content asks =
    (title ≡ none) × (content ≡ none) × (asks ≡ false)
IsDecision Intent.clarification title content asks =
    (title ≡ none) × (content ≡ none) × (asks ≡ true)
IsDecision Intent.create_note title content true = Unit
IsDecision Intent.create_note title content false = IsText 200 title × IsText 100000 content
IsDecision (Intent.other s) title content asks = ⊥

-- `ground` reads the cases of an intent, one at a time.
valid-IsDecision :
    (i : Intent) (title content : Option Text) (asks : Bool)
    → is_valid (record { intent = i; title = title; content = content; needs_clarification = asks })
      ≡ true
    → IsDecision i title content asks
unfolding is_valid
valid-IsDecision Intent.rag title content asks h = ground arith
valid-IsDecision Intent.general_chat title content asks h = ground arith
valid-IsDecision Intent.clarification title content asks h = ground arith
valid-IsDecision Intent.create_note title content true h = tt
valid-IsDecision Intent.create_note none content false h = ground arith
valid-IsDecision Intent.create_note (some t) none false h = ground arith
valid-IsDecision Intent.create_note (some t) (some c) false h = ground arith
valid-IsDecision (Intent.other s) title content asks h = ground arith

abbrev Says : IntentDecision → Type 0
Says d = IsDecision d.intent d.title d.content d.needs_clarification

-- A decision that is no creation is settled; a creation that is not becomes a question.
conclude-at :
    (i : Intent) (title content : Option Text) (asks : Bool) {d : IntentDecision}
    → IsDecision i title content asks
    → conclude
        (some (record { intent = i; title = title; content = content; needs_clarification = asks }))
      ≡ ok d
    → Says d
unfolding conclude is_settled complete_creation
conclude-at Intent.rag title content asks v h = ground arith
conclude-at Intent.general_chat title content asks v h = ground arith
conclude-at Intent.clarification title content asks v h = ground arith
conclude-at Intent.create_note title content true v h = ground arith
conclude-at Intent.create_note none content false v h = absurd v.0
conclude-at Intent.create_note (some t) none false v h = absurd v.1
conclude-at Intent.create_note (some t) (some c) false v h = ground arith
conclude-at (Intent.other s) title content asks v h = absurd v

conclude-IsDecision :
    (o : Option IntentDecision) {d : IntentDecision}
    → ((e : IntentDecision) → o ≡ some e → Says e)
    → conclude o ≡ ok d
    → Says d
unfolding conclude
conclude-IsDecision none v h = absurd (cc)
conclude-IsDecision (some e) v h =
    conclude-at e.intent e.title e.content e.needs_clarification (v e refl) h

-- A valid decision that is not settled is a creation that asks back.
asks_back :
    (i : Intent) (title content : Option Text) (asks : Bool)
    → IsDecision i title content asks
    → is_settled
        (record { intent = i; title = title; content = content; needs_clarification = asks })
      ≡ false
    → (i ≡ Intent.create_note) × (asks ≡ true)
unfolding is_settled complete_creation
asks_back Intent.rag title content asks v h = absurd (cc)
asks_back Intent.general_chat title content asks v h = absurd (cc)
asks_back Intent.clarification title content asks v h = absurd (cc)
asks_back Intent.create_note title content true v h = (refl, refl)
asks_back Intent.create_note none content false v h = absurd v.0
asks_back Intent.create_note (some t) none false v h = absurd v.1
asks_back Intent.create_note (some t) (some c) false v h = absurd (cc)
asks_back (Intent.other s) title content asks v h = absurd v

conclude-total :
    (i : Intent) (title content : Option Text) (asks : Bool) {e : Error}
    → IsDecision i title content asks
    → conclude
        (some (record { intent = i; title = title; content = content; needs_clarification = asks }))
      ≢ err e
unfolding conclude is_settled complete_creation
conclude-total Intent.rag title content asks v h = ground arith
conclude-total Intent.general_chat title content asks v h = ground arith
conclude-total Intent.clarification title content asks v h = ground arith
conclude-total Intent.create_note title content true v h = ground arith
conclude-total Intent.create_note none content false v h = absurd v.0
conclude-total Intent.create_note (some t) none false v h = absurd v.1
conclude-total Intent.create_note (some t) (some c) false v h = ground arith
conclude-total (Intent.other s) title content asks v h = absurd v

conclude-err :
    (o : Option IntentDecision) {e : Error}
    → ((d : IntentDecision) → o ≡ some d → Says d)
    → conclude o ≡ err e
    → (o ≡ none) × (e ≡ classification_error)
unfolding conclude
conclude-err none v h = (refl, cc)
conclude-err (some d) v h =
    absurd (conclude-total d.intent d.title d.content d.needs_clarification (v d refl) h)

module _ (complete : Prompt → Result Text) (read : Text → Option IntentDecision) where
  parse-IsDecision : (raw : Text) (d : IntentDecision) → parse complete read raw ≡ some d → Says d
  unfolding parse
  parse-IsDecision raw d h =
      valid-IsDecision d.intent d.title d.content d.needs_clarification (ground arith)

  repair-IsDecision :
      (message raw : Text) {d : IntentDecision} → repair complete read message raw ≡ ok d → Says d
  unfolding repair
  repair-IsDecision message raw h =
      let (repaired, _, concluded) =
        bind_inversion (complete (repair_prompt message (take 4000 raw)))
          (λ r. conclude (parse complete read r)) h in
      conclude-IsDecision (parse complete read repaired) (parse-IsDecision repaired) concluded

  settle-IsDecision :
      (message raw : Text) (o : Option IntentDecision) {d : IntentDecision}
      → ((e : IntentDecision) → o ≡ some e → Says e)
      → settle complete read message raw o ≡ ok d
      → Says d
  unfolding settle
  settle-IsDecision message raw none v h = repair-IsDecision message raw h
  settle-IsDecision message raw (some e) {d} v h = elim (Bool-cases (is_settled e)) [
    | inl settled ↦ let q : d ≡ e = ground arith in rw q (v e refl)
    | inr open_case ↦ repair-IsDecision message raw (rw open_case at h)
  ]

  -- A classification that succeeds has one of the four intents, and what the decision says goes
  -- with it, whatever the model answered.
  pub classify-IsDecision :
      (message : Text) {d : IntentDecision}
      → classify complete read message ≡ ok d
      → IsDecision d.intent d.title d.content d.needs_clarification
  unfolding classify
  classify-IsDecision message h =
      let (raw, _, settled) =
        bind_inversion (complete (classify_prompt message))
          (λ r. settle complete read message r (parse complete read r)) h in
      settle-IsDecision message raw (parse complete read raw) (parse-IsDecision raw) settled

  -- A repair fails if the model raises, or if its second answer is no valid decision either.
  abbrev pub RepairFails : Text → Text → Error → Type 0
  RepairFails message raw e =
      (complete (repair_prompt message (take 4000 raw)) ≡ err e)
      ⊎ ((repaired : Text) × (complete (repair_prompt message (take 4000 raw)) ≡ ok repaired)
          × (parse complete read repaired ≡ none)
          × (e ≡ classification_error))

  -- The first answer leaves the message open: it is no valid decision, or a creation that asks back.
  abbrev pub IsOpen : Text → Type 0
  IsOpen raw =
      (parse complete read raw ≡ none)
      ⊎ ((d : IntentDecision) × (parse complete read raw ≡ some d)
          × (d.intent ≡ Intent.create_note)
          × (d.needs_clarification ≡ true))

  repair-RepairFails :
      (message raw : Text) {e : Error}
      → repair complete read message raw ≡ err e
      → RepairFails message raw e
  unfolding repair
  repair-RepairFails message raw h =
      elim (bind_failure (complete (repair_prompt message (take 4000 raw)))
        (λ r. conclude (parse complete read r)) h) [
          | inl raised ↦ inl raised
          | inr (repaired, answered, failed) ↦
              let (blank, same) =
                conclude-err (parse complete read repaired) (parse-IsDecision repaired) failed in
              inr (repaired, answered, blank, same)
        ]

  settle_open :
      (message raw : Text)
      → IsOpen raw
      → settle complete read message raw (parse complete read raw)
        ≡ repair complete read message raw
  unfolding settle is_settled complete_creation
  settle_open message raw (inl blank) = rw blank refl
  settle_open message raw (inr (d, e, creates, asks)) = rw (e, creates, asks) refl

  settle-RepairFails :
      (message raw : Text) (o : Option IntentDecision) {e : Error}
      → parse complete read raw ≡ o
      → settle complete read message raw o ≡ err e
      → IsOpen raw × RepairFails message raw e
  unfolding settle
  settle-RepairFails message raw none at h = (inl at, repair-RepairFails message raw h)
  settle-RepairFails message raw (some d) at h = elim (Bool-cases (is_settled d)) [
    | inl settled ↦ absurd (cc (rw settled at h))
    | inr unsettled ↦
        let (creates, asks) =
          asks_back d.intent d.title d.content d.needs_clarification (parse-IsDecision raw d at)
            unsettled in
        (inr (d, at, creates, asks), repair-RepairFails message raw (rw unsettled at h))
  ]

  repair_failed :
      (message raw : Text) {e : Error}
      → RepairFails message raw e
      → repair complete read message raw ≡ err e
  unfolding repair conclude
  repair_failed message raw (inl raised) = rw raised refl
  repair_failed message raw (inr (repaired, answered, blank, same)) =
      rw (answered, blank, same) refl

  -- A classification fails exactly in two ways. The first call raises; or it answers with no valid
  -- decision or a creation that asks back, and then the second call raises, or answers with no
  -- valid decision, which is a `ClassificationError` whatever another call would answer.
  pub classify_fails :
      (message : Text) (e : Error)
      → (classify complete read message ≡ err e) ↔ (
          (complete (classify_prompt message) ≡ err e)
          ⊎ ((raw : Text) × (complete (classify_prompt message) ≡ ok raw)
              × IsOpen raw
              × RepairFails message raw e))
  unfolding classify
  classify_fails message e = (
    λ h.
        elim (bind_failure (complete (classify_prompt message))
          (λ r. settle complete read message r (parse complete read r)) h) [
            | inl raised ↦ inl raised
            | inr (raw, answered, failed) ↦
                let (still_open, fails) =
                  settle-RepairFails message raw (parse complete read raw) refl failed in
                inr (raw, answered, still_open, fails)
          ],
    λ v. elim v [
      | inl raised ↦ rw raised refl
      | inr (raw, answered, still_open, fails) ↦
          rw answered (settle_open message raw still_open ∙ repair_failed message raw fails)
    ],
  )
