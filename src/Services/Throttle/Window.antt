-- ===== src/Services/Throttle/Window.antt =====
-- The window against the whole history of a client: an attempt is let through exactly when fewer
-- than the maximum were let through in the window before it.
use rag_anotacoes_sdd.Prelude.{
  ℕ, ◌-◌, ◌≤◌, ◌≡◌, refl, sym, ap, ◌∙◌, Bool, true, false, List, [], ◌∷◌, ◌++◌, length, leb, ltb,
  if◌then◌else◌, Instant, Result, ok, err, select, arith, Bool-cases, inl, inr, All,
}
use rag_anotacoes_sdd.Services.Throttle.{drop_stale, record_attempt}

-- The attempts of a history that lie in the window before `now`.
abbrev pub recent : ℕ → Instant → List Instant → List Instant
recent window now = select (λ t. leb (now - t) window)

-- The decision that the history calls for: to let through while fewer than the maximum of the
-- attempts let through before lie in the window.
abbrev pub admits : ℕ → ℕ → Instant → List Instant → Bool
admits maximum window now history = ltb (length (recent window now history)) maximum

abbrev is_ok : Result (Unit {0}) → Bool
is_ok (ok _) = true
is_ok (err _) = false

-- Which of a client's attempts the throttle lets through, from the window that it keeps.
unfoldable pub throttled : ℕ → ℕ → List Instant → List Instant → List Bool
throttled maximum window kept [] = []
throttled maximum window kept (now ∷ times) =
    let (r, kept') = record_attempt maximum window now kept in
    is_ok r ∷ throttled maximum window kept' times

-- The same, from all the attempts that were let through before.
unfoldable pub judged : ℕ → ℕ → List Instant → List Instant → List Bool
judged maximum window history [] = []
judged maximum window history (now ∷ times) =
    let a = admits maximum window now history in
    a ∷ judged maximum window (if a then history ++ now ∷ [] else history) times

-- The times do not fall.
abbrev pub IsRising : Instant → List Instant → Type 0
IsRising last [] = Unit
IsRising last (t ∷ ts) = (last ≤ t) × IsRising t ts

drop_stale_again :
    (window now later : ℕ) (ts : List Instant)
    → now ≤ later
    → drop_stale window later (drop_stale window now ts) ≡ drop_stale window later ts
unfolding drop_stale
drop_stale_again window now later [] h = refl
drop_stale_again window now later (t ∷ ts) h =
    ground (arith, drop_stale_again window now later ts h)

drop_stale-append :
    (window now later : ℕ) (ts : List Instant)
    → now ≤ later
    → All (λ t. t ≤ now) ts
    → drop_stale window later (ts ++ now ∷ [])
      ≡ drop_stale window later ts ++ recent window later (now ∷ [])
unfolding drop_stale
drop_stale-append window now later [] h v = ground arith
drop_stale-append window now later (t ∷ ts) h v =
    ground (arith, drop_stale-append window now later ts h v.1)

recent-append :
    (window later : ℕ) (ts us : List Instant)
    → recent window later (ts ++ us) ≡ recent window later ts ++ recent window later us
recent-append window later [] us = refl
recent-append window later (t ∷ ts) us = ground (arith, recent-append window later ts us)

drop_stale-All :
    (window now : ℕ) (ts : List Instant)
    → All (λ t. t ≤ now) ts
    → All (λ t. t ≤ now) (drop_stale window now ts)
unfolding drop_stale
drop_stale-All window now [] v = tt
drop_stale-All window now (t ∷ ts) v = elim (Bool-cases (ltb window (now - t))) [
  | inl e ↦ rw (e, drop_stale) (drop_stale-All window now ts v.1)
  | inr e ↦ rw (e, drop_stale) v
]

All-rise :
    (last now : Instant) (ts : List Instant)
    → last ≤ now
    → All (λ t. t ≤ last) ts
    → All (λ t. t ≤ now) ts
All-rise last now [] h v = tt
All-rise last now (t ∷ ts) h v = (omega arith, All-rise last now ts h v.1)

All-snoc :
    (now : Instant) (ts : List Instant)
    → All (λ t. t ≤ now) ts
    → All (λ t. t ≤ now) (ts ++ now ∷ [])
All-snoc now [] v = (omega arith, tt)
All-snoc now (t ∷ ts) v = (v.0, All-snoc now ts v.1)

-- What the window keeps is, from now on, what the history has in the window.
record Tracks (window : ℕ) (last : Instant) (kept history : List Instant) : Type 0 where
  same : (now : Instant) → last ≤ now → drop_stale window now kept ≡ recent window now history
  past : All (λ t. t ≤ last) kept

throttled-judged_from :
    (maximum window : ℕ) (last : Instant) (kept history times : List Instant)
    → IsRising last times
    → Tracks window last kept history
    → throttled maximum window kept times ≡ judged maximum window history times
unfolding throttled judged record_attempt
throttled-judged_from maximum window last kept history [] h v = refl
throttled-judged_from maximum window last kept history (now ∷ times) (h, rising) v =
    let fresh = drop_stale window now kept in
    let past = drop_stale-All window now kept (All-rise last now kept h v.past) in
    let same = λ (later : Instant) (p : now ≤ later).
      drop_stale_again window now later kept p ∙ v.same later (omega arith) in
    let agree = ap length (v.same now h) in
    ground (
      arith,
      agree,
      throttled-judged_from maximum window now fresh history times rising
          (record { same = same; past = past }),
      throttled-judged_from maximum window now (fresh ++ now ∷ []) (history ++ now ∷ []) times
          rising
          (record {
            same = λ later p.
                drop_stale-append window now later fresh p past
                ∙ ap (λ ts. ts ++ recent window later (now ∷ [])) (same later p)
                ∙ sym (recent-append window later history (now ∷ []));
            past = All-snoc now fresh past;
          }),
    )

-- While the clock does not go back, the throttle lets an attempt through exactly when fewer than
-- the maximum of the attempts let through before it lie in the window that ends with it.
pub throttled-judged :
    (maximum window : ℕ) (times : List Instant)
    → IsRising 0 times
    → throttled maximum window [] times ≡ judged maximum window [] times
throttled-judged maximum window times h =
    throttled-judged_from maximum window 0 [] [] times h
      (record { same = λ now p. unfold drop_stale in refl; past = tt })
