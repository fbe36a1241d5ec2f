-- ===== src/Prelude/Lists.antt =====
-- Lists measured and indexed by native numbers, and predicates over their items.
use Prim.Native.Nat.{ℕ, zero, suc, ◌+◌, ◌-◌, ◌≤◌, min}
use mathlib.Core.Path.{◌≡◌, refl, sym, ap, ◌∙◌}
use mathlib.Core.Bool.{Bool, true, false, ◌||◌}
use mathlib.Core.Logic.{inl, inr}
use mathlib.Core.List.{List, [], ◌∷◌, ◌++◌}
use mathlib.Core.Option.{Option, none, some}
use native.Mathlib.Omega.{arith}
use rag_anotacoes_sdd.Prelude.Tests.{if◌then◌else◌, Bool-cases}

module _ {ℓ} {A : Type ℓ} where
  abbrev pub length : List A → ℕ
  length [] = 0
  length (x ∷ xs) = suc (length xs)

  abbrev pub take : ℕ → List A → List A
  take zero xs = []
  take (suc n) [] = []
  take (suc n) (x ∷ xs) = x ∷ take n xs

  abbrev pub drop : ℕ → List A → List A
  drop zero xs = xs
  drop (suc n) [] = []
  drop (suc n) (x ∷ xs) = drop n xs

  abbrev pub null : List A → Bool
  null [] = true
  null (x ∷ xs) = false

  -- The rows that pass a Boolean test, in order.
  abbrev pub select : (A → Bool) → List A → List A
  select p [] = []
  select p (x ∷ xs) = let rest = select p xs in if p x then x ∷ rest else rest

  abbrev pub any : (A → Bool) → List A → Bool
  any p [] = false
  any p (x ∷ xs) = p x || any p xs

  abbrev pub first : List A → Option A
  first [] = none
  first (x ∷ xs) = some x

  abbrev pub concat : List (List A) → List A
  concat [] = []
  concat (xs ∷ xss) = xs ++ concat xss

  abbrev pub All {κ} : (A → Type κ) → List A → Type κ
  All P [] = Unit
  All P (x ∷ xs) = P x × All P xs

module _ {ℓ} {A : Type ℓ} where
  pub length-append : (xs ys : List A) → length (xs ++ ys) ≡ length xs + length ys
  length-append [] ys = omega arith
  length-append (x ∷ xs) ys = omega (arith, length-append xs ys)

  pub take-append-drop : (n : ℕ) (xs : List A) → take n xs ++ drop n xs ≡ xs
  take-append-drop zero xs = refl
  take-append-drop (suc n) [] = refl
  take-append-drop (suc n) (x ∷ xs) = rw (take-append-drop n xs)

  pub length-take : (n : ℕ) (xs : List A) → length (take n xs) ≡ min n (length xs)
  length-take zero xs = omega arith
  length-take (suc n) [] = omega arith
  length-take (suc n) (x ∷ xs) = omega (arith, length-take n xs)

  pub length-drop : (n : ℕ) (xs : List A) → length (drop n xs) ≡ length xs - n
  length-drop zero xs = omega arith
  length-drop (suc n) [] = omega arith
  length-drop (suc n) (x ∷ xs) = omega (arith, length-drop n xs)

  pub All-append {κ} : (P : A → Type κ) (xs ys : List A) → All P xs → All P ys → All P (xs ++ ys)
  All-append P [] ys h k = k
  All-append P (x ∷ xs) ys h k = (h.0, All-append P xs ys h.1 k)

  pub All-middle {κ} :
      (P : A → Type κ) (before : List A) (x : A) (after : List A)
      → All P (before ++ x ∷ after)
      → P x
  All-middle P [] x after h = h.0
  All-middle P (y ∷ ys) x after h = All-middle P ys x after h.1

  pub All-take {κ} : (P : A → Type κ) (n : ℕ) (xs : List A) → All P xs → All P (take n xs)
  All-take P zero xs h = tt
  All-take P (suc n) [] h = tt
  All-take P (suc n) (x ∷ xs) h = (h.0, All-take P n xs h.1)

  pub All-drop {κ} : (P : A → Type κ) (n : ℕ) (xs : List A) → All P xs → All P (drop n xs)
  All-drop P zero xs h = h
  All-drop P (suc n) [] h = tt
  All-drop P (suc n) (x ∷ xs) h = All-drop P n xs h.1

suc_add : (a k : ℕ) → suc (a + k) ≡ suc a + k
suc_add a k = omega arith

module _ {ℓ} {A : Type ℓ} where
  pub drop-nil : (n : ℕ) → ◌≡◌ {A = List A} (drop n []) []
  drop-nil zero = refl
  drop-nil (suc n) = refl

  take-nil : (n : ℕ) → ◌≡◌ {A = List A} (take n []) []
  take-nil zero = refl
  take-nil (suc n) = refl

  pub drop-drop : (a k : ℕ) (xs : List A) → drop k (drop a xs) ≡ drop (a + k) xs
  drop-drop zero k xs = ap (λ n. drop n xs) (omega arith)
  drop-drop (suc a) k [] = drop-nil k ∙ sym (drop-nil (suc a + k))
  drop-drop (suc a) k (x ∷ xs) = drop-drop a k xs ∙ ap (λ n. drop n (x ∷ xs)) (suc_add a k)

  pub take-add : (a k : ℕ) (xs : List A) → take (a + k) xs ≡ take a xs ++ take k (drop a xs)
  take-add zero k xs = ap (λ n. take n xs) (omega arith)
  take-add (suc a) k [] = ap (λ n. take n []) (sym (suc_add a k)) ∙ sym (take-nil k)
  take-add (suc a) k (x ∷ xs) =
      ap (λ n. take n (x ∷ xs)) (sym (suc_add a k)) ∙ ap (◌∷◌ x) (take-add a k xs)

  -- What a shorter prefix leaves of a longer one, and what that one leaves.
  pub drop-take-append :
      (k n : ℕ) (xs : List A) → k ≤ n → drop k (take n xs) ++ drop n xs ≡ drop k xs
  drop-take-append zero n xs h = take-append-drop n xs
  drop-take-append (suc k) zero xs h = absurd (omega arith)
  drop-take-append (suc k) (suc n) [] h = refl
  drop-take-append (suc k) (suc n) (x ∷ xs) h = drop-take-append k n xs (omega arith)

  pub drop-append : (k : ℕ) (xs ys : List A) → k ≤ length xs → drop k (xs ++ ys) ≡ drop k xs ++ ys
  drop-append zero xs ys h = refl
  drop-append (suc k) [] ys h = absurd (omega arith)
  drop-append (suc k) (x ∷ xs) ys h = drop-append k xs ys (omega arith)

  pub take-append : (k : ℕ) (xs ys : List A) → k ≤ length xs → take k (xs ++ ys) ≡ take k xs
  take-append zero xs ys h = refl
  take-append (suc k) [] ys h = absurd (omega arith)
  take-append (suc k) (x ∷ xs) ys h = ap (◌∷◌ x) (take-append k xs ys (omega arith))

  pub take-take : (k n : ℕ) (xs : List A) → k ≤ n → take k (take n xs) ≡ take k xs
  take-take zero n xs h = refl
  take-take (suc k) zero xs h = absurd (omega arith)
  take-take (suc k) (suc n) [] h = refl
  take-take (suc k) (suc n) (x ∷ xs) h = ap (◌∷◌ x) (take-take k n xs (omega arith))

module _ {ℓ} {A : Type ℓ} where
  pub select-append :
      (p : A → Bool) (xs ys : List A) → select p (xs ++ ys) ≡ select p xs ++ select p ys
  select-append p [] ys = refl
  select-append p (x ∷ xs) ys = ground (arith, select-append p xs ys)

  pub select_none : (p : A → Bool) (xs : List A) → any p xs ≡ false → select p xs ≡ []
  select_none p [] h = refl
  select_none p (x ∷ xs) h = ground (arith, select_none p xs)

  -- The first row that passes a test, where the test fails on all rows but a new last one.
  pub first-select_new :
      (p : A → Bool) (xs : List A) (x : A)
      → any p xs ≡ false
      → p x ≡ true
      → first (select p (xs ++ x ∷ [])) ≡ some x
  first-select_new p xs x h k = rw (select-append p xs (x ∷ []), select_none p xs h, k)

  -- The first row that passes a test passes it; where there is none, all rows fail it.
  pub first-select_passes :
      (p : A → Bool) (xs : List A) {x : A} → first (select p xs) ≡ some x → p x ≡ true
  first-select_passes p [] h = cc
  first-select_passes p (y ∷ ys) {x} h = elim (Bool-cases (p y)) [
    | inl e ↦ let same : y ≡ x = ground arith in ground arith
    | inr e ↦ first-select_passes p ys (ground arith)
  ]

  -- The first that passes a test is the first that passes a stronger one, if it passes that too.
  pub first-select_stronger :
      (p q : A → Bool) (xs : List A) {x : A}
      → ((y : A) → q y ≡ true → p y ≡ true)
      → first (select p xs) ≡ some x
      → q x ≡ true
      → first (select q xs) ≡ some x
  first-select_stronger p q [] weaker h passes = cc
  first-select_stronger p q (y ∷ ys) {x} weaker h passes = elim (Bool-cases (p y)) [
    | inl e ↦ let same : y ≡ x = ground arith in rw (rw (sym same) at passes) (ap some same)
    | inr e ↦ elim (Bool-cases (q y)) [
      | inl e' ↦ absurd (cc (weaker y e'))
      | inr e' ↦ rw e' (first-select_stronger p q ys weaker (rw e at h) passes)
    ]
  ]

  pub first-select_fails :
      (p : A → Bool) (xs : List A) → first (select p xs) ≡ none → All (λ x. p x ≡ false) xs
  first-select_fails p [] h = tt
  first-select_fails p (y ∷ ys) h = elim (Bool-cases (p y)) [
    | inl e ↦ cc
    | inr e ↦ (e, first-select_fails p ys (ground arith))
  ]
