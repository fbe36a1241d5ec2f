-- ===== src/Text/Strip.antt =====
-- `strip` forgets only white space at the ends: it is idempotent, and keeps every word.
use rag_anotacoes_sdd.Prelude.{
  ℕ, ◌≤◌, ◌≡◌, refl, ◌∙◌, false, [], ◌∷◌, ◌++◌, arith, Bool-cases, ◌⊎◌, inl, inr, length,
}
use rag_anotacoes_sdd.Text.{Text, is_space, lstrip, rstrip, strip, split_from, split}

pub split_from-lstrip : (s : Text) → split (lstrip s) ≡ split s
unfolding lstrip split_from
split_from-lstrip [] = refl
split_from-lstrip (c ∷ s) = elim (Bool-cases (is_space c)) [
  | inl e ↦ rw (e, lstrip, split_from) (split_from-lstrip s)
  | inr e ↦ rw (e, lstrip)
]

pub split_from-rstrip : (w s : Text) → split_from w (rstrip s) ≡ split_from w s
unfolding rstrip split_from
split_from-rstrip w [] = refl
split_from-rstrip w (c ∷ s) =
    ground (arith, split_from-rstrip [] s, split_from-rstrip (w ++ c ∷ []) s)

pub split-strip : (s : Text) → split (strip s) ≡ split s
unfolding strip
split-strip s = split_from-rstrip [] (lstrip s) ∙ split_from-lstrip s

rstrip-rstrip : (s : Text) → rstrip (rstrip s) ≡ rstrip s
unfolding rstrip
rstrip-rstrip [] = refl
rstrip-rstrip (c ∷ s) = ground (arith, rstrip-rstrip s)

-- What `lstrip` leaves is empty, or begins with no space.
lstrip-cases :
    (s : Text)
    → (lstrip s ≡ []) ⊎ ((c : ℕ) × (r : Text) × (lstrip s ≡ c ∷ r) × (is_space c ≡ false))
unfolding lstrip
lstrip-cases [] = inl refl
lstrip-cases (c ∷ s) = elim (Bool-cases (is_space c)) [
  | inl e ↦ rw (e, lstrip) (lstrip-cases s)
  | inr e ↦ inr (c, s, rw (e, lstrip), e)
]

lstrip-rstrip-cons :
    (c : ℕ) (s : Text) → is_space c ≡ false → lstrip (rstrip (c ∷ s)) ≡ rstrip (c ∷ s)
unfolding lstrip rstrip
lstrip-rstrip-cons c s h = ground arith

pub strip-strip : (s : Text) → strip (strip s) ≡ strip s
unfolding strip
strip-strip s = elim (lstrip-cases s) [
  | inl e ↦ rw e (unfold lstrip rstrip in refl)
  | inr (c, r, e, h) ↦ rw (e, lstrip-rstrip-cons c r h) (rstrip-rstrip (c ∷ r))
]

length-rstrip-le : (s : Text) → length (rstrip s) ≤ length s
unfolding rstrip
length-rstrip-le [] = omega arith
length-rstrip-le (c ∷ s) = ground (arith, length-rstrip-le s)

length-lstrip-le : (s : Text) → length (lstrip s) ≤ length s
unfolding lstrip
length-lstrip-le [] = omega arith
length-lstrip-le (c ∷ s) = ground (arith, length-lstrip-le s)

pub length-strip-le : (s : Text) → length (strip s) ≤ length s
unfolding strip
length-strip-le s = omega (arith, length-rstrip-le (lstrip s), length-lstrip-le s)
