-- ===== src/Text/Split.antt =====
-- The words of a text: what `split()` makes of a join, of two paragraphs and of a short text.
use rag_anotacoes_sdd.Prelude.{
  ℕ, ◌+◌, ◌*◌, ◌≤◌, ◌≡◌, ◌≢◌, refl, ap, sym, ◌∙◌, true, false, ◌&&◌, List, [], ◌∷◌, ◌++◌, arith,
  Bool-cases, ◌↔◌, inl, inr, length, append_assoc, append-nil, All, All-append, map, concat, ◌==◌,
}
use rag_anotacoes_sdd.Text.{
  Text, is_space, lstrip, rstrip, strip, flush, split_from, split, paragraphs_from, join,
}
use rag_anotacoes_sdd.Text.Strip.{split-strip}

-- A word, as `split()` makes them.
pub record IsWord (w : Text) : Type 0 where
  pub solid : All (λ c. is_space c ≡ false) w
  pub inhabited : w ≢ []

abbrev IsSolid : Text → Type 0
IsSolid = All (λ c. is_space c ≡ false)

-- A space ends the word before it, whatever follows.
pub split_from-space :
    (w s t : Text) (c : ℕ)
    → is_space c ≡ true
    → split_from w (s ++ c ∷ t) ≡ split_from w s ++ split t
unfolding split_from
split_from-space w [] t c h = rw (h, split_from)
split_from-space w (d ∷ s) t c h = elim (Bool-cases (is_space d)) [
  | inl e ↦ rw (e, split_from, append_assoc) (ap (flush w ++◌) (split_from-space [] s t c h))
  | inr e ↦ rw (e, split_from) (split_from-space (w ++ d ∷ []) s t c h)
]

split_from-solid : (w v t : Text) → IsSolid v → split_from w (v ++ t) ≡ split_from (w ++ v) t
unfolding split_from
split_from-solid w [] t h = rw append-nil
split_from-solid w (c ∷ v) t h =
    rw (h.0, split_from)
      (split_from-solid (w ++ c ∷ []) v t h.1
        ∙ ap (λ u. split_from u t) (append_assoc w (c ∷ []) v))

flush-word : (w : Text) → w ≢ [] → flush w ≡ w ∷ []
flush-word [] h = absurd (h refl)
flush-word (c ∷ w) h = refl

split_from-nil : (w : Text) → split_from w [] ≡ flush w
unfolding split_from
split_from-nil w = refl

space : is_space 32 ≡ true
unfolding is_space
space = refl

-- `split()` undoes `" ".join` of words.
pub split-join : (ws : List Text) → All IsWord ws → split (join ws) ≡ ws
unfolding join
split-join [] h = unfold split_from in refl
split-join (w ∷ []) h =
    ap split (sym (append-nil w))
    ∙ split_from-solid [] w [] h.0.solid
    ∙ unfold split_from in flush-word w h.0.inhabited
split-join (w ∷ v ∷ ws) h =
    split_from-solid [] w (32 ∷ join (v ∷ ws)) h.0.solid
    ∙ split_from-space w [] (join (v ∷ ws)) 32 space
    ∙ rw (split_from-nil w, flush-word w h.0.inhabited, split-join (v ∷ ws) h.1)

flush-IsWord : (w : Text) → IsSolid w → All IsWord (flush w)
flush-IsWord [] h = tt
flush-IsWord (c ∷ w) h = (record { solid = h; inhabited = λ e. cc }, tt)

split_from-IsWord : (w s : Text) → IsSolid w → All IsWord (split_from w s)
unfolding split_from
split_from-IsWord w [] h = flush-IsWord w h
split_from-IsWord w (c ∷ s) h = elim (Bool-cases (is_space c)) [
  | inl e ↦
      rw (e, split_from)
        (All-append IsWord (flush w) (split s) (flush-IsWord w h) (split_from-IsWord [] s tt))
  | inr e ↦
      rw (e, split_from) (split_from-IsWord (w ++ c ∷ []) s (All-append _ w (c ∷ []) h (e, tt)))
]

pub split-IsWord : (s : Text) → All IsWord (split s)
split-IsWord s = split_from-IsWord [] s tt

abbrev slack : Text → ℕ
slack [] = 1
slack (c ∷ w) = 2

split_from-short : (w s : Text) → 2 * length (split_from w s) ≤ length s + slack w
unfolding split_from
split_from-short [] [] = omega arith
split_from-short (d ∷ w) [] = omega arith
split_from-short [] (c ∷ s) = ground (arith, split_from-short [] s, split_from-short (c ∷ []) s)
split_from-short (d ∷ w) (c ∷ s) =
    ground (arith, split_from-short [] s, split_from-short (d ∷ (w ++ c ∷ [])) s)

-- Words are set apart by spaces, so a text of `n` characters has at most (n + 1) / 2 of them.
pub split-short : (s : Text) → 2 * length (split s) ≤ length s + 1
split-short s = split_from-short [] s

pub newline : is_space 10 ≡ true
unfolding is_space
newline = refl

paragraphs_from-split : (p s : Text) → concat (map split (paragraphs_from p s)) ≡ split (p ++ s)
unfolding paragraphs_from split_from
paragraphs_from-split p [] = rw (append-nil, append-nil)
paragraphs_from-split p (c ∷ []) = rw append-nil
paragraphs_from-split p (c ∷ d ∷ s) = elim (Bool-cases (c == 10 && d == 10)) [
  | inl e ↦
      rw (e, paragraphs_from, paragraphs_from-split [] s)
        (sym (
          rw ((let q : c ≡ 10 = ground arith in q), (let q : d ≡ 10 = ground arith in q))
            (split_from-space [] p (10 ∷ s) 10 newline
              ∙ ap (split p ++◌) (split_from-space [] [] s 10 newline))))
  | inr e ↦
      rw (e, paragraphs_from)
        (paragraphs_from-split (p ++ c ∷ []) (d ∷ s) ∙ ap split (append_assoc p (c ∷ []) (d ∷ s)))
]

-- The words of the paragraphs are the words of the text.
pub paragraphs-split : (s : Text) → concat (map split (paragraphs_from [] s)) ≡ split s
paragraphs-split s = paragraphs_from-split [] s

split_from-inhabited : (w s : Text) → w ≢ [] → split_from w s ≢ []
unfolding split_from
split_from-inhabited [] s h = absurd (h refl)
split_from-inhabited (d ∷ w) [] h = λ e. cc
split_from-inhabited (d ∷ w) (c ∷ s) h = elim (Bool-cases (is_space c)) [
  | inl e ↦ rw (e, split_from) (λ q. cc)
  | inr e ↦ rw (e, split_from) (split_from-inhabited (d ∷ (w ++ c ∷ [])) s (λ q. cc))
]

lstrip-nil : (s : Text) → split s ≡ [] → lstrip s ≡ []
unfolding split_from lstrip
lstrip-nil [] h = refl
lstrip-nil (c ∷ s) h = elim (Bool-cases (is_space c)) [
  | inl e ↦ rw (e, lstrip) (lstrip-nil s (rw (e, split_from) at h))
  | inr e ↦ absurd (split_from-inhabited (c ∷ []) s (λ q. cc) (rw (e, split_from) at h))
]

-- A text is blank exactly when it has no word.
pub strip-nil : (s : Text) → (strip s ≡ []) ↔ (split s ≡ [])
unfolding strip
strip-nil s = (
  λ e. sym (split-strip s) ∙ ap split e ∙ unfold split_from in refl,
  λ e. rw (lstrip-nil s e) (unfold rstrip in refl),
)
