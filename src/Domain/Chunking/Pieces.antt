-- ===== src/Domain/Chunking/Pieces.antt =====
-- The pieces of `chunk_note`: none is too long, and together they have every word of the content
-- in order, a piece at most repeating some words that end the one before it.
use rag_anotacoes_sdd.Prelude.{
  ℕ, zero, suc, ◌+◌, ◌-◌, ◌≤◌, ◌<◌, ◌≡◌, refl, sym, ap, ◌∙◌, inl, inr, List, [], ◌∷◌, ◌++◌,
  append_assoc, append-nil, length, take, drop, All, All-take, All-drop, length-take, length-drop,
  drop-drop, take-add, drop-take-append, take-take, drop-nil, Bool-cases, ltb, ltb-false→le, ltb→lt,
  arith,
}
use rag_anotacoes_sdd.Text.{Text}
use rag_anotacoes_sdd.Text.Split.{IsWord}
use rag_anotacoes_sdd.Domain.Chunking.{windows, append_current}

-- The pieces begin after `prev` and have the given words: each repeats the last `k` words of the
-- piece before it, with `k` at most the overlap, and goes on with the words that come next.
abbrev pub Chain : ℕ → List Text → List (List Text) → List Text → Type 0
Chain overlap prev [] words = words ≡ []
Chain overlap prev (p ∷ ps) words =
    (k : ℕ) × (rest before : List Text) × (k ≤ overlap)
    × (k ≤ length p)
    × (prev ≡ before ++ take k p)
    × (words ≡ drop k p ++ rest)
    × Chain overlap p ps rest

pub record IsPiece (limit : ℕ) (p : List Text) : Type 0 where
  pub inhabited : 1 ≤ length p
  pub fits : length p ≤ limit
  pub words : All IsWord p

append_current-cons :
    (p : List Text) (ps : List (List Text)) (current : List Text)
    → append_current (p ∷ ps) current ≡ p ∷ append_current ps current
append_current-cons p ps [] = refl
append_current-cons p ps (w ∷ ws) = refl

pub append_current-append :
    (ps qs : List (List Text)) (current : List Text)
    → append_current (ps ++ qs) current ≡ ps ++ append_current qs current
append_current-append ps qs [] = refl
append_current-append ps qs (w ∷ ws) = append_assoc ps qs ((w ∷ ws) ∷ [])

single-Chain :
    (overlap : ℕ) (words prev before : List Text) (k : ℕ)
    → k ≤ overlap
    → k ≤ length words
    → prev ≡ before ++ take k words
    → Chain overlap prev (append_current [] words) (drop k words)
single-Chain overlap [] prev before k h l e = drop-nil k
single-Chain overlap (w ∷ ws) prev before k h l e =
    (k, [], before, h, l, e, sym (append-nil _), refl)

module _ (limit overlap : ℕ) (below : overlap < limit) where
  -- The two cuts of one round: where the next piece begins, and where this one ends.
  take-cut :
      (words : List Text)
      → take limit words
        ≡ take (limit - overlap) words ++ take overlap (drop (limit - overlap) words)
  take-cut words =
      ap (λ n. take n words) (let e : limit ≡ limit - overlap + overlap = omega arith in e)
      ∙ take-add (limit - overlap) overlap words

  drop-cut : (words : List Text) → drop overlap (drop (limit - overlap) words) ≡ drop limit words
  drop-cut words =
      drop-drop (limit - overlap) overlap words
      ∙ ap (λ n. drop n words) (let e : limit - overlap + overlap ≡ limit = omega arith in e)

  pub windows-Chain :
      (fuel : ℕ) (words prev before : List Text) (k : ℕ)
      → k ≤ overlap
      → k ≤ length words
      → prev ≡ before ++ take k words
      → let (more, rest) = windows fuel limit overlap words in
        Chain overlap prev (append_current more rest) (drop k words)
  unfolding windows
  windows-Chain zero words prev before k h l e = single-Chain overlap words prev before k h l e
  windows-Chain (suc fuel) words prev before k h l e =
      elim (Bool-cases (ltb limit (length words))) [
        | inl long ↦
            let q : limit < length words = ltb→lt limit (length words) long in
            let next = drop (limit - overlap) words in
            let (more, rest) = windows fuel limit overlap next in
            rw (long, windows, append_current-cons (take limit words) more rest)
              (
                k,
                drop limit words,
                before,
                h,
                omega (arith, length-take limit words),
                rw (take-take k limit words (omega arith)) e,
                sym (drop-take-append k limit words (omega arith)),
                rw (drop-cut words) at (
                    windows-Chain fuel next (take limit words) (take (limit - overlap) words)
                      overlap (omega arith) (omega (arith, length-drop (limit - overlap) words))
                      (take-cut words)),
              )
        | inr short ↦ rw (short, windows) (single-Chain overlap words prev before k h l e)
      ]

  -- The loop has ended by its test when the fuel is the number of words: what is left fits.
  pub windows-fit :
      (fuel : ℕ) (words : List Text)
      → length words ≤ fuel
      → All IsWord words
      → let (more, rest) = windows fuel limit overlap words in
        All (IsPiece limit) more
        × (length rest ≤ limit)
        × All IsWord rest
        × ((rest ≡ []) → (more ≡ []) × (words ≡ []))
  unfolding windows
  windows-fit zero [] h v = (tt, omega arith, tt, λ e. (refl, refl))
  windows-fit zero (w ∷ ws) h v = absurd (omega arith)
  windows-fit (suc fuel) words h v = elim (Bool-cases (ltb limit (length words))) [
    | inl long ↦
        let q : limit < length words = ltb→lt limit (length words) long in
        let next = drop (limit - overlap) words in
        let (pieces, fits, good, ends) =
          windows-fit fuel next (omega (arith, length-drop (limit - overlap) words))
            (All-drop IsWord (limit - overlap) words v) in
        rw (long, windows)
          (
            (
              record {
                inhabited = omega (arith, length-take limit words);
                fits = omega (arith, length-take limit words);
                words = All-take IsWord limit words v;
              },
              pieces,
            ),
            fits,
            good,
            λ e.
                absurd (omega (arith, length-drop (limit - overlap) words, ap length ((ends e).1))),
          )
    | inr short ↦
        rw (short, windows) (tt, ltb-false→le limit (length words) short, v, λ e. (refl, e))
  ]
