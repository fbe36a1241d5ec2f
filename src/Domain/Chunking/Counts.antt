-- ===== src/Domain/Chunking/Counts.antt =====
-- What `chunk_note` returns: numbered chunks, each with the title and one piece of the content,
-- whose token count is the number of words in its text and is at most the target.
use rag_anotacoes_sdd.Prelude.{
  ℕ, suc, ◌+◌, ◌-◌, ◌≤◌, ◌<◌, ◌≡◌, ◌≢◌, refl, sym, ap, ◌∙◌, inl, inr, true, false, not, ◌&&◌, List,
  [], ◌∷◌, ◌++◌, append_assoc, length, null, All, length-append, Bool-cases, arith, ok,
}
use rag_anotacoes_sdd.Text.{Text, strip, split_from, split, join}
use rag_anotacoes_sdd.Text.Strip.{split-strip}
use rag_anotacoes_sdd.Text.Split.{IsWord, split_from-space, split-join, strip-nil, newline}
use rag_anotacoes_sdd.Domain.Chunking.{
  TextChunk, pieces_of, chunk_text, prefix_of, chunks_from, chunk_trimmed,
}
use rag_anotacoes_sdd.Domain.Chunking.Pieces.{Chain, IsPiece}
use rag_anotacoes_sdd.Domain.Chunking.Coverage.{
  pieces_of-Chain, pieces_of-blank, pieces_of-inhabited,
}

-- The chunks, numbered from `i`, are the pieces, each behind the title: a text with those words
-- and no others, their number as the token count, and that within the target.
abbrev pub Renders : List Text → ℕ → ℕ → List TextChunk → List (List Text) → Type 0
Renders title_words target i [] [] = Unit
Renders title_words target i (ch ∷ chs) (p ∷ ps) =
    (ch.ordinal ≡ i)
    × (split ch.text ≡ title_words ++ p)
    × (ch.token_count ≡ length (split ch.text))
    × (1 ≤ ch.token_count)
    × (ch.token_count ≤ target)
    × Renders title_words target (suc i) chs ps
Renders title_words target i _ _ = ⊥

-- A piece that can stand behind the title.
record Fits (title : Text) (target : ℕ) (p : List Text) : Type 0 where
  words : All IsWord p
  inhabited : 1 ≤ length (split title) + length p
  short : length (split title) + length p ≤ target

prefix_of-words : (title : Text) (s : Text) → split (prefix_of title ++ s) ≡ split title ++ split s
unfolding split_from
prefix_of-words [] s = refl
prefix_of-words (c ∷ t) s =
    ap split (append_assoc (c ∷ t) (10 ∷ 10 ∷ []) s)
    ∙ split_from-space [] (c ∷ t) (10 ∷ s) 10 newline
    ∙ ap (split (c ∷ t) ++◌) (split_from-space [] [] s 10 newline)

chunk_text-words :
    (title : Text) (p : List Text)
    → All IsWord p
    → split (chunk_text (prefix_of title) p) ≡ split title ++ p
chunk_text-words title p v =
    split-strip (prefix_of title ++ join p)
    ∙ prefix_of-words title (join p)
    ∙ ap (split title ++◌) (split-join p v)

null-false : (s : Text) → null s ≡ false → s ≢ []
null-false [] h = cc
null-false (c ∷ s) h = λ e. cc

inhabited-null : (s : Text) → 1 ≤ length (split s) → null (strip s) ≡ false
inhabited-null s h = go (strip s) refl
  where
    go : (t : Text) → strip s ≡ t → null t ≡ false
    go [] e = absurd (omega (arith, ap length ((strip-nil s).0 e)))
    go (c ∷ t) e = refl

chunks_from-Renders :
    (title : Text) (target i : ℕ) (ps : List (List Text))
    → All (Fits title target) ps
    → Renders (split title) target i (chunks_from i (prefix_of title) (length (split title)) ps) ps
unfolding chunks_from
chunks_from-Renders title target i [] v = tt
chunks_from-Renders title target i (p ∷ ps) (h, v) =
    let words = chunk_text-words title p h.words in
    let count : length (split (chunk_text (prefix_of title) p)) ≡ length (split title) + length p =
      ap length words ∙ length-append (split title) p in
    let shown : null (chunk_text (prefix_of title) p) ≡ false =
      inhabited-null (prefix_of title ++ join p)
        (omega (arith, h.inhabited, count, ap length (split-strip (prefix_of title ++ join p)))) in
    rw (shown, chunks_from)
      (refl, words, sym count, h.inhabited, h.short, chunks_from-Renders title target (suc i) ps v)

pieces-Fits :
    (title : Text) (target : ℕ) (ps : List (List Text))
    → length (split title) ≤ target
    → All (IsPiece (target - length (split title))) ps
    → All (Fits title target) ps
pieces-Fits title target [] h v = tt
pieces-Fits title target (p ∷ ps) h (v, vs) = (
  record { words = v.words; inhabited = omega arith; short = omega (arith, v.fits) },
  pieces-Fits title target ps h vs,
)

-- What `chunk_note` makes of a title and a content: pieces in a chain, rendered in order.
pub record IsChunking (title content : Text) (target overlap : ℕ) (chunks : List TextChunk)
    : Type 0 where
  pub pieces : List (List Text)
  pub renders : Renders (split title) target 0 chunks pieces
  pub covers : Chain overlap [] pieces (split content)
  pub inhabited : chunks ≢ []

-- The pieces of a trimmed note with room for the title, whatever its content.
pieces_of-Fits :
    (title content : Text) (target overlap : ℕ)
    → strip content ≡ content
    → 1 ≤ length (split title) + length (split content)
    → overlap + length (split title) < target
    → All (Fits title target) (pieces_of (target - length (split title)) overlap content)
      × Chain overlap [] (pieces_of (target - length (split title)) overlap content) (split content)
unfolding split_from
pieces_of-Fits title [] target overlap t h room =
    rw (pieces_of-blank (target - length (split title)) overlap) (
      (record { words = tt; inhabited = h; short = omega arith }, tt),
      (0, [], [], omega arith, omega arith, refl, refl, refl),
    )
pieces_of-Fits title (c ∷ s) target overlap t h room =
    let (fit, chain) =
      pieces_of-Chain (target - length (split title)) overlap (c ∷ s) (omega arith)
        (λ e. cc ((strip-nil (c ∷ s)).1 e)) in
    (pieces-Fits title target _ (omega arith) fit, chain)

-- The chunks of a trimmed title and content.
pub chunks_of : Text → Text → ℕ → ℕ → List TextChunk
chunks_of title content target overlap =
    chunks_from 0 (prefix_of title) (length (split title))
      (pieces_of (target - length (split title)) overlap content)

pub chunks_of-IsChunking :
    (title content : Text) (target overlap : ℕ)
    → strip content ≡ content
    → 1 ≤ length (split title) + length (split content)
    → overlap + length (split title) < target
    → IsChunking title content target overlap (chunks_of title content target overlap)
unfolding chunks_of
chunks_of-IsChunking title content target overlap t h room =
    let (fit, chain) = pieces_of-Fits title content target overlap t h room in
    let renders =
      chunks_from-Renders title target 0 (pieces_of (target - length (split title)) overlap content)
        fit in
    record {
      pieces = pieces_of (target - length (split title)) overlap content;
      renders = renders;
      covers = chain;
      inhabited = λ e.
          Renders-inhabited title target _
            (pieces_of-inhabited (target - length (split title)) overlap content) (rw e at renders);
    }
  where
    Renders-inhabited :
        (title : Text) (target : ℕ) (ps : List (List Text))
        → ps ≢ []
        → Renders (split title) target 0 [] ps
        → ⊥
    Renders-inhabited title target [] h r = h refl
    Renders-inhabited title target (p ∷ ps) h r = r

-- A trimmed text has a word exactly when it has a character.
pub token-inhabited : (s : Text) → strip s ≡ s → null s ≡ false → 1 ≤ length (split s)
token-inhabited s t h = go (split s) refl
  where
    go : (ws : List Text) → split s ≡ ws → 1 ≤ length ws
    go [] e = absurd (null-false s h (sym t ∙ (strip-nil s).1 e))
    go (w ∷ ws) e = omega arith

null-words : (s : Text) → null s ≡ true → length (split s) ≡ 0
unfolding split_from
null-words [] h = refl
null-words (c ∷ s) h = cc

pub words-inhabited :
    (title content : Text)
    → strip title ≡ title
    → strip content ≡ content
    → not (null title && null content) ≡ true
    → 1 ≤ length (split title) + length (split content)
words-inhabited title content t c h = elim (Bool-cases (null title)) [
  | inl e ↦ omega (arith, token-inhabited content c (ground arith))
  | inr e ↦ omega (arith, token-inhabited title t e)
]

null-chunks : (chunks : List TextChunk) → chunks ≢ [] → null chunks ≡ false
null-chunks [] h = absurd (h refl)
null-chunks (ch ∷ chunks) h = refl

pub chunk_trimmed-ok :
    (title content : Text) (target overlap : ℕ)
    → strip title ≡ title
    → strip content ≡ content
    → 1 ≤ length (split title) + length (split content)
    → overlap + length (split title) < target
    → chunk_trimmed title content target overlap ≡ ok (chunks_of title content target overlap)
unfolding chunk_trimmed chunks_of
chunk_trimmed-ok title content target overlap t c h room = ground (
  arith,
  null-words title,
  null-words content,
  null-chunks (chunks_of title content target overlap)
      (chunks_of-IsChunking title content target overlap c h room).inhabited,
)

pub chunk_trimmed-room :
    (title content : Text) (target overlap : ℕ) {chunks : List TextChunk}
    → chunk_trimmed title content target overlap ≡ ok chunks
    → (not (null title && null content) ≡ true) × (overlap + length (split title) < target)
unfolding chunk_trimmed
chunk_trimmed-room title content target overlap h = ground arith
