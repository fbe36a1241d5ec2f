-- ===== src/Domain/Chunking/Coverage.antt =====
-- The loop over the paragraphs: what is collected has every word read so far, in fitting pieces.
use rag_anotacoes_sdd.Prelude.{
  ℕ, ◌+◌, ◌≤◌, ◌<◌, ◌≡◌, ◌≢◌, ◌⊎◌, refl, sym, ap, ◌∙◌, inl, inr, true, false, not, List, [], ◌∷◌,
  ◌++◌, map, append_assoc, append-nil, length, drop, null, select, concat, All, All-append,
  length-append, leb, drop-append, take-append, Bool-cases, leb→le, arith,
}
use rag_anotacoes_sdd.Text.{Text, lstrip, rstrip, strip, split_from, split, paragraphs_from}
use rag_anotacoes_sdd.Text.Strip.{split-strip}
use rag_anotacoes_sdd.Text.Split.{IsWord, split-IsWord, paragraphs-split, strip-nil}
use rag_anotacoes_sdd.Domain.Chunking.{
  windows, append_current, add_paragraph, add_paragraphs, paragraphs, or_blank, close, pieces_of,
}
use rag_anotacoes_sdd.Domain.Chunking.Pieces.{
  Chain, IsPiece, append_current-append, windows-Chain, windows-fit,
}

Chain-append :
    (overlap : ℕ) (prev : List Text) (ps qs : List (List Text)) (ws vs : List Text)
    → Chain overlap prev ps ws
    → ((p : List Text) → Chain overlap p qs vs)
    → Chain overlap prev (ps ++ qs) (ws ++ vs)
Chain-append overlap prev [] qs ws vs e f = rw e (f prev)
Chain-append overlap prev (p ∷ ps) qs ws vs (k, rest, before, h, l, e, cut, chain) f = (
  k,
  rest ++ vs,
  before,
  h,
  l,
  e,
  rw cut (append_assoc (drop k p) rest vs),
  Chain-append overlap p ps qs rest vs chain f,
)

-- Words that come next may join the last piece.
Chain-extend :
    (overlap : ℕ) (prev : List Text) (ps : List (List Text)) (c ws vs : List Text)
    → Chain overlap prev (ps ++ c ∷ []) ws
    → Chain overlap prev (ps ++ (c ++ vs) ∷ []) (ws ++ vs)
Chain-extend overlap prev [] c ws vs (k, rest, before, h, l, e, cut, none_left) = (
  k,
  [],
  before,
  h,
  omega (arith, length-append c vs),
  rw (take-append k c vs l) e,
  rw (cut, none_left, append-nil, append-nil) (sym (drop-append k c vs l)),
  refl,
)
Chain-extend overlap prev (p ∷ ps) c ws vs (k, rest, before, h, l, e, cut, chain) = (
  k,
  rest ++ vs,
  before,
  h,
  l,
  e,
  rw cut (append_assoc (drop k p) rest vs),
  Chain-extend overlap p ps c rest vs chain,
)

record Packed (limit overlap : ℕ) (pieces : List (List Text)) (current words : List Text)
    : Type 0 where
  chain : Chain overlap [] (append_current pieces current) words
  pieces_fit : All (IsPiece limit) pieces
  current_fits : length current ≤ limit
  current_words : All IsWord current

append_current-IsPiece :
    (limit : ℕ) (pieces : List (List Text)) (current : List Text)
    → All (IsPiece limit) pieces
    → length current ≤ limit
    → All IsWord current
    → All (IsPiece limit) (append_current pieces current)
append_current-IsPiece limit pieces [] h f v = h
append_current-IsPiece limit pieces (w ∷ ws) h f v =
    All-append (IsPiece limit) pieces ((w ∷ ws) ∷ []) h
      (record { inhabited = omega arith; fits = f; words = v }, tt)

module _ (limit overlap : ℕ) (below : overlap < limit) where
  -- The paragraph starts pieces of its own.
  fresh-Packed :
      (pieces : List (List Text)) (current words new : List Text)
      → Packed limit overlap pieces current words
      → All IsWord new
      → let (more, rest) = windows (length new) limit overlap new in
        Packed limit overlap (append_current pieces current ++ more) rest (words ++ new)
  fresh-Packed pieces current words new v good =
      let (more, rest) = windows (length new) limit overlap new in
      let (fit, short, solid, ends) =
        windows-fit limit overlap below (length new) new (omega arith) good in
      record {
        chain = rw (append_current-append (append_current pieces current) more rest) (
            Chain-append overlap [] (append_current pieces current) (append_current more rest) words
              new v.chain
              (λ p.
                windows-Chain limit overlap below (length new) new p p 0 (omega arith) (omega arith)
                  (sym (append-nil p))));
        pieces_fit =
            All-append (IsPiece limit) (append_current pieces current) more
              (append_current-IsPiece limit pieces current v.pieces_fit v.current_fits
                v.current_words)
              fit;
        current_fits = short;
        current_words = solid;
      }

  add_paragraph-Packed :
      (pieces : List (List Text)) (current words : List Text) (p : Text)
      → Packed limit overlap pieces current words
      → let (pieces', current') = add_paragraph limit overlap (pieces, current) p in
        Packed limit overlap pieces' current' (words ++ split p)
  unfolding add_paragraph
  add_paragraph-Packed pieces [] words p v =
      fresh-Packed pieces [] words (split p) v (split-IsWord p)
  add_paragraph-Packed pieces (w ∷ ws) words p v =
      elim (Bool-cases (leb (length (w ∷ ws) + length (split p)) limit)) [
        | inl joins ↦
            rw (joins, add_paragraph)
              (record {
                chain = Chain-extend overlap [] pieces (w ∷ ws) words (split p) v.chain;
                pieces_fit = v.pieces_fit;
                current_fits = omega (arith, leb→le _ _ joins, length-append (w ∷ ws) (split p));
                current_words =
                    All-append IsWord (w ∷ ws) (split p) v.current_words (split-IsWord p);
              })
        | inr full ↦
            rw (full, add_paragraph)
              (fresh-Packed pieces (w ∷ ws) words (split p) v (split-IsWord p))
      ]

  add_paragraphs-Packed :
      (pieces : List (List Text)) (current words : List Text) (ps : List Text)
      → Packed limit overlap pieces current words
      → let (pieces', current') = add_paragraphs limit overlap (pieces, current) ps in
        Packed limit overlap pieces' current' (words ++ concat (map split ps))
  unfolding add_paragraphs
  add_paragraphs-Packed pieces current words [] v = rw (append-nil words) v
  add_paragraphs-Packed pieces current words (p ∷ ps) v =
      let (pieces', current') = add_paragraph limit overlap (pieces, current) p in
      rw (← append_assoc words (split p) (concat (map split ps))) (
        add_paragraphs-Packed pieces' current' (words ++ split p) ps
          (add_paragraph-Packed pieces current words p v))

paragraph-words :
    (ps : List Text)
    → concat (map split (map strip (select (λ part. not (null (strip part))) ps)))
      ≡ concat (map split ps)
paragraph-words [] = refl
paragraph-words (p ∷ ps) = elim (null-cases (strip p)) [
  | inl e ↦ rw e (
      paragraph-words ps
      ∙ ap (λ ws. ws ++ concat (map split ps)) (sym ((strip-nil p).0 (null-nil (strip p) e))))
  | inr e ↦ rw (e, split-strip p, paragraph-words ps)
]
  where
    null-cases : (s : Text) → (null s ≡ true) ⊎ (null s ≡ false)
    null-cases s = Bool-cases (null s)

    null-nil : (s : Text) → null s ≡ true → s ≡ []
    null-nil [] h = refl
    null-nil (c ∷ s) h = cc

or_blank-words : (ps : List Text) → concat (map split (or_blank ps)) ≡ concat (map split ps)
or_blank-words [] = unfold split_from in refl
or_blank-words (p ∷ ps) = refl

close-inhabited : (pieces : List (List Text)) (current : List Text) → close (pieces, current) ≢ []
close-inhabited [] current e = cc
close-inhabited (p ∷ pieces) [] e = cc
close-inhabited (p ∷ pieces) (w ∷ ws) e = cc

pub pieces_of-inhabited :
    (limit overlap : ℕ) (content : Text) → pieces_of limit overlap content ≢ []
unfolding pieces_of
pieces_of-inhabited limit overlap content =
    let (pieces, current) = add_paragraphs limit overlap ([], []) (or_blank (paragraphs content)) in
    close-inhabited pieces current

close-append_current :
    (pieces : List (List Text)) (current : List Text)
    → append_current pieces current ≢ []
    → close (pieces, current) ≡ append_current pieces current
close-append_current [] [] h = absurd (h refl)
close-append_current [] (w ∷ ws) h = refl
close-append_current (p ∷ pieces) current h = refl

paragraphs-words : (content : Text) → concat (map split (paragraphs content)) ≡ split content
unfolding paragraphs
paragraphs-words content = paragraph-words (paragraphs_from [] content) ∙ paragraphs-split content

pub pieces_of-blank : (limit overlap : ℕ) → pieces_of limit overlap [] ≡ [] ∷ []
unfolding pieces_of paragraphs_from strip lstrip rstrip split_from
pieces_of-blank limit overlap = refl

-- What `pieces_of` makes of a content with words: fitting pieces that have every word in order.
pub pieces_of-Chain :
    (limit overlap : ℕ) (content : Text)
    → overlap < limit
    → split content ≢ []
    → All (IsPiece limit) (pieces_of limit overlap content)
      × Chain overlap [] (pieces_of limit overlap content) (split content)
unfolding pieces_of
pieces_of-Chain limit overlap content below inhabited =
    let (pieces, current) = add_paragraphs limit overlap ([], []) (or_blank (paragraphs content)) in
    let packed : Packed limit overlap pieces current (split content) =
      rw (← paragraphs-words content, ← or_blank-words (paragraphs content))
        (add_paragraphs-Packed limit overlap below [] [] [] (or_blank (paragraphs content))
          (record {
            chain = refl;
            pieces_fit = tt;
            current_fits = omega arith;
            current_words = tt;
          })) in
    rw (close-append_current pieces current (λ e. inhabited (rw e at packed.chain))) (
      append_current-IsPiece limit pieces current packed.pieces_fit packed.current_fits
          packed.current_words,
      packed.chain,
    )
