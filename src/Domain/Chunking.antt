-- ===== src/Domain/Chunking.antt =====
-- domain/indexing.py, `chunk_note`: a note's text is cut into chunks of whole words for
-- embedding, with the title before each and an overlap inside a long paragraph.
pub mod Pieces
pub mod Coverage
pub mod Counts
pub mod Acceptance
use rag_anotacoes_sdd.Prelude.{
  ℕ, zero, suc, ◌+◌, ◌-◌, Bool, true, false, not, ◌&&◌, List, [], ◌∷◌, ◌++◌, map, ltb, leb, ◌==◌,
  if◌then◌else◌, length, take, drop, null, select, Result, ok, err, ◌>>=◌, ◌>>◌, require,
  value_error, empty_note, invalid_chunk_configuration, title_too_large,
}
use rag_anotacoes_sdd.Text.{Text, strip, split, paragraphs_from, join}

pub record TextChunk : Type 0 where
  pub ordinal : ℕ
  pub text : Text
  pub token_count : ℕ

-- `while len(words) > content_limit`: the pieces that it appends and the words that are left.
-- The fuel is the number of words, which falls in each round when the overlap is below the limit.
unfoldable pub windows : ℕ → ℕ → ℕ → List Text → List (List Text) × List Text
windows zero content_limit overlap_tokens words = ([], words)
windows (suc fuel) content_limit overlap_tokens words = elim (ltb content_limit (length words)) [
  | true ↦
      let (more, rest) =
        windows fuel content_limit overlap_tokens (drop (content_limit - overlap_tokens) words) in
      (take content_limit words ∷ more, rest)
  | false ↦ ([], words)
]

-- `if current: pieces.append(current)`
abbrev pub append_current : List (List Text) → List Text → List (List Text)
append_current pieces [] = pieces
append_current pieces (w ∷ ws) = pieces ++ (w ∷ ws) ∷ []

-- One round of `for paragraph in paragraphs`, on `pieces` and `current`.
unfoldable pub add_paragraph :
    ℕ → ℕ → List (List Text) × List Text → Text → List (List Text) × List Text
unfolding windows
add_paragraph content_limit overlap_tokens (pieces, current) paragraph =
    let words = split paragraph in
    if not (null current) && leb (length current + length words) content_limit
    then (pieces, current ++ words)
    else let (more, rest) = windows (length words) content_limit overlap_tokens words in
      (append_current pieces current ++ more, rest)

unfoldable pub add_paragraphs :
    ℕ → ℕ → List (List Text) × List Text → List Text → List (List Text) × List Text
unfolding add_paragraph
add_paragraphs content_limit overlap_tokens state [] = state
add_paragraphs content_limit overlap_tokens state (p ∷ ps) =
    add_paragraphs content_limit overlap_tokens (add_paragraph content_limit overlap_tokens state p)
      ps

-- `[part.strip() for part in content.split("\n\n") if part.strip()]`
unfoldable pub paragraphs : Text → List Text
paragraphs content =
    map strip (select (λ part. not (null (strip part))) (paragraphs_from [] content))

-- `paragraphs or [""]`
abbrev pub or_blank : List Text → List Text
or_blank [] = [] ∷ []
or_blank (p ∷ ps) = p ∷ ps

-- `if current or not pieces: pieces.append(current)`
abbrev pub close : List (List Text) × List Text → List (List Text)
close ([], current) = current ∷ []
close (p ∷ pieces, current) = append_current (p ∷ pieces) current

unfoldable pub pieces_of : ℕ → ℕ → Text → List (List Text)
unfolding add_paragraphs paragraphs
pieces_of content_limit overlap_tokens content =
    close (add_paragraphs content_limit overlap_tokens ([], []) (or_blank (paragraphs content)))

abbrev pub chunk_text : Text → List Text → Text
chunk_text prefix words = strip (prefix ++ join words)

-- The comprehension over `enumerate(pieces)`; `index` is its counter.
unfoldable pub chunks_from : ℕ → Text → ℕ → List (List Text) → List TextChunk
chunks_from index prefix title_tokens [] = []
chunks_from index prefix title_tokens (words ∷ pieces) =
    let rest = chunks_from (suc index) prefix title_tokens pieces in
    if not (null (chunk_text prefix words))
    then record {
      ordinal = index;
      text = chunk_text prefix words;
      token_count = title_tokens + length words;
    }
      ∷ rest
    else rest

-- `title + "\n\n" if title else ""`
abbrev pub prefix_of : Text → Text
prefix_of [] = []
prefix_of (c ∷ t) = (c ∷ t) ++ 10 ∷ 10 ∷ []

-- The body of `chunk_note`, after `title` and `content` are trimmed.
unfoldable pub chunk_trimmed : Text → Text → ℕ → ℕ → Result (List TextChunk)
chunk_trimmed title content target_tokens overlap_tokens = do
  require (not (null title && null content)) (value_error empty_note)
  require (not (target_tokens == 0) && ltb overlap_tokens target_tokens)
      (value_error invalid_chunk_configuration)
  let title_tokens = length (split title)
  let content_limit = target_tokens - title_tokens
  require (ltb overlap_tokens content_limit) (value_error title_too_large)
  let chunks =
      chunks_from 0 (prefix_of title) title_tokens (pieces_of content_limit overlap_tokens content)
  require (not (null chunks)) (value_error empty_note)
  ok chunks

unfoldable pub chunk_note : Text → Text → ℕ → ℕ → Result (List TextChunk)
chunk_note title content target_tokens overlap_tokens =
    chunk_trimmed (strip title) (strip content) target_tokens overlap_tokens

-- The defaults of the source.
abbrev pub default_target : ℕ
default_target = 350

abbrev pub default_overlap : ℕ
default_overlap = 50
