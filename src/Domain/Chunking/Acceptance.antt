-- ===== src/Domain/Chunking/Acceptance.antt =====
-- When `chunk_note` raises, and that it never does for a valid note with the default sizes.
use rag_anotacoes_sdd.Prelude.{
  ℕ, ◌+◌, ◌≤◌, ◌<◌, ◌≡◌, ◌≢◌, ◌↔◌, refl, false, List, [], ◌∷◌, length, null, arith, ok,
}
use rag_anotacoes_sdd.Text.{Text, strip, split}
use rag_anotacoes_sdd.Text.Strip.{split-strip, strip-strip}
use rag_anotacoes_sdd.Text.Split.{split-short}
use rag_anotacoes_sdd.Domain.Notes.{Note}
use rag_anotacoes_sdd.Domain.Notes.Validity.{IsValid}
use rag_anotacoes_sdd.Domain.Chunking.{TextChunk, chunk_note, default_target, default_overlap}
use rag_anotacoes_sdd.Domain.Chunking.Counts.{
  IsChunking, chunks_of, chunks_of-IsChunking, words-inhabited, token-inhabited, chunk_trimmed-ok,
  chunk_trimmed-room,
}

-- A text with words, or a title with words, that leaves more room than the overlap.
pub record HasRoom (title content : Text) (target overlap : ℕ) : Type 0 where
  pub inhabited : 1 ≤ length (split title) + length (split content)
  pub room : overlap + length (split title) < target

chunk_note-ok :
    (title content : Text) (target overlap : ℕ)
    → HasRoom title content target overlap
    → chunk_note title content target overlap
      ≡ ok (chunks_of (strip title) (strip content) target overlap)
unfolding chunk_note
chunk_note-ok title content target overlap h =
    chunk_trimmed-ok (strip title) (strip content) target overlap (strip-strip title)
      (strip-strip content) (rw (split-strip title, split-strip content) h.inhabited)
      (rw (split-strip title) h.room)

chunk_note-HasRoom :
    (title content : Text) (target overlap : ℕ) {chunks : List TextChunk}
    → chunk_note title content target overlap ≡ ok chunks
    → HasRoom title content target overlap
unfolding chunk_note
chunk_note-HasRoom title content target overlap h =
    let (shown, room) = chunk_trimmed-room (strip title) (strip content) target overlap h in
    record {
      inhabited =
          rw (split-strip title, split-strip content) at
            (words-inhabited (strip title) (strip content) (strip-strip title) (strip-strip content)
              shown);
      room = rw (split-strip title) at room;
    }

-- `chunk_note` succeeds exactly when the note is not blank and the title leaves room for more
-- than the overlap.
pub chunk_note-ok_iff :
    (title content : Text) (target overlap : ℕ)
    → ((chunks : List TextChunk) × (chunk_note title content target overlap ≡ ok chunks))
      ↔ HasRoom title content target overlap
chunk_note-ok_iff title content target overlap = (
  λ (chunks, h). chunk_note-HasRoom title content target overlap h,
  λ h. (
    chunks_of (strip title) (strip content) target overlap,
    chunk_note-ok title content target overlap h,
  ),
)

-- The chunks are numbered from 0, and there is one at least. Each has the words of the title and
-- then some of the content's, as many in all as its token count says, and at most the target.
-- Together they have every word of the content in order; a chunk at most repeats words that end
-- the one before it, no more than the overlap.
pub chunk_note-IsChunking :
    (title content : Text) (target overlap : ℕ) {chunks : List TextChunk}
    → chunk_note title content target overlap ≡ ok chunks
    → IsChunking title content target overlap chunks
chunk_note-IsChunking title content target overlap {chunks} h =
    let room = chunk_note-HasRoom title content target overlap h in
    let chunking =
      chunks_of-IsChunking (strip title) (strip content) target overlap (strip-strip content)
        (rw (split-strip title, split-strip content) room.inhabited)
        (rw (split-strip title) room.room) in
    let same : chunks ≡ chunks_of (strip title) (strip content) target overlap =
      cc (chunk_note-ok title content target overlap room) in
    rw same (record {
      pieces = chunking.pieces;
      renders = rw (split-strip title) at chunking.renders;
      covers = rw (split-strip content) at chunking.covers;
      inhabited = chunking.inhabited;
    })

-- A valid note is always cut into chunks by the default sizes.
pub chunk_note-total :
    (n : Note)
    → IsValid n
    → (chunks : List TextChunk) × (chunk_note n.title n.content default_target default_overlap
        ≡ ok chunks)
chunk_note-total n v =
    (chunk_note-ok_iff n.title n.content default_target default_overlap).1 (record {
      inhabited = omega (
        arith,
        token-inhabited n.title v.title_fits.trimmed (null-title n.title v.title_fits.inhabited),
      );
      room = omega (arith, split-short n.title, v.title_fits.short);
    })
  where
    null-title : (t : Text) → t ≢ [] → null t ≡ false
    null-title [] h = absurd (h refl)
    null-title (c ∷ t) h = refl
