-- ===== src/Services/Indexing.antt =====
-- services/indexing.py, `IndexingService.process`, over `IndexingRepository`; and worker.py,
-- `IndexWorker.run_once`: one claim and its processing, in one transaction.
pub mod Withheld
pub mod Due
pub mod Changes
pub mod Turns
pub mod Progress
pub mod Attempts
pub mod Stored
pub mod Published
use rag_anotacoes_sdd.Prelude.{
  ℕ, Bool, false, not, ◌&&◌, Option, none, some, List, map, length, any, ◌==◌, if◌then◌else◌, codes,
  Uuid, Instant, Result, ok, err, model_unavailable,
}
use rag_anotacoes_sdd.Text.{Text}
use rag_anotacoes_sdd.Domain.Notes.{Note}
use rag_anotacoes_sdd.Domain.Chunking.{TextChunk, chunk_note, default_target, default_overlap}
use rag_anotacoes_sdd.Domain.Jobs.{IndexingJob}
use rag_anotacoes_sdd.Persistence.Tables.{Tables, Vector}
use rag_anotacoes_sdd.Persistence.Transactions.{Tx, pure, lift, transaction, ◌>>=◌}
use rag_anotacoes_sdd.Persistence.Jobs.{note_for_job, publish, fail, claim_next, claim_indexing_job}

-- The embedding model, and what the service is made with: `clock` is what its own clock reads, once
-- in a turn, when the embedding has ended; `fresh` numbers the chunks' ids.
pub record Ports : Type 0 where
  pub embed : List Text → Result (List Vector)
  pub embedding_model : Text
  pub clock : Instant
  pub fresh : ℕ → Uuid

-- `len(embeddings) != len(chunks) or any(len(vector) != 768 ...)`
unfoldable pub is_shaped : List TextChunk → List Vector → Bool
is_shaped chunks embeddings =
    length embeddings == length chunks && not (any (λ v. not (length v == 768)) embeddings)

-- The `try` block: the embeddings, or the exception that it raises.
unfoldable pub embedded : (List Text → Result (List Vector)) → List TextChunk → Result (List Vector)
unfolding is_shaped
embedded embed chunks = elim (embed (map (λ c. c.text) chunks)) [
  | err e ↦ err e
  | ok embeddings ↦ if is_shaped chunks embeddings then ok embeddings else err model_unavailable
]

abbrev pub embedding_unavailable : Text
embedding_unavailable = codes "embedding_unavailable"

module _ (p : Ports) (now : Instant) where
  -- `now` is `self.clock()`, which is read after the embedding. `except ModelUnavailableError`; any other exception is raised on.
  unfoldable pub finish : IndexingJob → List TextChunk → Result (List Vector) → Tx Bool
  finish job chunks (ok embeddings) = publish p.fresh job chunks embeddings p.embedding_model now
  finish job chunks (err model_unavailable) = do _ ← fail job embedding_unavailable now; pure false
  finish job chunks (err e) = lift (err e)

  -- `not note or note.version != job.note_version`
  unfoldable pub process_note : IndexingJob → Option Note → Tx Bool
  unfolding embedded finish
  process_note job none = pure false
  process_note job (some note) =
      if note.version == job.note_version
      then (do
        chunks ← lift (chunk_note note.title note.content default_target default_overlap)
        finish job chunks (embedded p.embed chunks))
      else pure false

  unfoldable pub process : IndexingJob → Tx Bool
  unfolding process_note
  process job = do note ← note_for_job job; process_note job note

  abbrev pub process_claimed : Option IndexingJob → Tx Bool
  process_claimed none = pure false
  process_claimed (some job) = process job

-- `run_once` of the worker, with `use_claim_function` as given: `now` is the worker's reading of the
-- clock, for the claim, and the service reads its own later.
unfoldable pub run_once : Ports → Instant → Bool → ℕ → Tables → Result Bool × Tables
unfolding process
run_once p now use_claim_function lease_seconds = transaction (do
  job ←
      if use_claim_function
      then claim_indexing_job now lease_seconds
      else claim_next now lease_seconds
  process_claimed p p.clock job)
