-- ===== src/Persistence/Ownership.antt =====
-- Whose rows the tables hold, and what a transaction of one user may write. No foreign key ties
-- the owner of a chunk or a job to the owner of its note: the program does.
pub mod Lists
pub mod Kept
pub mod Runs
pub mod Operations
use rag_anotacoes_sdd.Prelude.{
  ℕ, Bool, true, false, not, ◌&&◌, Option, none, some, List, [], ◌∷◌, ◌++◌, ◌≡◌, All, select, ◌==◌,
  if◌then◌else◌, Uuid,
}
use rag_anotacoes_sdd.Persistence.Tables.{
  Tables, NoteRecord, NoteChunkRecord, IndexingJobRecord, update_where,
}
use rag_anotacoes_sdd.Persistence.Inserts.{has_note}
use rag_anotacoes_sdd.Persistence.Notes.{without_note}
use rag_anotacoes_sdd.Persistence.Notes.Strict.{AreDistinct}

-- The owner of the note with an identifier.
unfoldable pub owner_of : List NoteRecord → Uuid → Option Uuid
owner_of [] id = none
owner_of (n ∷ ns) id = if n.id == id then some n.user_id else owner_of ns id

-- No two notes have the same identifier, and every job and every chunk is for a note that is there
-- and has the same owner.
pub record IsOwned (t : Tables) : Type 0 where
  pub ids : AreDistinct t.notes
  pub notes : All (λ n. owner_of t.notes n.id ≡ some n.user_id) t.notes
  pub jobs : All (λ j. owner_of t.notes j.note_id ≡ some j.user_id) t.jobs
  pub chunks : All (λ c. owner_of t.notes c.note_id ≡ some c.user_id) t.chunks

-- The rows of one user.
pub record Rows : Type 0 where
  pub notes : List NoteRecord
  pub chunks : List NoteChunkRecord
  pub jobs : List IndexingJobRecord

unfoldable pub rows_of : Uuid → Tables → Rows
rows_of user_id t = record {
  notes = select (λ n. n.user_id == user_id) t.notes;
  chunks = select (λ c. c.user_id == user_id) t.chunks;
  jobs = select (λ j. j.user_id == user_id) t.jobs;
}

-- One write of a transaction of the user `u`: only rows of that user, and only for notes of the
-- user, are added, changed or deleted.
pub data Write (u : Uuid) (t t' : Tables) : Type 0 where
  note_added :
      (n : NoteRecord)
      → n.user_id ≡ u
      → has_note n.id t ≡ false
      → t' ≡ record t { notes = t.notes ++ n ∷ [] }
      → Write u t t'
  note_changed :
      (n : NoteRecord)
      → n.user_id ≡ u
      → t'
        ≡ record t { notes = update_where (λ m. m.id == n.id && m.user_id == u) (λ _. n) t.notes }
      → Write u t t'
  note_deleted : (id : Uuid) → owner_of t.notes id ≡ some u → t' ≡ without_note id t → Write u t t'
  job_added :
      (j : IndexingJobRecord)
      → j.user_id ≡ u
      → owner_of t.notes j.note_id ≡ some u
      → t' ≡ record t { jobs = t.jobs ++ j ∷ [] }
      → Write u t t'
  job_changed :
      (j : IndexingJobRecord)
      → j.user_id ≡ u
      → owner_of t.notes j.note_id ≡ some u
      → t' ≡ record t { jobs = update_where (λ k. k.id == j.id && k.user_id == u) (λ _. j) t.jobs }
      → Write u t t'
  jobs_deleted :
      (p : IndexingJobRecord → Bool)
      → t' ≡ record t { jobs = select (λ j. not (p j && j.user_id == u)) t.jobs }
      → Write u t t'
  chunk_added :
      (c : NoteChunkRecord)
      → c.user_id ≡ u
      → owner_of t.notes c.note_id ≡ some u
      → t' ≡ record t { chunks = t.chunks ++ c ∷ [] }
      → Write u t t'
  chunks_deleted :
      (p : NoteChunkRecord → Bool)
      → t' ≡ record t { chunks = select (λ c. not (p c && c.user_id == u)) t.chunks }
      → Write u t t'

-- The writes of a transaction, in their order.
pub data Writes (u : Uuid) (t : Tables) : Tables → Type 0 where
  done : Writes u t t
  next : {t' t'' : Tables} → Writes u t t' → Write u t' t'' → Writes u t t''
