-- ===== src/Persistence/Tables.antt =====
-- persistence/models.py: the five tables. A table is the list of its rows; a row of `users`,
-- `sessions`, `notes` and `indexing_jobs` has the columns of the domain record, so the
-- conversions `_user`, `_session`, `_note`, `_job` and `vars_from_slots` copy every field.
use rag_anotacoes_sdd.Prelude.{ℕ, Bool, List, [], ◌∷◌, if◌then◌else◌, Uuid, Instant}
use rag_anotacoes_sdd.Text.{Text}
use rag_anotacoes_sdd.Domain.Notes.{Note}
use rag_anotacoes_sdd.Domain.Users.{User, Session}
use rag_anotacoes_sdd.Domain.Jobs.{IndexingJob}

abbrev pub UserRecord : Type 0
UserRecord = User

abbrev pub SessionRecord : Type 0
SessionRecord = Session

abbrev pub NoteRecord : Type 0
NoteRecord = Note

abbrev pub IndexingJobRecord : Type 0
IndexingJobRecord = IndexingJob

-- The vectors are opaque: `Vector` stands for what the embedding model returns.
abbrev pub Vector : Type 0
Vector = List ℕ

pub record NoteChunkRecord : Type 0 where
  pub id : Uuid
  pub note_id : Uuid
  pub user_id : Uuid
  pub note_version : ℕ
  pub ordinal : ℕ
  pub text : Text
  pub token_count : ℕ
  pub embedding : Vector
  pub embedding_model : Text
  pub created_at : Instant

pub record Tables : Type 0 where
  pub users : List UserRecord
  pub sessions : List SessionRecord
  pub notes : List NoteRecord
  pub chunks : List NoteChunkRecord
  pub jobs : List IndexingJobRecord

-- The changes of an object's attributes, written to the rows that pass the test.
unfoldable pub update_where {ℓ} : {A : Type ℓ} → (A → Bool) → (A → A) → List A → List A
update_where p f [] = []
update_where p f (r ∷ rs) = (if p r then f r else r) ∷ update_where p f rs
