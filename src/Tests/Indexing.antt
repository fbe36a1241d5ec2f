-- ===== src/Tests/Indexing.antt =====
-- Runs and instances for the worker and the saves of notes over stored tables.
use rag_anotacoes_sdd.Prelude.{
  ◌≡◌, ◌≢◌, ◌⊎◌, refl, Bool, true, false, none, some, [], ◌∷◌, codes, Result, ok, err, All, select,
  first, model_unavailable,
}
use rag_anotacoes_sdd.Text.{is_space, lstrip, rstrip, strip, split_from, paragraphs_from, join}
use rag_anotacoes_sdd.Domain.Notes.{Note, SemanticStatus}
use rag_anotacoes_sdd.Domain.Jobs.{pending_job, fail_transient}
use rag_anotacoes_sdd.Domain.Chunking
use rag_anotacoes_sdd.Persistence.Tables.{Tables, NoteChunkRecord, update_where}
use rag_anotacoes_sdd.Persistence.Transactions.{Db, transaction, set_current_user}
use rag_anotacoes_sdd.Persistence.Inserts.{write_note, write_job, insert_job}
use rag_anotacoes_sdd.Persistence.Notes.{assign, delete_open_jobs, save}
use rag_anotacoes_sdd.Persistence.Notes.Lock.{is_expected, IsSaved, save-IsSaved}
use rag_anotacoes_sdd.Persistence.Jobs.{
  is_due, earliest, claimed_row, claim_indexing_job, note_for_job, fail,
}
use rag_anotacoes_sdd.Services.Indexing.{Ports, embedded, finish, process_note, process, run_once}
use rag_anotacoes_sdd.Services.Indexing.Withheld.{run_once_withheld}

abbrev note : Note
note = record {
  id = 3;
  user_id = 1;
  title = codes "T";
  content = codes "E";
  version = 2;
  semantic_status = SemanticStatus.pending;
  semantic_error_code = none;
  created_at = 0;
  updated_at = 0;
  semantic_updated_at = none;
}

abbrev old_chunk : NoteChunkRecord
old_chunk = record {
  id = 8;
  note_id = 3;
  user_id = 1;
  note_version = 1;
  ordinal = 0;
  text = codes "T D";
  token_count = 2;
  embedding = [];
  embedding_model = [];
  created_at = 0;
}

abbrev tables : Tables
tables = record {
  users = [];
  sessions = [];
  notes = note ∷ [];
  chunks = old_chunk ∷ [];
  jobs = pending_job 11 3 1 2 20 ∷ [];
}

-- The embedding model is down.
abbrev ports : Ports
ports = record {
  embed = λ texts. err model_unavailable;
  embedding_model = [];
  clock = 31;
  fresh = λ i. i;
}

abbrev turn : Result Bool × Tables
turn = run_once ports 30 true 5 tables

turn_run : turn.0 ≡ ok false
unfolding run_once process process_note embedded finish transaction pending_job is_due earliest
    claimed_row claim_indexing_job note_for_job set_current_user fail fail_transient write_job
    update_where is_space lstrip rstrip strip split_from paragraphs_from join Chunking.windows
    Chunking.add_paragraph Chunking.add_paragraphs Chunking.paragraphs Chunking.pieces_of
    Chunking.chunks_from Chunking.chunk_trimmed Chunking.chunk_note
turn_run = refl

turn_fails : turn.0 ≢ ok true
turn_fails h = cc (turn_run, h)

run_once_withheld_example : turn.1.chunks ≡ tables.chunks
run_once_withheld_example = run_once_withheld ports 30 true 5 tables refl turn_fails

abbrev db : Db
db = record { tables = tables; current_user = some 1 }

abbrev newer : Note
newer = record note { title = codes "U"; version = 3; updated_at = 40 }

abbrev saved_db : Db
saved_db = record db {
  tables = record tables { notes = newer ∷ []; jobs = pending_job 12 3 1 3 40 ∷ [] };
}

save_run : save 1 12 newer 2 db ≡ (ok true, saved_db)
unfolding save assign delete_open_jobs write_note insert_job update_where pending_job
save_run = refl

save-IsSaved_example :
    ((true ≡ true)
      × (r : Note) × (is_expected 1 newer 2 db r ≡ true)
      × (first (select (is_expected 1 newer 2 db) db.notes) ≡ some r)
      × IsSaved 12 newer r db saved_db)
    ⊎ ((true ≡ false) × All (λ r. is_expected 1 newer 2 db r ≡ false) db.notes × (saved_db ≡ db))
save-IsSaved_example = save-IsSaved 1 12 newer 2 db save_run
