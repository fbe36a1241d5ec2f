-- ===== src/Tests/Store.antt =====
-- Runs and instances for the repositories and the retrieval over stored tables.
use rag_anotacoes_sdd.Prelude.{ℕ, zero, suc, ◌==◌, ◌≡◌, refl, none, some, [], ◌∷◌, codes, ok, arith}
use rag_anotacoes_sdd.Text.{is_space, lstrip, rstrip, strip}
use rag_anotacoes_sdd.Domain.Notes.{Note, SemanticStatus}
use rag_anotacoes_sdd.Domain.Jobs.{IndexingJob, pending_job, claim}
use rag_anotacoes_sdd.Persistence.Tables.{NoteChunkRecord, Vector, update_where}
use rag_anotacoes_sdd.Persistence.Transactions.{Db, set_current_user}
use rag_anotacoes_sdd.Persistence.Jobs.{is_due, earliest, claimed_row, claim_indexing_job}
use rag_anotacoes_sdd.Persistence.Jobs.Claims.{IsFirst, claim_indexing_job-Claims}
use rag_anotacoes_sdd.Services.Retrieval
use rag_anotacoes_sdd.Services.Retrieval.{RetrievalResult, search}
use rag_anotacoes_sdd.Services.Retrieval.Results.{AreResults, IsRow, search-AreResults}

abbrev zeros : ℕ → Vector
zeros zero = []
zeros (suc n) = 0 ∷ zeros n

abbrev note : Note
note = record {
  id = 3;
  user_id = 1;
  title = codes "T";
  content = codes "E";
  version = 2;
  semantic_status = SemanticStatus.ready;
  semantic_error_code = none;
  created_at = 0;
  updated_at = 0;
  semantic_updated_at = none;
}

abbrev chunk : NoteChunkRecord
chunk = record {
  id = 8;
  note_id = 3;
  user_id = 1;
  note_version = 2;
  ordinal = 0;
  text = codes "T E";
  token_count = 2;
  embedding = zeros 768;
  embedding_model = [];
  created_at = 0;
}

abbrev first_job : IndexingJob
first_job = pending_job 11 3 1 2 20

abbrev second_job : IndexingJob
second_job = pending_job 12 4 1 1 10

abbrev db : Db
db = record {
  tables = record {
    users = [];
    sessions = [];
    notes = note ∷ [];
    chunks = chunk ∷ [];
    jobs = first_job ∷ second_job ∷ [];
  };
  current_user = none;
}

store : Unit {0}
unfolding pending_job is_due earliest claimed_row claim_indexing_job update_where
store = tt

abbrev claimed_db : Db
claimed_db = record {
  tables = record (db.tables) { jobs = first_job ∷ claimed_row 30 5 second_job ∷ [] };
  current_user = none;
}

claim_run : claim_indexing_job 30 5 db ≡ (ok (some (claimed_row 30 5 second_job)), claimed_db)
unfolding store
claim_run = refl

claim_indexing_job-Claims_example :
    (r : IndexingJob) × IsFirst (is_due 30) db.jobs r
    × (claim r 30 5 ≡ ok (claimed_row 30 5 second_job))
    × (claimed_db.tables
        ≡ record (db.tables) { jobs = update_where (λ j. j.id == r.id) (claimed_row 30 5) db.jobs })
claim_indexing_job-Claims_example = claim_indexing_job-Claims 30 5 db claim_run

abbrev ports : Retrieval.Ports
ports = record { embed = λ ts. ok (zeros 768 ∷ []); cosine_distance = λ v w. 10; one = 100 }

abbrev settings : Retrieval.Settings
settings = record { minimum_similarity = 55; default_limit = 5 }

abbrev result : RetrievalResult
result = record { note_id = 3; title = codes "T"; excerpt = codes "T E"; similarity = 90 }

search_run :
    search ports settings 1 (codes " q ") none db
    ≡ (ok (result ∷ []), record db { current_user = some 1 })
unfolding set_current_user is_space strip lstrip rstrip search Retrieval.collect
    Retrieval.rows_of_chunk Retrieval.join_rows Retrieval.insert_row Retrieval.sort_rows
search_run = refl

search-AreResults_example :
    (vector : Vector) × (ports.embed (strip (codes " q ") ∷ []) ≡ ok (vector ∷ []))
    × AreResults 100 5 (IsRow ports settings 1 vector db.chunks db.notes) (result ∷ [])
search-AreResults_example =
    search-AreResults ports settings 1 (codes " q ") none db (omega arith) search_run
