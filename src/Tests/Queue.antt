-- ===== src/Tests/Queue.antt =====
-- Runs and instances for the progress of the worker.
use rag_anotacoes_sdd.Prelude.{
  none, ◌≡◌, ◌<◌, ◌⊎◌, refl, true, false, List, [], ◌∷◌, ok, err, arith, model_unavailable,
}
use rag_anotacoes_sdd.Text.{is_space, lstrip, rstrip, strip, split_from, paragraphs_from, join}
use rag_anotacoes_sdd.Domain.Jobs.{pending_job, fail_transient}
use rag_anotacoes_sdd.Domain.Chunking
use rag_anotacoes_sdd.Persistence.Tables.{Tables, update_where}
use rag_anotacoes_sdd.Persistence.Transactions.{transaction, set_current_user}
use rag_anotacoes_sdd.Persistence.Inserts.{write_job}
use rag_anotacoes_sdd.Persistence.Jobs.{
  is_due, earliest, claimed_row, claim_indexing_job, note_for_job, fail,
}
use rag_anotacoes_sdd.Services.Indexing.{Ports, embedded, finish, process_note, process, run_once}
use rag_anotacoes_sdd.Services.Indexing.Due.{due_jobs}
use rag_anotacoes_sdd.Services.Indexing.Progress.{run_once-due_jobs}
use rag_anotacoes_sdd.Services.Worker.{Moment, run}
use rag_anotacoes_sdd.Prelude.{Instant}
use rag_anotacoes_sdd.Domain.Jobs.{IndexingJob, JobStatus, complete}
use rag_anotacoes_sdd.Persistence.Tables.{Vector}
use rag_anotacoes_sdd.Persistence.Transactions.{Db}
use rag_anotacoes_sdd.Persistence.Inserts.{insert_chunk, write_note}
use rag_anotacoes_sdd.Persistence.Jobs.{publish, delete_chunks, add_chunks}
use rag_anotacoes_sdd.Services.Indexing.{is_shaped}
use rag_anotacoes_sdd.Services.Indexing.Published.{IsPublished, process-IsPublished}
use rag_anotacoes_sdd.Prelude.{ℕ, zero, suc, ◌+◌, codes}
use rag_anotacoes_sdd.Tests.Isolation.{stored}

-- The embedding model is down.
abbrev ports : Ports
ports = record {
  embed = λ texts. err model_unavailable;
  embedding_model = [];
  clock = 31;
  fresh = λ i. i;
}

worker : Unit {0}
unfolding run_once process process_note embedded finish transaction pending_job is_due earliest
    claimed_row claim_indexing_job note_for_job set_current_user fail fail_transient write_job
    update_where is_space lstrip rstrip strip split_from paragraphs_from join Chunking.windows
    Chunking.add_paragraph Chunking.add_paragraphs Chunking.paragraphs Chunking.pieces_of
    Chunking.chunks_from Chunking.chunk_trimmed Chunking.chunk_note run due_jobs
worker = tt

abbrev after : Tables
after = (run_once ports 30 true 60 stored).1

turn_run : run_once ports 30 true 60 stored ≡ (ok false, after)
unfolding worker
turn_run = refl

run_once-due_jobs_example :
    (due_jobs 30 after.jobs < due_jobs 30 stored.jobs)
    ⊎ ((due_jobs 30 stored.jobs ≡ 0) × (after ≡ stored) × (false ≡ false))
run_once-due_jobs_example =
    run_once-due_jobs ports 30 60 stored (omega arith) (omega arith) turn_run

-- A turn every 100 seconds, with the model down at each.
abbrev moment : Instant → Moment
moment now = record { is_stopping = false; now = now; ports = record ports { clock = now + 1 } }

abbrev moments : List Moment
moments =
    moment 100000000
    ∷ moment 200000000
    ∷ moment 300000000
    ∷ moment 400000000
    ∷ moment 500000000
    ∷ moment 600000000
    ∷ []

-- A model that answers one vector.
abbrev zeros : ℕ → Vector
zeros zero = []
zeros (suc n) = 0 ∷ zeros n

abbrev answering : Ports
answering = record {
  embed = λ texts. ok (zeros 768 ∷ []);
  embedding_model = codes "m";
  clock = 30;
  fresh = λ i. i + 100;
}

abbrev job : IndexingJob
job = record (pending_job 11 3 1 1 10) { status = JobStatus.processing; attempt_count = 1 }

abbrev claimed : Db
claimed = record { tables = record stored { jobs = job ∷ [] }; current_user = none }

abbrev published : Db
published = (process answering 30 job claimed).1

published_run : process answering 30 job claimed ≡ (ok true, published)
unfolding worker write_note publish complete delete_chunks add_chunks insert_chunk is_shaped
published_run = refl

process-IsPublished_example : IsPublished answering 30 job claimed published
process-IsPublished_example = process-IsPublished answering 30 job claimed published_run
