-- ===== src/Services/Worker/Drain.antt =====
-- The loop of the worker catches up with the queue, however the clock moves.
use rag_anotacoes_sdd.Prelude.{ℕ, ◌≤◌, ◌≡◌, Bool, true, List, ◌∷◌, ◌++◌, length, ok}
use rag_anotacoes_sdd.Persistence.Tables.{Tables}
use rag_anotacoes_sdd.Services.Indexing.Due.{due_jobs}
use rag_anotacoes_sdd.Services.Indexing.Attempts.{attempts_left}
use rag_anotacoes_sdd.Services.Worker.{Moment, run}

-- One of the turns comes, after as many turns as there are attempts left at most, to a queue in
-- which no job is due at its instant.
pub record CatchesUp (lease_seconds : ℕ) (ms : List Moment) (t : Tables) : Type 0 where
  pub before : List Moment
  pub turn : Moment
  pub after : List Moment
  pub split : ms ≡ before ++ turn ∷ after
  pub soon : length before ≤ attempts_left t.jobs
  pub processed : List Bool
  pub reached : Tables
  pub ran : run true lease_seconds before t ≡ (ok processed, reached)
  pub idle : due_jobs turn.now reached.jobs ≡ 0
