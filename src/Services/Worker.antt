-- ===== src/Services/Worker.antt =====
-- worker.py, `IndexWorker.run` and `stop`. The moments at which the loop reads `_stopping` and the
-- clock are an argument, with the identifiers that a turn draws; each wait ends by itself or by
-- `stop`, which the next moment shows.
pub mod Drain
use rag_anotacoes_sdd.Prelude.{
  ℕ, Bool, true, false, List, [], ◌∷◌, Instant, Result, ok, err, if◌then◌else◌,
}
use rag_anotacoes_sdd.Persistence.Tables.{Tables}
use rag_anotacoes_sdd.Services.Indexing.{Ports, run_once}

pub record Moment : Type 0 where
  pub is_stopping : Bool
  pub now : Instant
  pub ports : Ports

-- What was processed in the turns so far, or the exception that has ended the loop.
abbrev pub followed_by : Bool → Result (List Bool) × Tables → Result (List Bool) × Tables
followed_by processed (ok later, t) = (ok (processed ∷ later), t)
followed_by processed (err e, t) = (err e, t)

abbrev pub go_on :
    (Tables → Result (List Bool) × Tables) → Result Bool × Tables → Result (List Bool) × Tables
go_on rest (ok processed, t) = followed_by processed (rest t)
go_on rest (err e, t) = (err e, t)

module _ (use_claim_function : Bool) (lease_seconds : ℕ) where
  -- `while not self._stopping.is_set()`, for as many moments as are given.
  unfoldable pub run : List Moment → Tables → Result (List Bool) × Tables
  run [] t = (ok [], t)
  run (m ∷ ms) t =
      let rest = run ms in
      if m.is_stopping
      then (ok [], t)
      else go_on rest (run_once m.ports m.now use_claim_function lease_seconds t)
