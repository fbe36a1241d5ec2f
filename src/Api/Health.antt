-- ===== src/Api/Health.antt =====
-- main.py: the readiness route. The two probes are arguments; the second is awaited only after the
-- first has answered that its part is ready.
use rag_anotacoes_sdd.Prelude.{Bool, not, codes, Result, ok, err, Error, ◌>>=◌, if◌then◌else◌}
use rag_anotacoes_sdd.Text.{Text}
use rag_anotacoes_sdd.Api.Auth.{api}

abbrev pub not_ready : Error
not_ready = api 503 (codes "not_ready") (codes "A aplicação ainda não está pronta.")

unfoldable pub ready : Result Bool → Result Bool → Result Text
ready database_probe model_probe = do
  database ← database_probe
  if not database
      then err not_ready
      else (do model ← model_probe; if not model then err not_ready else ok (codes "ready"))
