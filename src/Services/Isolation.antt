-- ===== src/Services/Isolation.antt =====
-- The calls that change the stored tables, in any order: those of the gateways of runtime.py, of
-- each user, and the worker's `run_once`.
pub mod Calls
pub mod Worker
pub mod Reach
pub mod Reads
use rag_anotacoes_sdd.Prelude.{ℕ, Bool, Option, List, [], Uuid, Instant, Result, ◌≡◌}
use rag_anotacoes_sdd.Text.{Text}
use rag_anotacoes_sdd.Domain.Notes.{Note}
use rag_anotacoes_sdd.Domain.Users.{User, Session}
use rag_anotacoes_sdd.Persistence.Tables.{Tables}
use rag_anotacoes_sdd.Services.Gateways.{
  add_user, add_session, revoke_session, add_note, get_note, list_notes, save_note, delete_note,
  retry_failed,
}
use rag_anotacoes_sdd.Services.Indexing.{Ports, run_once}

-- A call through the gateways of the user `u`, whatever it returns or raises.
pub data NoteCall (u : Uuid) (t t' : Tables) : Type 0 where
  added :
      (job_id : Uuid) (note : Note) (r : Result (Unit {0}))
      → add_note u job_id note t ≡ (r, t')
      → NoteCall u t t'
  got : (id : Uuid) (r : Result (Option Note)) → get_note u id t ≡ (r, t') → NoteCall u t t'
  listed :
      (limit : ℕ) (before : Option (Instant × Uuid)) (r : Result (List Note))
      → list_notes u limit before t ≡ (r, t')
      → NoteCall u t t'
  saved :
      (job_id : Uuid) (note : Note) (expected_version : ℕ) (r : Result Bool)
      → save_note u job_id note expected_version t ≡ (r, t')
      → NoteCall u t t'
  deleted : (id : Uuid) (r : Result Bool) → delete_note u id t ≡ (r, t') → NoteCall u t t'
  retried :
      (id : Uuid) (now : Instant) (r : Result Bool)
      → retry_failed id u now t ≡ (r, t')
      → NoteCall u t t'

pub data Step (t t' : Tables) : Type 0 where
  user_added : (user : User) (r : Result (Unit {0})) → add_user user t ≡ (r, t') → Step t t'
  session_added :
      (value : Session) (r : Result (Unit {0})) → add_session value t ≡ (r, t') → Step t t'
  session_revoked :
      (id : Uuid) (now : Instant) (r : Result (Unit {0}))
      → revoke_session id now t ≡ (r, t')
      → Step t t'
  called : (u : Uuid) → NoteCall u t t' → Step t t'
  worked :
      (p : Ports) (now : Instant) (use_claim_function : Bool) (lease_seconds : ℕ) (r : Result Bool)
      → run_once p now use_claim_function lease_seconds t ≡ (r, t')
      → Step t t'

-- The tables after the migrations.
abbrev pub empty : Tables
empty = record { users = []; sessions = []; notes = []; chunks = []; jobs = [] }

-- What any calls, in any order, lead to.
pub data Reachable : Tables → Type 0 where
  start : Reachable empty
  step : {t t' : Tables} → Reachable t → Step t t' → Reachable t'
