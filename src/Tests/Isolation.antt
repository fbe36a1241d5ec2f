-- ===== src/Tests/Isolation.antt =====
-- Stored tables that calls of two users and of the worker lead to.
use rag_anotacoes_sdd.Prelude.{
  ◌≡◌, refl, none, List, [], ◌∷◌, codes, Uuid, Instant, ok, arith, ℕ, Option,
}
use rag_anotacoes_sdd.Text.{Text, text_eq}
use rag_anotacoes_sdd.Domain.Notes.{Note, SemanticStatus}
use rag_anotacoes_sdd.Domain.Users.{User, Session}
use rag_anotacoes_sdd.Domain.Jobs.{pending_job}
use rag_anotacoes_sdd.Persistence.Tables.{Tables}
use rag_anotacoes_sdd.Persistence.Transactions.{transaction, set_current_user, assert_current_user}
use rag_anotacoes_sdd.Persistence.Inserts.{insert_user, insert_session, insert_note, insert_job}
use rag_anotacoes_sdd.Persistence.Accounts as Accounts
use rag_anotacoes_sdd.Persistence.Notes as Repository
use rag_anotacoes_sdd.Persistence.Ownership.{IsOwned, rows_of}
use rag_anotacoes_sdd.Services.Gateways.{add_user, add_session, add_note, get_note, list_notes}
use rag_anotacoes_sdd.Services.Retrieval.{Ports, Settings, search}
use rag_anotacoes_sdd.Services.Isolation.{
  Reachable, empty, start, step, user_added, session_added, called, added,
}
use rag_anotacoes_sdd.Services.Isolation.Reach.{Reachable-IsOwned, NoteCall-rows_of}
use rag_anotacoes_sdd.Services.Isolation.Reads.{NoteCall-reads}

abbrev user_of : Uuid → Text → User
user_of id name = record {
  id = id;
  username = name;
  username_canonical = name;
  password_hash = codes "h";
  created_at = 0;
  updated_at = 0;
}

abbrev pub session : Session
session = record {
  id = 7;
  user_id = 1;
  token_hash = codes "st";
  csrf_token_hash = codes "sc";
  created_at = 5;
  last_seen_at = 5;
  expires_at = 60000005;
  revoked_at = none;
}

abbrev pub note_of : Uuid → Uuid → Instant → Note
note_of id user_id now = record {
  id = id;
  user_id = user_id;
  title = codes "T";
  content = codes "E";
  version = 1;
  semantic_status = SemanticStatus.pending;
  semantic_error_code = none;
  created_at = now;
  updated_at = now;
  semantic_updated_at = none;
}

abbrev tables_with : List User → List Session → List Note → Tables
tables_with users sessions notes = record {
  users = users;
  sessions = sessions;
  notes = notes;
  chunks = [];
  jobs = [];
}

-- Two users, a session of the first, and a note of the first with its job.
abbrev users : List User
users = user_of 1 (codes "ana") ∷ user_of 2 (codes "bia") ∷ []

abbrev pub stored : Tables
stored = record (tables_with users (session ∷ []) (note_of 3 1 10 ∷ [])) {
  jobs = pending_job 11 3 1 1 10 ∷ [];
}

stored_lem : Unit {0}
unfolding transaction insert_user insert_session insert_note insert_job pending_job text_eq
    Accounts.add_user Accounts.add_session Repository.add Repository.prepare set_current_user
    assert_current_user add_user add_session add_note
stored_lem = tt

first_user :
    add_user (user_of 1 (codes "ana")) empty
    ≡ (ok tt, tables_with (user_of 1 (codes "ana") ∷ []) [] [])
unfolding stored_lem
first_user = refl

second_user :
    add_user (user_of 2 (codes "bia")) (tables_with (user_of 1 (codes "ana") ∷ []) [] [])
    ≡ (ok tt, tables_with users [] [])
unfolding stored_lem
second_user = refl

session_run :
    add_session session (tables_with users [] []) ≡ (ok tt, tables_with users (session ∷ []) [])
unfolding stored_lem
session_run = refl

note_run : add_note 1 11 (note_of 3 1 10) (tables_with users (session ∷ []) []) ≡ (ok tt, stored)
unfolding stored_lem
note_run = refl

pub stored-Reachable : Reachable stored
stored-Reachable =
    step
      (step
        (step (step start (user_added (user_of 1 (codes "ana")) (ok tt) first_user))
          (user_added (user_of 2 (codes "bia")) (ok tt) second_user))
        (session_added session (ok tt) session_run))
      (called 1 (added 11 (note_of 3 1 10) (ok tt) note_run))

-- A second note of the first user.
abbrev pub both_stored : Tables
both_stored = record stored {
  notes = note_of 3 1 10 ∷ note_of 5 1 12 ∷ [];
  jobs = pending_job 11 3 1 1 10 ∷ pending_job 13 5 1 1 12 ∷ [];
}

both_run : add_note 1 13 (note_of 5 1 12) stored ≡ (ok tt, both_stored)
unfolding stored_lem
both_run = refl

pub both_stored-Reachable : Reachable both_stored
both_stored-Reachable =
    step stored-Reachable (called 1 (added 13 (note_of 5 1 12) (ok tt) both_run))

-- A note of the other user.
abbrev later : Tables
later = record stored {
  notes = note_of 3 1 10 ∷ note_of 4 2 20 ∷ [];
  jobs = pending_job 11 3 1 1 10 ∷ pending_job 12 4 2 1 20 ∷ [];
}

later_run : add_note 2 12 (note_of 4 2 20) stored ≡ (ok tt, later)
unfolding stored_lem
later_run = refl

Reachable-IsOwned_example : IsOwned stored
Reachable-IsOwned_example = Reachable-IsOwned stored-Reachable

NoteCall-rows_of_example : rows_of 1 later ≡ rows_of 1 stored
NoteCall-rows_of_example =
    NoteCall-rows_of {u = 2} 1 stored-Reachable (added 12 (note_of 4 2 20) (ok tt) later_run)
      (omega arith)

NoteCall-reads_example :
    ((id : Uuid) → (get_note 1 id later).0 ≡ (get_note 1 id stored).0)
    × ((limit : ℕ) (before : Option (Instant × Uuid))
        → (list_notes 1 limit before later).0 ≡ (list_notes 1 limit before stored).0)
    × ((p : Ports) (s : Settings) (query : Text) (limit : Option ℕ)
        → (transaction (search p s 1 query limit) later).0
          ≡ (transaction (search p s 1 query limit) stored).0)
NoteCall-reads_example =
    NoteCall-reads {v = 2} 1 stored-Reachable (added 12 (note_of 4 2 20) (ok tt) later_run)
      (omega arith)
