-- ===== src/Tests/Notes.antt =====
-- Runs and instances for the note service over the stored tables.
use mathlib.Core.List.{Permᴰ}
use rag_anotacoes_sdd.Prelude.{
  ◌≡◌, refl, none, some, select, length, min, List, ◌&&◌, [], ◌∷◌, codes, ok,
}
use rag_anotacoes_sdd.Text.{is_space, lstrip, rstrip, strip}
use rag_anotacoes_sdd.Domain.Notes
use rag_anotacoes_sdd.Domain.Notes.{Note, SemanticStatus, validate_text}
use rag_anotacoes_sdd.Domain.Users.{User}
use rag_anotacoes_sdd.Domain.Jobs.{pending_job}
use rag_anotacoes_sdd.Persistence.Tables.{Tables}
use rag_anotacoes_sdd.Persistence.Transactions.{
  Db, transaction, set_current_user, assert_current_user,
}
use rag_anotacoes_sdd.Persistence.Inserts.{insert_note, insert_job}
use rag_anotacoes_sdd.Persistence.Notes as Repository
use rag_anotacoes_sdd.Persistence.Notes.Pages.{IsOrdered, list-IsPage}
use rag_anotacoes_sdd.Services.Gateways.{add_note}
use rag_anotacoes_sdd.Services.Notes.{gateway, create, get}
use rag_anotacoes_sdd.Services.Notes.Stored.{create-get}

abbrev ana : User
ana = record {
  id = 1;
  username = codes "ana";
  username_canonical = codes "ana";
  password_hash = codes "h";
  created_at = 0;
  updated_at = 0;
}

abbrev before : Tables
before = record { users = ana ∷ []; sessions = []; notes = []; chunks = []; jobs = [] }

abbrev note : Note
note = record {
  id = 21;
  user_id = 1;
  title = codes "T";
  content = codes "E";
  version = 1;
  semantic_status = SemanticStatus.pending;
  semantic_error_code = none;
  created_at = 50;
  updated_at = 50;
  semantic_updated_at = some 50;
}

abbrev after : Tables
after = record before { notes = note ∷ []; jobs = pending_job 22 21 1 1 50 ∷ [] }

create_run : create (gateway 1) 1 21 22 50 (codes " T") (codes "E ") before ≡ (ok note, after)
unfolding is_space lstrip rstrip strip validate_text Notes.create pending_job transaction
    set_current_user assert_current_user insert_note insert_job Repository.prepare Repository.add
    add_note create
create_run = refl

create-get_example : get (gateway 1) 1 21 after ≡ (ok note, after)
create-get_example = create-get 1 21 22 50 (codes " T") (codes "E ") before create_run

abbrev later : Note
later = record note { id = 23; updated_at = 60 }

abbrev of_other : Note
of_other = record note { id = 24; user_id = 2; updated_at = 70 }

abbrev db : Db
db = record {
  tables = record before { notes = note ∷ of_other ∷ later ∷ [] };
  current_user = some 1;
}

list_run : Repository.list 1 1 none db ≡ (ok (later ∷ []), db)
unfolding Repository.list Repository.sort_notes Repository.insert_sorted
list_run = refl

list-IsPage_example :
    (rest : List Note) × IsOrdered (later ∷ rest)
    × Permᴰ
        (select (λ r. Repository.is_owned 1 db r && Repository.is_after none r) db.notes)
        (later ∷ rest)
    × (1 ≡ min 1 (length (later ∷ rest)))
    × (db ≡ db)
list-IsPage_example = list-IsPage 1 1 none db list_run
