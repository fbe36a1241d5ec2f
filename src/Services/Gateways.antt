-- ===== src/Services/Gateways.antt =====
-- runtime.py: each gateway runs one repository operation in a transaction of its own.
use rag_anotacoes_sdd.Prelude.{ℕ, Bool, Option, List, Uuid, Instant, Result}
use rag_anotacoes_sdd.Text.{Text}
use rag_anotacoes_sdd.Domain.Notes.{Note}
use rag_anotacoes_sdd.Domain.Users.{User, Session}
use rag_anotacoes_sdd.Persistence.Tables.{Tables}
use rag_anotacoes_sdd.Persistence.Transactions.{transaction, ◌>>◌}
use rag_anotacoes_sdd.Persistence.Accounts
use rag_anotacoes_sdd.Persistence.Notes
use rag_anotacoes_sdd.Persistence.Jobs

-- What a call through a gateway does to the stored tables.
abbrev pub Call : Type 0 → Type 0
Call A = Tables → Result A × Tables

-- `AuthGateway`
unfoldable pub user_by_username : Text → Call (Option User)
user_by_username canonical = transaction (Accounts.by_canonical_username canonical)

unfoldable pub user_by_id : Uuid → Call (Option User)
user_by_id user_id = transaction (Accounts.user_by_id user_id)

unfoldable pub add_user : User → Call (Unit {0})
add_user user = transaction (Accounts.add_user user)

unfoldable pub add_session : Session → Call (Unit {0})
add_session value = transaction (Accounts.add_session value)

unfoldable pub session_by_hash : Text → Call (Option Session)
session_by_hash token_hash = transaction (Accounts.by_token_hash token_hash)

unfoldable pub revoke_session : Uuid → Instant → Call (Unit {0})
revoke_session session_id now = transaction (Accounts.revoke_session session_id now)

-- `NoteGateway`, for the user that it was made for.
unfoldable pub add_note : Uuid → Uuid → Note → Call (Unit {0})
add_note user_id job_id note = transaction (Notes.prepare user_id >> Notes.add user_id job_id note)

unfoldable pub get_note : Uuid → Uuid → Call (Option Note)
get_note user_id note_id = transaction (Notes.prepare user_id >> Notes.get user_id note_id)

unfoldable pub list_notes : Uuid → ℕ → Option (Instant × Uuid) → Call (List Note)
list_notes user_id limit before =
    transaction (Notes.prepare user_id >> Notes.list user_id limit before)

unfoldable pub save_note : Uuid → Uuid → Note → ℕ → Call Bool
save_note user_id job_id note expected_version =
    transaction (Notes.prepare user_id >> Notes.save user_id job_id note expected_version)

unfoldable pub delete_note : Uuid → Uuid → Call Bool
delete_note user_id note_id = transaction (Notes.prepare user_id >> Notes.delete user_id note_id)

-- `RetryGateway`
unfoldable pub retry_failed : Uuid → Uuid → Instant → Call Bool
retry_failed note_id user_id now = transaction (Jobs.retry_failed note_id user_id now)
