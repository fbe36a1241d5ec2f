-- ===== src/Persistence/Accounts.antt =====
-- persistence/repositories.py, `UserRepository` and `SessionRepository`.
use rag_anotacoes_sdd.Prelude.{Option, some, select, first, ◌==◌, Uuid, Instant}
use rag_anotacoes_sdd.Text.{Text, text_eq}
use rag_anotacoes_sdd.Domain.Users.{User, Session}
use rag_anotacoes_sdd.Persistence.Tables.{update_where}
use rag_anotacoes_sdd.Persistence.Transactions.{Tx, gets, modify}
use rag_anotacoes_sdd.Persistence.Inserts.{insert_user, insert_session}

unfoldable pub by_canonical_username : Text → Tx (Option User)
by_canonical_username username =
    gets λ db. first (select (λ u. text_eq u.username_canonical username) db.users)

unfoldable pub user_by_id : Uuid → Tx (Option User)
user_by_id user_id = gets λ db. first (select (λ u. u.id == user_id) db.users)

unfoldable pub add_user : User → Tx (Unit {0})
add_user user = insert_user user

unfoldable pub add_session : Session → Tx (Unit {0})
add_session value = insert_session value

unfoldable pub by_token_hash : Text → Tx (Option Session)
by_token_hash token_hash =
    gets λ db. first (select (λ s. text_eq s.token_hash token_hash) db.sessions)

-- `revoke`: nothing happens where there is no such session.
unfoldable pub revoke_session : Uuid → Instant → Tx (Unit {0})
revoke_session session_id now = modify λ t. record t {
  sessions =
      update_where (λ s. s.id == session_id) (λ s. record s { revoked_at = some now }) t.sessions;
}
