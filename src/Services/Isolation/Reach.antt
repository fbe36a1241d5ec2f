-- ===== src/Services/Isolation/Reach.antt =====
-- What holds of the tables after any calls, and what a user's calls leave to the others.
use rag_anotacoes_sdd.Prelude.{◌≡◌, ◌≢◌, inl, inr, refl, Uuid, Instant, Result, [], arith}
use rag_anotacoes_sdd.Domain.Users.{User, Session}
use rag_anotacoes_sdd.Persistence.Tables.{Tables}
use rag_anotacoes_sdd.Persistence.Inserts.{insert_user, insert_session}
use rag_anotacoes_sdd.Persistence.Transactions.{transaction_cases}
use rag_anotacoes_sdd.Persistence.Accounts as Accounts
use rag_anotacoes_sdd.Persistence.Notes.Strict.{AreDistinct}
use rag_anotacoes_sdd.Persistence.Ownership.{IsOwned, rows_of}
use rag_anotacoes_sdd.Persistence.Ownership.Kept.{Writes-IsOwned, Writes-rows_of}
use rag_anotacoes_sdd.Services.Gateways.{add_user, add_session, revoke_session}
use rag_anotacoes_sdd.Services.Isolation.{
  NoteCall, Step, Reachable, start, step, user_added, session_added, session_revoked, called,
  worked,
}
use rag_anotacoes_sdd.Services.Isolation.Calls.{NoteCall-Writes}
use rag_anotacoes_sdd.Services.Isolation.Worker.{run_once-IsOwned}

-- The tables of users and sessions are no one's rows.
record SameRows (t t' : Tables) : Type 0 where
  notes : t'.notes ≡ t.notes
  chunks : t'.chunks ≡ t.chunks
  jobs : t'.jobs ≡ t.jobs

kept : {t t' : Tables} → SameRows t t' → IsOwned t → IsOwned t'
kept s own = record {
  ids = rw s.notes own.ids;
  notes = rw s.notes own.notes;
  jobs = rw (s.notes, s.jobs) own.jobs;
  chunks = rw (s.notes, s.chunks) own.chunks;
}

add_user-SameRows :
    (user : User) (t : Tables) {r : Result (Unit {0})} {t' : Tables}
    → add_user user t ≡ (r, t')
    → SameRows t t'
unfolding add_user Accounts.add_user insert_user
add_user-SameRows user t {r} {t'} h = elim (transaction_cases (Accounts.add_user user) t h) [
  | inl (a, db, e, same) ↦
      rw same (record { notes = ground arith; chunks = ground arith; jobs = ground arith })
  | inr same ↦ rw same (record { notes = refl; chunks = refl; jobs = refl })
]

add_session-SameRows :
    (value : Session) (t : Tables) {r : Result (Unit {0})} {t' : Tables}
    → add_session value t ≡ (r, t')
    → SameRows t t'
unfolding add_session Accounts.add_session insert_session
add_session-SameRows value t {r} {t'} h =
    elim (transaction_cases (Accounts.add_session value) t h) [
      | inl (a, db, e, same) ↦
          rw same (record { notes = ground arith; chunks = ground arith; jobs = ground arith })
      | inr same ↦ rw same (record { notes = refl; chunks = refl; jobs = refl })
    ]

revoke_session-SameRows :
    (id : Uuid) (now : Instant) (t : Tables) {r : Result (Unit {0})} {t' : Tables}
    → revoke_session id now t ≡ (r, t')
    → SameRows t t'
unfolding revoke_session Accounts.revoke_session
revoke_session-SameRows id now t {r} {t'} h =
    elim (transaction_cases (Accounts.revoke_session id now) t h) [
      | inl (a, db, e, same) ↦
          rw same (record { notes = ground arith; chunks = ground arith; jobs = ground arith })
      | inr same ↦ rw same (record { notes = refl; chunks = refl; jobs = refl })
    ]

AreDistinct-nil : AreDistinct []
unfolding AreDistinct
AreDistinct-nil = tt

Step-IsOwned : {t t' : Tables} → Step t t' → IsOwned t → IsOwned t'
Step-IsOwned {t} (user_added user r e) own = kept (add_user-SameRows user t e) own
Step-IsOwned {t} (session_added value r e) own = kept (add_session-SameRows value t e) own
Step-IsOwned {t} (session_revoked id now r e) own = kept (revoke_session-SameRows id now t e) own
Step-IsOwned (called u c) own = Writes-IsOwned (NoteCall-Writes own c) own
Step-IsOwned {t} (worked p now use_claim_function lease_seconds r e) own =
    run_once-IsOwned p now use_claim_function lease_seconds t own e

-- After any calls of any users and of the worker, in any order and whatever they raise, no two
-- notes have the same identifier, and every job and every chunk is for a note that is
-- there and has the same owner.
pub Reachable-IsOwned : {t : Tables} → Reachable t → IsOwned t
Reachable-IsOwned start = record { ids = AreDistinct-nil; notes = tt; jobs = tt; chunks = tt }
Reachable-IsOwned (step s c) = Step-IsOwned c (Reachable-IsOwned s)

-- A call through the gateways of one user, after any calls, leaves the notes, the chunks and the
-- jobs of every other user as they are.
pub NoteCall-rows_of :
    {u : Uuid} {t t' : Tables} (v : Uuid)
    → Reachable t
    → NoteCall u t t'
    → u ≢ v
    → rows_of v t' ≡ rows_of v t
NoteCall-rows_of v s c apart =
    let own = Reachable-IsOwned s in Writes-rows_of v apart own (NoteCall-Writes own c)
