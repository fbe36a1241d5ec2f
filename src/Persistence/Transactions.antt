-- ===== src/Persistence/Transactions.antt =====
-- A database transaction: the tables with the transaction-local user of row-level security
-- (persistence/rls.py), actions that may raise, and `session.begin()`, which commits or rolls back.
use rag_anotacoes_sdd.Prelude.{
  ◌≡◌, refl, ap, ◌∙◌, ◌⊎◌, inl, inr, arith, Bool, true, false, Option, none, some, ◌==◌, Uuid,
  Result, ok, err, Error, rls_context_missing,
}
use rag_anotacoes_sdd.Persistence.Tables.{Tables}

-- `current_user` is the setting `app.current_user_id`; each transaction begins without it.
pub record Db : Type 0 where
  pub tables : Tables
  pub open tables use *
  pub current_user : Option Uuid

abbrev pub Tx : Type 0 → Type 0
Tx A = Db → Result A × Db

abbrev pub pure : {A : Type 0} → A → Tx A
pure a db = (ok a, db)

abbrev pub raise : {A : Type 0} → Error → Tx A
raise e db = (err e, db)

abbrev pub lift : {A : Type 0} → Result A → Tx A
lift r db = (r, db)

abbrev pub gets : {A : Type 0} → (Db → A) → Tx A
gets f db = (ok (f db), db)

abbrev pub modify : (Tables → Tables) → Tx (Unit {0})
modify f db = (ok tt, record db { tables = f db.tables })

abbrev continue_with : {A B : Type 0} → Result A → (A → Tx B) → Tx B
continue_with (ok a) f db = f a db
continue_with (err e) f db = (err e, db)

infixl 5 ◌>>=◌ ◌>>◌
abbrev pub ◌>>=◌ : {A B : Type 0} → Tx A → (A → Tx B) → Tx B
◌>>=◌ m f db = let (r, db') = m db in continue_with r f db'

abbrev pub ◌>>◌ : {A B : Type 0} → Tx A → Tx B → Tx B
m >> n = m >>= λ _. n

-- A chain that returns has a first action that returned, in the state where the rest began.
pub then_inversion :
    {A B : Type 0} (m : Tx A) (f : A → Tx B) (db : Db) {b : B} {db' : Db}
    → ◌≡◌ {A = Result B × Db} ((m >>= f) db) (ok b, db')
    → (a : A) × (middle : Db) × (◌≡◌ {A = Result A × Db} (m db) (ok a, middle))
      × (f a middle ≡ (ok b, db'))
then_inversion {A} {B} m f db {b} {db'} h = by_result (m db) refl h
  where
    by_result :
        (x : Result A × Db)
        → m db ≡ x
        → ◌≡◌ {A = Result B × Db} (continue_with x.0 f x.1) (ok b, db')
        → (a : A) × (middle : Db) × (◌≡◌ {A = Result A × Db} (m db) (ok a, middle))
          × (f a middle ≡ (ok b, db'))
    by_result (ok a, middle) e h = (a, middle, e, h)
    by_result (err a, middle) e h = cc

abbrev pub check : Bool → Error → Tx (Unit {0})
check true e = pure tt
check false e = raise e

-- `set_current_user`
unfoldable pub set_current_user : Uuid → Tx (Unit {0})
set_current_user user_id db = (ok tt, record db { current_user = some user_id })

-- The `USING` and `WITH CHECK` clauses of the owner policies: a row of another owner, or any row
-- where no user is set, is as if it were not there.
abbrev pub is_owner : Option Uuid → Uuid → Bool
is_owner none user_id = false
is_owner (some current) user_id = user_id == current

-- `assert_current_user`
unfoldable pub assert_current_user : Uuid → Tx (Unit {0})
assert_current_user expected db = check (is_owner db.current_user expected) rls_context_missing db

abbrev pub commit : {A : Type 0} → Tables → Result A × Db → Result A × Tables
commit before (ok a, db) = (ok a, db.tables)
commit before (err e, db) = (err e, before)

-- `async with sessions() as session, session.begin()`: what raises is rolled back.
unfoldable pub transaction : {A : Type 0} → Tx A → Tables → Result A × Tables
transaction m tables = commit tables (m (record { tables = tables; current_user = none }))

-- A transaction stores what its actions did, or nothing.
pub transaction_cases :
    {A : Type 0} (m : Tx A) (t : Tables) {r : Result A} {t' : Tables}
    → transaction m t ≡ (r, t')
    → ((a : A) × (db : Db) × (◌≡◌ {A = Result A × Db}
          (m (record { tables = t; current_user = none }))
          (ok a, db))
        × (t' ≡ db.tables))
      ⊎ (t' ≡ t)
unfolding transaction
transaction_cases {A} m t {r} {t'} h =
    by_result (m (record { tables = t; current_user = none })) refl h
  where
    by_result :
        (x : Result A × Db)
        → m (record { tables = t; current_user = none }) ≡ x
        → ◌≡◌ {A = Result A × Tables} (commit t x) (r, t')
        → ((a : A) × (db : Db) × (◌≡◌ {A = Result A × Db}
              (m (record { tables = t; current_user = none }))
              (ok a, db))
            × (t' ≡ db.tables))
          ⊎ (t' ≡ t)
    by_result (ok a, db) e h = inl (a, db, e, ground arith)
    by_result (err x, db) e h = inr (ground arith)

-- A transaction that returns stores what its actions did.
pub transaction_ok :
    {A : Type 0} (m : Tx A) (t : Tables) {a : A} {t' : Tables}
    → transaction m t ≡ (ok a, t')
    → (db : Db) × (◌≡◌ {A = Result A × Db}
        (m (record { tables = t; current_user = none }))
        (ok a, db))
      × (t' ≡ db.tables)
unfolding transaction
transaction_ok {A} m t {a} {t'} h =
    by_result (m (record { tables = t; current_user = none })) refl h
  where
    by_result :
        (x : Result A × Db)
        → m (record { tables = t; current_user = none }) ≡ x
        → ◌≡◌ {A = Result A × Tables} (commit t x) (ok a, t')
        → (db : Db) × (◌≡◌ {A = Result A × Db}
            (m (record { tables = t; current_user = none }))
            (ok a, db))
          × (t' ≡ db.tables)
    by_result (ok b, db) e h = (db, e ∙ ap (λ (r : Result A × Tables). (r.0, db)) h, ground arith)
    by_result (err x, db) e h = cc
