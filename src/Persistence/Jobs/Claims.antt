-- ===== src/Persistence/Jobs/Claims.antt =====
-- Which job a claim takes, and that the SQL function claims it as `IndexingJob.claim` does.
use mathlib.Core.Path.{subst}
use rag_anotacoes_sdd.Prelude.{
  ℕ, ◌≡◌, refl, inl, inr, ap, Bool, true, false, Option, none, some, List, [], ◌∷◌, ◌++◌, All,
  select, ◌==◌, arith, Bool-cases, Option-cases, Instant, Result, ok,
}
use rag_anotacoes_sdd.Domain.Jobs.{IndexingJob, claim, is_claimable}
use rag_anotacoes_sdd.Persistence.Tables.{IndexingJobRecord, Tables, update_where}
use rag_anotacoes_sdd.Persistence.Transactions.{Db}
use rag_anotacoes_sdd.Persistence.Inserts.{attempts_fit}
use rag_anotacoes_sdd.Persistence.Jobs.{
  is_due, is_later, earliest, claimed_row, claim_indexing_job, update_claimed,
}

is_later_asym : (j k : IndexingJobRecord) → is_later j k ≡ true → is_later k j ≡ false
is_later_asym j k h = ground arith

is_later_trans :
    (j k x : IndexingJobRecord) → is_later j k ≡ false → is_later k x ≡ false → is_later j x ≡ false
is_later_trans j k x h g = ground arith

-- `r` is a row of `js` that passes the test, and none that passes it comes before it in order.
abbrev pub IsFirst :
    (IndexingJobRecord → Bool) → List IndexingJobRecord → IndexingJobRecord → Type 0
IsFirst p js r =
    (p r ≡ true)
    × ((before : List IndexingJobRecord) × (after : List IndexingJobRecord) × (js
          ≡ before ++ r ∷ after))
    × All (λ k. p k ≡ true → is_later r k ≡ false) js

earliest-none : (js : List IndexingJobRecord) → earliest js ≡ none → js ≡ []
unfolding earliest
earliest-none [] h = refl
earliest-none (j ∷ js) h = ground arith

module _ (p : IndexingJobRecord → Bool) where
  none_passes : (js : List IndexingJobRecord) → select p js ≡ [] → All (λ k. p k ≡ false) js
  none_passes [] h = tt
  none_passes (j ∷ js) h = elim (Bool-cases (p j)) [
    | inl e ↦ cc
    | inr e ↦ (e, none_passes js (ground arith))
  ]

  select-nil : (js : List IndexingJobRecord) → All (λ k. p k ≡ false) js → select p js ≡ []
  select-nil [] h = refl
  select-nil (j ∷ js) h = let rest = select-nil js h.1 in let here = h.0 in ground arith

  unordered :
      (r : IndexingJobRecord) (js : List IndexingJobRecord)
      → All (λ k. p k ≡ false) js
      → All (λ k. p k ≡ true → is_later r k ≡ false) js
  unordered r [] h = tt
  unordered r (j ∷ js) h = (λ e. cc, unordered r js h.1)

  still_first :
      (j r : IndexingJobRecord) (js : List IndexingJobRecord)
      → is_later j r ≡ false
      → All (λ k. p k ≡ true → is_later r k ≡ false) js
      → All (λ k. p k ≡ true → is_later j k ≡ false) js
  still_first j r [] e h = tt
  still_first j r (k ∷ js) e h =
      (λ passes. is_later_trans j r k e (h.0 passes), still_first j r js e h.1)

  is_later_refl : (j : IndexingJobRecord) → is_later j j ≡ false
  is_later_refl j = ground arith

  skip :
      (j r : IndexingJobRecord) (js : List IndexingJobRecord)
      → (p j ≡ true → is_later r j ≡ false)
      → IsFirst p js r
      → IsFirst p (j ∷ js) r
  skip j r js e (passes, (before, after, at), h) =
      (passes, (j ∷ before, after, ap (λ x. j ∷ x) at), (e, h))

  here :
      (j : IndexingJobRecord) (js : List IndexingJobRecord)
      → p j ≡ true
      → All (λ k. p k ≡ true → is_later j k ≡ false) js
      → IsFirst p (j ∷ js) j
  here j js e h = (e, ([], js, refl), (λ _. is_later_refl j, h))

  pub earliest-IsFirst :
      (js : List IndexingJobRecord) {r : IndexingJobRecord}
      → earliest (select p js) ≡ some r
      → IsFirst p js r
  unfolding earliest
  earliest-IsFirst [] h = cc
  earliest-IsFirst (j ∷ js) {r} h = elim (Bool-cases (p j)) [
    | inr e ↦ skip j r js (λ f. cc) (earliest-IsFirst js (ground arith))
    | inl e ↦ elim (Option-cases (earliest (select p js))) [
      | inl f ↦
          subst (IsFirst p (j ∷ js)) (ground arith)
            (here j js e (unordered j js (none_passes js (earliest-none (select p js) f))))
      | inr (k, f) ↦ elim (Bool-cases (is_later j k)) [
        | inl g ↦
            subst (IsFirst p (j ∷ js)) (ground arith)
              (skip j k js (λ _. is_later_asym j k g) (earliest-IsFirst js f))
        | inr g ↦
            let (passes, at, rest) = earliest-IsFirst js f in
            subst (IsFirst p (j ∷ js)) (ground arith) (here j js e (still_first j k js g rest))
      ]
    ]
  ]

claim-claimed_row :
    (now : Instant) (lease_seconds : ℕ) (r : IndexingJobRecord)
    → is_due now r ≡ true
    → claim r now lease_seconds ≡ ok (claimed_row now lease_seconds r)
unfolding claimed_row claim is_claimable is_due
claim-claimed_row now lease_seconds r h = ground arith

abbrev written : Instant → ℕ → IndexingJobRecord → Tables → Tables
written now lease_seconds r t = record t {
  jobs = update_where (λ j. j.id == r.id) (claimed_row now lease_seconds) t.jobs;
}

update_claimed_lem :
    (now : Instant) (lease_seconds : ℕ) (r : IndexingJobRecord) (db : Db) {o : Option IndexingJob}
    {db' : Db}
    → ◌≡◌ {A = Result (Option IndexingJob) × Db}
        (update_claimed now lease_seconds (some r) db)
        (ok o, db')
    → (o ≡ some (claimed_row now lease_seconds r))
      × (db'.tables ≡ written now lease_seconds r db.tables)
update_claimed_lem now lease_seconds r db {o} {db'} h =
    elim (Bool-cases (attempts_fit (claimed_row now lease_seconds r))) [
      | inl e ↦ (ground arith, ground arith)
      | inr e ↦ ground arith
    ]

-- The worker's claim takes a due job, with none due before it by `available_at` and `created_at`.
-- The job that it returns is what `IndexingJob.claim` makes of the row, the SQL function writes
-- just this into the rows of that id, and no other table changes.
pub claim_indexing_job-Claims :
    (now : Instant) (lease_seconds : ℕ) (db : Db) {job : IndexingJob} {db' : Db}
    → claim_indexing_job now lease_seconds db ≡ (ok (some job), db')
    → (r : IndexingJobRecord) × IsFirst (is_due now) db.jobs r
      × (claim r now lease_seconds ≡ ok job)
      × (db'.tables ≡ record (db.tables) {
        jobs = update_where (λ j. j.id == r.id) (claimed_row now lease_seconds) db.jobs;
      })
unfolding claim_indexing_job
claim_indexing_job-Claims now lease_seconds db {job} {db'} h =
    elim (Option-cases (earliest (select (is_due now) db.jobs))) [
      | inl e ↦ let stuck = subst (λ o. Updates o (some job) db') e h in cc
      | inr (r, e) ↦
          let first = earliest-IsFirst (is_due now) db.jobs e in
          let (same, tables) =
            update_claimed_lem now lease_seconds r db (subst (λ o. Updates o (some job) db') e h) in
          let claims = claim-claimed_row now lease_seconds r first.0 in
          (r, first, ground arith, tables)
    ]
  where
    Updates : Option IndexingJobRecord → Option IndexingJob → Db → Type 0
    Updates o result after =
        ◌≡◌ {A = Result (Option IndexingJob) × Db} (update_claimed now lease_seconds o db)
          (ok result, after)

pub claim_indexing_job-none_iff :
    (now : Instant) (lease_seconds : ℕ) (db : Db)
    → ((db' : Db)
        → claim_indexing_job now lease_seconds db ≡ (ok none, db')
        → All (λ k. is_due now k ≡ false) db.jobs × (db' ≡ db))
      × (All (λ k. is_due now k ≡ false) db.jobs
          → claim_indexing_job now lease_seconds db ≡ (ok none, db))
unfolding claim_indexing_job earliest
claim_indexing_job-none_iff now lease_seconds db = (
  λ db' h. elim (Option-cases (earliest (select (is_due now) db.jobs))) [
    | inl e ↦ (
      none_passes (is_due now) db.jobs (earliest-none (select (is_due now) db.jobs) e),
      let same = subst (λ o. Updates o none db') e h in ground arith,
    )
    | inr (r, e) ↦
        let (same, _) =
          update_claimed_lem now lease_seconds r db (subst (λ o. Updates o none db') e h) in
        cc
  ],
  λ idle. rw (select-nil (is_due now) db.jobs idle, earliest) refl,
)
  where
    Updates : Option IndexingJobRecord → Option IndexingJob → Db → Type 0
    Updates o result after =
        ◌≡◌ {A = Result (Option IndexingJob) × Db} (update_claimed now lease_seconds o db)
          (ok result, after)
