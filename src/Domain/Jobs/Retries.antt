-- ===== src/Domain/Jobs/Retries.antt =====
-- A job whose every attempt fails: the delays double from 1 to 16 seconds, and the fifth failure
-- is final.
use rag_anotacoes_sdd.Prelude.{
  ℕ, zero, suc, ◌+◌, ◌-◌, ◌^◌, min, ◌≤◌, ◌<◌, ◌≡◌, ◌⊎◌, ◌↔◌, refl, true, List, [], ◌∷◌, Instant,
  Uuid, seconds, length, leb, if◌then◌else◌, some, none, inl, arith, ok, Result, ◌>>=◌,
  bind_inversion,
}
use rag_anotacoes_sdd.Text.{Text}
use rag_anotacoes_sdd.Domain.Jobs.{
  IndexingJob, retry_wait, failed, is_waiting, claim, fail_transient, default_maximum_attempts,
  pending_job,
}

-- One attempt that fails: the times of its claim and of its failure.
abbrev pub Attempt : Type 0
Attempt = Instant × Instant

abbrev pub attempt : ℕ → Text → Attempt → IndexingJob → Result IndexingJob
attempt lease code (claimed, gave_up) j = do
  k ← claim j claimed lease
  fail_transient k code gave_up default_maximum_attempts

abbrev pub attempts : ℕ → Text → List Attempt → IndexingJob → Result IndexingJob
attempts lease code [] j = ok j
attempts lease code (a ∷ as') j = do k ← attempt lease code a j; attempts lease code as' k

-- The job waits for its attempt number n + 1, of five.
abbrev Waits : ℕ → IndexingJob → Type 0
Waits n j = (is_waiting j.status ≡ true) × (j.attempt_count ≡ n)

backoff : (n : ℕ) → n < 5 → min (2 ^ (n + 1 - 1)) 16 ≡ 2 ^ n
backoff zero h = refl
backoff (suc zero) h = refl
backoff (suc (suc zero)) h = refl
backoff (suc (suc (suc zero))) h = refl
backoff (suc (suc (suc (suc zero)))) h = refl
backoff (suc (suc (suc (suc (suc n))))) h = absurd (omega arith)

-- The job after a failed attempt that began with `n` attempts behind it.
abbrev after_attempt : ℕ → ℕ → Text → Attempt → IndexingJob → IndexingJob
after_attempt lease n code (claimed, gave_up) j = record j {
  status = if leb 5 (n + 1) then failed else retry_wait;
  attempt_count = n + 1;
  available_at = gave_up + seconds (min (2 ^ (n + 1 - 1)) 16);
  claimed_at = some claimed;
  lease_expires_at = none;
  last_error_code = some code;
}

-- What one failed attempt makes of a job that waits: it is counted; the fifth is final, and
-- before that the job waits again, for 1, 2, 4 and 8 seconds.
pub attempt-backoff :
    (lease n : ℕ) (code : Text) (claimed gave_up : Instant) (j : IndexingJob)
    → n < 5
    → is_waiting j.status ≡ true
    → j.attempt_count ≡ n
    → j.available_at ≤ claimed
    → (k : IndexingJob) × (attempt lease code (claimed, gave_up) j ≡ ok k)
      × (k.attempt_count ≡ n + 1)
      × (k.available_at ≡ gave_up + seconds (2 ^ n))
      × ((k.status ≡ failed) ↔ (n ≡ 4))
      × ((k.status ≡ retry_wait) ↔ (n < 4))
unfolding claim fail_transient
attempt-backoff lease n code claimed gave_up j h w c due = (
  after_attempt lease n code (claimed, gave_up) j,
  ground arith,
  refl,
  rw (backoff n h),
  (λ e. ground arith, λ e. ground arith),
  (λ e. ground arith, λ e. ground arith),
)

-- The job before attempt number `n + 1`: it waits, or it has failed with all five behind it.
abbrev Pending : ℕ → IndexingJob → Type 0
Pending n j =
    (j.attempt_count ≡ n) × ((n < 5) × (is_waiting j.status ≡ true) ⊎ (n ≡ 5) × (j.status ≡ failed))

attempt-Pending :
    (lease n : ℕ) (code : Text) (a : Attempt) (j : IndexingJob) {k : IndexingJob}
    → Pending n j
    → attempt lease code a j ≡ ok k
    → (n < 5) × Pending (n + 1) k
unfolding claim fail_transient
attempt-Pending lease n code (claimed, gave_up) j p h = ground arith

attempts-Pending :
    (lease n : ℕ) (code : Text) (as' : List Attempt) (j : IndexingJob) {k : IndexingJob}
    → Pending n j
    → attempts lease code as' j ≡ ok k
    → Pending (n + length as') k
attempts-Pending lease n code [] j {k} p h = ground arith
attempts-Pending lease n code (a ∷ as') j {k} p h =
    let (l, one, more) = bind_inversion (attempt lease code a j) (attempts lease code as') h in
    rw (shift n (length as')) (
      attempts-Pending lease (n + 1) code as' l {k = k} (attempt-Pending lease n code a j p one).1
        more)
  where
    shift : (n m : ℕ) → n + suc m ≡ n + 1 + m
    shift n m = omega arith

-- However the times fall, a new job takes at most five failed attempts, all of them counted, and
-- it is failed exactly after the fifth.
pub attempts_bounded :
    (job_id note_id user_id : Uuid) (version : ℕ) (now : Instant) (lease : ℕ) (code : Text)
    (as' : List Attempt) {k : IndexingJob}
    → attempts lease code as' (pending_job job_id note_id user_id version now) ≡ ok k
    → (length as' ≤ 5) × (k.attempt_count ≡ length as') × ((k.status ≡ failed) ↔ (length as' ≡ 5))
unfolding pending_job
attempts_bounded job_id note_id user_id version now lease code as' {k} h =
    let p : Pending (0 + length as') k =
      attempts-Pending lease 0 code as' (pending_job job_id note_id user_id version now) {k = k}
        (refl, inl (omega arith, refl)) h in
    (omega arith, omega arith, (λ e. ground arith, λ e. ground arith))
