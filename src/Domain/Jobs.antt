-- ===== src/Domain/Jobs.antt =====
-- domain/indexing.py, `IndexingJob`: the durable request to index one version of a note, its
-- claims under a lease, its retries with backoff, and its end.
pub mod Lifecycle
pub mod Retries
use rag_anotacoes_sdd.Prelude.{
  ℕ, ◌+◌, ◌-◌, ◌^◌, min, Bool, true, false, ◌&&◌, ◌||◌, Option, none, some, leb, if◌then◌else◌,
  Uuid, Instant, seconds, Result, ok, err, ◌>>=◌, ◌>>◌, require, value_error, job_not_claimable,
  job_not_processing, codes,
}
use rag_anotacoes_sdd.Text.{Text}

pub data JobStatus : Type 0 where
  pending processing retry_wait failed completed : JobStatus

pub record IndexingJob : Type 0 where
  pub id : Uuid
  pub note_id : Uuid
  pub user_id : Uuid
  pub note_version : ℕ
  pub status : JobStatus
  pub attempt_count : ℕ
  pub available_at : Instant
  pub claimed_at : Option Instant
  pub lease_expires_at : Option Instant
  pub last_error_code : Option Text
  pub created_at : Instant
  pub completed_at : Option Instant

-- The class method `IndexingJob.pending`.
unfoldable pub pending_job : Uuid → Uuid → Uuid → ℕ → Instant → IndexingJob
pending_job job_id note_id user_id note_version now = record {
  id = job_id;
  note_id = note_id;
  user_id = user_id;
  note_version = note_version;
  status = pending;
  attempt_count = 0;
  available_at = now;
  claimed_at = none;
  lease_expires_at = none;
  last_error_code = none;
  created_at = now;
  completed_at = none;
}

abbrev pub is_waiting : JobStatus → Bool
is_waiting pending = true
is_waiting retry_wait = true
is_waiting _ = false

abbrev pub is_processing : JobStatus → Bool
is_processing processing = true
is_processing _ = false

abbrev pub is_past : Option Instant → Instant → Bool
is_past none now = false
is_past (some t) now = leb t now

unfoldable pub is_claimable : IndexingJob → Instant → Bool
is_claimable self now =
    is_waiting self.status && leb self.available_at now
    || is_processing self.status && is_past self.lease_expires_at now

unfoldable pub claim : IndexingJob → Instant → ℕ → Result IndexingJob
unfolding is_claimable
claim self now lease_seconds = do
  require (is_claimable self now) (value_error job_not_claimable)
  ok (record self {
    status = processing;
    attempt_count = self.attempt_count + 1;
    claimed_at = some now;
    lease_expires_at = some (now + seconds lease_seconds);
  })

abbrev pub default_maximum_attempts : ℕ
default_maximum_attempts = 5

unfoldable pub fail_transient : IndexingJob → Text → Instant → ℕ → Result IndexingJob
fail_transient self error_code now maximum_attempts = do
  require (is_processing self.status) (value_error job_not_processing)
  let delay = min (2 ^ (self.attempt_count - 1)) 16
  ok (record self {
    status = if leb maximum_attempts self.attempt_count then failed else retry_wait;
    available_at = now + seconds delay;
    lease_expires_at = none;
    last_error_code = some error_code;
  })

unfoldable pub complete : IndexingJob → Instant → Result IndexingJob
complete self now = do
  require (is_processing self.status) (value_error job_not_processing)
  ok (record self {
    status = completed;
    completed_at = some now;
    lease_expires_at = none;
    last_error_code = none;
  })

unfoldable pub obsolete : IndexingJob → Instant → IndexingJob
obsolete self now = record self {
  status = completed;
  completed_at = some now;
  lease_expires_at = none;
  last_error_code = some (codes "obsolete");
}

-- What `IndexingRepository.retry_failed` writes into a failed job.
unfoldable pub retried : IndexingJob → Instant → IndexingJob
retried job now = record job {
  status = pending;
  attempt_count = 0;
  available_at = now;
  claimed_at = none;
  lease_expires_at = none;
  last_error_code = none;
  completed_at = none;
}
