-- ===== src/Jobs/Row.antt =====
-- One row of `jobs` (src/models.py), and the calls of src/services/jobs.py and
-- scripts/work_jobs.py that change it. `J` is the type of the JSON payloads; times are instants in
-- seconds, and `now` is the value of `now_utc()` during the call.
use ngv_trader.Prelude.{
  ℕ, ◌+◌, ◌≡◌, Bool, Option, none, some, List, [], ◌∷◌, Text, text, leb, ◌==◌, if◌then◌else◌,
}
pub mod Laws

pub data JobStatus : Type 0 where
  queued running completed failed : JobStatus

abbrev rank : JobStatus → ℕ
rank JobStatus.queued = 0
rank JobStatus.running = 1
rank JobStatus.completed = 2
rank JobStatus.failed = 3

abbrev pub job_status_eq : JobStatus → JobStatus → Bool
job_status_eq a b = rank a == rank b

-- What is written to `last_error`: a handler's text, a deferral's reason, or the f-string of the
-- dispatch.
pub data JobError : Type 0 where
  raised : Text → JobError
  deferred_for : Text → JobError
  unsupported : Text → JobError

pub record Job (J : Type 0) : Type 0 where
  pub id : ℕ
  pub job_type : Text
  pub status : JobStatus
  pub payload : J
  pub result : Option J
  pub source : Text
  pub request_text : Option Text
  pub attempts : ℕ
  pub max_attempts : ℕ
  pub available_at : ℕ
  pub started_at : Option ℕ
  pub completed_at : Option ℕ
  pub archived_at : Option ℕ
  pub last_error : Option JobError
  pub created_at : ℕ
  pub updated_at : ℕ

-- How a handler ends: with a result, by `JobDeferred`, or by any other exception.
pub data Outcome (J : Type 0) : Type 0 where
  done : J → Outcome J
  deferred : Text → ℕ → Outcome J
  crashed : Text → Outcome J

module _ {J : Type 0} where
  -- The writes of `claim_next_job` to the claimed row.
  unfoldable pub start_job : ℕ → Job J → Job J
  start_job now job = record job {
    status = JobStatus.running;
    started_at = some now;
    updated_at = now;
  }

  unfoldable pub complete_job : ℕ → J → Job J → Job J
  complete_job now result job = record job {
    status = JobStatus.completed;
    result = some result;
    completed_at = some now;
    updated_at = now;
  }

  unfoldable pub defer_job : ℕ → Text → ℕ → Job J → Job J
  defer_job now reason retry_after_seconds job = record job {
    status = JobStatus.queued;
    available_at = now + retry_after_seconds;
    last_error = some (deferred_for reason);
    started_at = none;
    updated_at = now;
  }

  unfoldable pub fail_or_retry_job : ℕ → JobError → ℕ → Job J → Job J
  fail_or_retry_job now error_text retry_delay_seconds job =
      let counted = record job {
        attempts = job.attempts + 1;
        last_error = some error_text;
        updated_at = now;
      } in
      if leb job.max_attempts (job.attempts + 1)
      then record counted { status = JobStatus.failed; completed_at = some now }
      else record counted { status = JobStatus.queued; available_at = now + retry_delay_seconds }

  -- The `try` of the worker loop around a handler; 5 is the default of `retry_delay_seconds`.
  unfoldable pub settle_job : ℕ → Outcome J → Job J → Job J
  unfolding complete_job defer_job fail_or_retry_job
  settle_job now (done result) job = complete_job now result job
  settle_job now (deferred reason retry_after_seconds) job =
      defer_job now reason retry_after_seconds job
  settle_job now (crashed error_text) job = fail_or_retry_job now (raised error_text) 5 job

  -- The dispatch of a claimed job: a type with no handler fails without a delay.
  unfoldable pub dispatch_job : ℕ → (Text → Option (Job J → Outcome J)) → Job J → Job J
  unfolding settle_job
  dispatch_job now get_handler job = elim (get_handler job.job_type) [
    | none ↦ fail_or_retry_job now (unsupported job.job_type) 0 job
    | some handler ↦ settle_job now (handler job) job
  ]

  -- One round of a job: claimed and settled at an instant. A job that is not queued is not claimed.
  unfoldable pub run_round : ℕ → Outcome J → Job J → Job J
  unfolding start_job settle_job
  run_round now outcome job =
      if job_status_eq job.status JobStatus.queued
      then settle_job now outcome (start_job now job)
      else job

  unfoldable pub run_rounds : List (ℕ × Outcome J) → Job J → Job J
  run_rounds [] job = job
  run_rounds ((now, outcome) ∷ rounds) job = run_rounds rounds (run_round now outcome job)
