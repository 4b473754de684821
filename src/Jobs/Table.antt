-- ===== src/Jobs/Table.antt =====
-- The table of jobs: enqueueing and claiming (src/services/jobs.py). New rows are added at the end.
use ngv_trader.Prelude.{
  ℕ, suc, ◌+◌, ◌≡◌, Bool, true, false, not, ◌&&◌, ◌||◌, Option, none, some, is_none, List, [], ◌∷◌,
  ◌++◌, map, Text, text_eq, filter, any, leb, ltb, ◌==◌, if◌then◌else◌,
}
use ngv_trader.Jobs.Row.{JobStatus, job_status_eq, Job, start_job}
pub mod Laws

pub record JobTable (J : Type 0) : Type 0 where
  pub jobs : List (Job J)
  pub next_id : ℕ

module _ {J : Type 0} where
  -- `enqueue_job`
  unfoldable pub new_job : ℕ → ℕ → Text → J → Text → Option Text → ℕ → Job J
  new_job id now job_type payload source request_text max_attempts = record {
    id = id;
    job_type = job_type;
    status = JobStatus.queued;
    payload = payload;
    result = none;
    source = source;
    request_text = request_text;
    attempts = 0;
    max_attempts = max_attempts;
    available_at = now;
    started_at = none;
    completed_at = none;
    archived_at = none;
    last_error = none;
    created_at = now;
    updated_at = now;
  }

  unfoldable pub enqueue_job :
      ℕ → Text → J → Text → Option Text → ℕ → JobTable J → Job J × JobTable J
  unfolding new_job
  enqueue_job now job_type payload source request_text max_attempts table =
      let job = new_job table.next_id now job_type payload source request_text max_attempts in
      (job, record { jobs = table.jobs ++ job ∷ []; next_id = suc table.next_id })

  -- Queued or running, of the type, and not archived.
  abbrev pub is_active : Text → Job J → Bool
  is_active job_type job =
      text_eq job.job_type job_type
      && is_none job.archived_at
      && (job_status_eq job.status JobStatus.queued || job_status_eq job.status JobStatus.running)

  unfoldable pub enqueue_job_if_idle :
      ℕ → Text → J → Text → Option Text → ℕ → JobTable J → Option (Job J) × JobTable J
  unfolding enqueue_job
  enqueue_job_if_idle now job_type payload source request_text max_attempts table =
      if any (is_active job_type) table.jobs
      then (none, table)
      else let (job, table') =
          enqueue_job now job_type payload source request_text max_attempts table in
        (some job, table')

  -- The `where` of the claim.
  abbrev pub is_due : ℕ → Job J → Bool
  is_due now job =
      job_status_eq job.status JobStatus.queued
      && leb job.available_at now
      && is_none job.archived_at

  -- `order_by(created_at.asc()).limit(1)`: of rows created at one instant, the first.
  abbrev pub earlier : Job J → Option (Job J) → Option (Job J)
  earlier job none = some job
  earlier job (some other) = if leb job.created_at other.created_at then some job else some other

  unfoldable pub oldest : List (Job J) → Option (Job J)
  oldest [] = none
  oldest (job ∷ jobs) = earlier job (oldest jobs)

  -- A write to the row with an id.
  unfoldable pub update_job : ℕ → (Job J → Job J) → List (Job J) → List (Job J)
  update_job id f [] = []
  update_job id f (job ∷ jobs) = (if job.id == id then f job else job) ∷ update_job id f jobs

  unfoldable pub claim_next_job : ℕ → JobTable J → Option (Job J) × JobTable J
  unfolding oldest update_job
  claim_next_job now table = elim (oldest (filter (is_due now) table.jobs)) [
    | none ↦ (none, table)
    | some job ↦ (
      some (start_job now job),
      record table { jobs = update_job job.id (start_job now) table.jobs },
    )
  ]
