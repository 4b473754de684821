-- ===== src/Tests/JobRows.antt =====
-- Jobs: a fresh row, its crashes, and a table.
use ngv_trader.Prelude.{
  ℕ, ◌≡◌, ◌≢◌, ◌≤◌, ◌+◌, refl, arith, Bool, true, false, Option, none, some, List, [], ◌∷◌, Text,
  text, text_eq_iff, if◌then◌else◌, leb, length,
}
use ngv_trader.Jobs.Row.{JobStatus, Job, Outcome, done, deferred, crashed, run_rounds}
use ngv_trader.Jobs.Row.Laws.{
  IsWithinBudget, run_rounds-IsWithinBudget, crashes, all_crashed, run_rounds-all_crashed,
}
use ngv_trader.Jobs.Table.{JobTable, enqueue_job_if_idle, claim_next_job}
use ngv_trader.Jobs.Table.Laws.{
  active_count, enqueue_job_if_idle-active_count, Claimed, claim_next_job-Claimed,
}

abbrev sync : Text
sync = text "trades.sync"

abbrev fresh : Job ℕ
fresh = record {
  id = 1;
  job_type = sync;
  status = JobStatus.queued;
  payload = 0;
  result = none;
  source = text "api";
  request_text = none;
  attempts = 0;
  max_attempts = 3;
  available_at = 10;
  started_at = none;
  completed_at = none;
  archived_at = none;
  last_error = none;
  created_at = 10;
  updated_at = 10;
}

fresh-IsWithinBudget : IsWithinBudget fresh
fresh-IsWithinBudget = record {
  bounded = omega arith;
  queued_has_attempts = λ _. omega arith;
  running_has_attempts = λ _. omega arith;
  failed_used_all = λ h. cc;
  running_started = λ h. cc;
  completed_stamped = λ h. cc;
  failed_stamped = λ h. cc;
}

abbrev crash_rounds : List (ℕ × Text)
crash_rounds = (20, text "timeout") ∷ (30, text "timeout") ∷ (40, text "refused") ∷ []

-- Three crashes use up three attempts.
run_rounds-all_crashed_example :
    (run_rounds (all_crashed crash_rounds) fresh).status
    ≡ (if leb 3 (0 + length crash_rounds) then JobStatus.failed else JobStatus.queued)
run_rounds-all_crashed_example = run_rounds-all_crashed crash_rounds fresh refl (omega arith)

abbrev mixed_rounds : List (ℕ × Outcome ℕ)
mixed_rounds =
    (20, deferred (text "no rows yet") 60) ∷ (90, crashed (text "timeout")) ∷ (99, done 5) ∷ []

run_rounds-IsWithinBudget_example :
    IsWithinBudget (run_rounds mixed_rounds fresh)
    × ((run_rounds mixed_rounds fresh).attempts ≤ 0 + crashes mixed_rounds)
run_rounds-IsWithinBudget_example =
    run_rounds-IsWithinBudget mixed_rounds fresh fresh-IsWithinBudget

abbrev table : JobTable ℕ
table = record {
  jobs = fresh ∷ record fresh { id = 2; created_at = 5; available_at = 50 } ∷ [];
  next_id = 3;
}

claim_next_job-Claimed_example : Claimed 20 table (claim_next_job 20 table)
claim_next_job-Claimed_example = claim_next_job-Claimed 20 table

abbrev pub one_row : JobTable ℕ
one_row = record { jobs = fresh ∷ []; next_id = 2 }

enqueue_job_if_idle-active_count_example :
    let js =
      (enqueue_job_if_idle 20 (text "contracts.sync") 0 (text "api") none 3 one_row).1.jobs in
    (active_count (text "contracts.sync") js ≡ 1)
    × (active_count sync js ≡ active_count sync (fresh ∷ []))
unfolding ngv_trader.Prelude.text_eq
enqueue_job_if_idle-active_count_example =
    enqueue_job_if_idle-active_count 20 (text "contracts.sync") sync 0 (text "api") none 3 one_row
      (omega arith) (λ h. cc)
