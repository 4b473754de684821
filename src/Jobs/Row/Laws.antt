-- ===== src/Jobs/Row/Laws.antt =====
-- The failure budget of a job, and what each way to settle it does.
use ngv_trader.Prelude.{
  ℕ, suc, ◌+◌, ◌≤◌, ◌<◌, ◌≡◌, refl, true, false, Option, is_some, List, [], ◌∷◌, arith, length,
  Text, leb, if◌then◌else◌,
}
use ngv_trader.Jobs.Row.{
  JobStatus, job_status_eq, Job, Outcome, done, deferred, crashed, start_job, settle_job,
  dispatch_job, run_round, run_rounds,
}

-- The budget and the stamps of a row.
pub record IsWithinBudget {J : Type 0} (j : Job J) : Type 0 where
  pub bounded : j.attempts ≤ j.max_attempts
  pub queued_has_attempts : j.status ≡ JobStatus.queued → j.attempts < j.max_attempts
  pub running_has_attempts : j.status ≡ JobStatus.running → j.attempts < j.max_attempts
  pub failed_used_all : j.status ≡ JobStatus.failed → j.attempts ≡ j.max_attempts
  pub running_started : j.status ≡ JobStatus.running → is_some j.started_at ≡ true
  pub completed_stamped : j.status ≡ JobStatus.completed → is_some j.completed_at ≡ true
  pub failed_stamped : j.status ≡ JobStatus.failed → is_some j.completed_at ≡ true

module _ {J : Type 0} where
  pub start_job-IsWithinBudget :
      (now : ℕ) (j : Job J)
      → IsWithinBudget j
      → j.status ≡ JobStatus.queued
      → IsWithinBudget (start_job now j)
  unfolding start_job
  start_job-IsWithinBudget now j h q = ground arith

  -- The dispatch of a running job keeps the budget, with any registry of handlers and any outcome:
  -- the attempts never exceed the limit, a job that waits or runs has one left, a failed one has
  -- none, and the stamps go with the status.
  pub dispatch_job-IsWithinBudget :
      (now : ℕ) (get_handler : Text → Option (Job J → Outcome J)) (j : Job J)
      → IsWithinBudget j
      → j.status ≡ JobStatus.running
      → IsWithinBudget (dispatch_job now get_handler j)
  unfolding dispatch_job
  dispatch_job-IsWithinBudget now get_handler j h r = ground arith

  pub settle_job-IsWithinBudget :
      (now : ℕ) (o : Outcome J) (j : Job J)
      → IsWithinBudget j
      → j.status ≡ JobStatus.running
      → IsWithinBudget (settle_job now o j)
  unfolding settle_job
  settle_job-IsWithinBudget now o j h r = ground arith

  abbrev pub crashes : List (ℕ × Outcome J) → ℕ
  crashes [] = 0
  crashes ((_, crashed _) ∷ rounds) = suc (crashes rounds)
  crashes ((_, done _) ∷ rounds) = crashes rounds
  crashes ((_, deferred _ _) ∷ rounds) = crashes rounds

  abbrev pub crash_count : Outcome J → ℕ
  crash_count (crashed _) = 1
  crash_count (done _) = 0
  crash_count (deferred _ _) = 0

  crashes-cons :
      (now : ℕ) (o : Outcome J) (rounds : List (ℕ × Outcome J))
      → crashes ((now, o) ∷ rounds) ≡ crash_count o + crashes rounds
  crashes-cons now (done _) rounds = omega arith
  crashes-cons now (deferred _ _) rounds = omega arith
  crashes-cons now (crashed _) rounds = omega arith

  run_round-IsWithinBudget :
      (now : ℕ) (o : Outcome J) (j : Job J)
      → IsWithinBudget j
      → IsWithinBudget (run_round now o j)
        × ((run_round now o j).attempts ≤ j.attempts + crash_count o)
        × ((run_round now o j).max_attempts ≡ j.max_attempts)
  unfolding run_round
  run_round-IsWithinBudget now (done r) j h = ground arith
  run_round-IsWithinBudget now (deferred r s) j h = ground arith
  run_round-IsWithinBudget now (crashed r) j h = ground arith

  -- A job within its budget is within it after any rounds, whatever their outcomes, and has spent at
  -- most as many attempts as there were crashes.
  pub run_rounds-IsWithinBudget :
      (rounds : List (ℕ × Outcome J)) (j : Job J)
      → IsWithinBudget j
      → IsWithinBudget (run_rounds rounds j)
        × ((run_rounds rounds j).attempts ≤ j.attempts + crashes rounds)
  unfolding run_rounds
  run_rounds-IsWithinBudget [] j h = (h, omega arith)
  run_rounds-IsWithinBudget ((now, o) ∷ rounds) j h =
      let (kept, spent, same) = run_round-IsWithinBudget now o j h in
      let (kept', spent') = run_rounds-IsWithinBudget rounds (run_round now o j) kept in
      (kept', omega (arith, crashes-cons now o rounds))

  -- Rounds that all end in an exception, at these instants and with these texts.
  abbrev pub all_crashed : List (ℕ × Text) → List (ℕ × Outcome J)
  all_crashed [] = []
  all_crashed ((now, reason) ∷ rounds) = (now, crashed reason) ∷ all_crashed rounds

  run_round_closed :
      (now : ℕ) (o : Outcome J) (j : Job J)
      → job_status_eq j.status JobStatus.queued ≡ false
      → run_round now o j ≡ j
  unfolding run_round
  run_round_closed now o j h = rw h

  -- A job that is not queued is left as it is by every later round.
  run_rounds_closed :
      (rounds : List (ℕ × Outcome J)) (j : Job J)
      → job_status_eq j.status JobStatus.queued ≡ false
      → run_rounds rounds j ≡ j
  unfolding run_rounds
  run_rounds_closed [] j h = refl
  run_rounds_closed ((now, o) ∷ rounds) j h =
      rw (run_round_closed now o j h) (run_rounds_closed rounds j h)

  crashed_round :
      (now : ℕ) (reason : Text) (j : Job J)
      → j.status ≡ JobStatus.queued
      → j.attempts < j.max_attempts
      → ((run_round now (crashed reason) j).status
          ≡ (if leb j.max_attempts (j.attempts + 1) then JobStatus.failed else JobStatus.queued))
        × ((run_round now (crashed reason) j).attempts ≡ j.attempts + 1)
        × ((run_round now (crashed reason) j).max_attempts ≡ j.max_attempts)
  unfolding run_round
  crashed_round now reason j q h = ground arith

  -- A queued job with attempts left that crashes in every round is failed exactly when the rounds
  -- have used up its attempts, and is queued again before that.
  pub run_rounds-all_crashed :
      (rounds : List (ℕ × Text)) (j : Job J)
      → j.status ≡ JobStatus.queued
      → j.attempts < j.max_attempts
      → (run_rounds (all_crashed rounds) j).status ≡ (
          if leb j.max_attempts (j.attempts + length rounds)
          then JobStatus.failed
          else JobStatus.queued)
  unfolding run_rounds
  run_rounds-all_crashed [] j q h = ground arith
  run_rounds-all_crashed ((now, reason) ∷ rounds) j q h = ground (
    arith,
    crashed_round now reason j q h,
    run_rounds_closed (all_crashed rounds) (run_round now (crashed reason) j),
    run_rounds-all_crashed rounds (run_round now (crashed reason) j),
  )
