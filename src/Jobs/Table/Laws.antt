-- ===== src/Jobs/Table/Laws.antt =====
-- One active job of a type, and the claim of the oldest due job.
use ngv_trader.Prelude.{
  ℕ, ◌+◌, ◌≤◌, ◌<◌, ◌≡◌, refl, subst, sym, some_inj, Among, All-map, Among-filter, All-of_filter,
  ◌≢◌, inl, inr, true, false, Option, none, some, List, [], ◌∷◌, ◌++◌, arith, Text, text_eq_refl,
  text_eq-true, filter, any, leb, Bool-cases, Option-cases, if◌then◌else◌, All,
}
use native.Mathlib.Nat.{le_refl}
use ngv_trader.Jobs.Row.{Job, start_job}
use ngv_trader.Jobs.Table.{
  JobTable, new_job, is_active, enqueue_job_if_idle, is_due, oldest, update_job, claim_next_job,
}

module _ {J : Type 0} where
  -- How many rows of a type are active.
  abbrev pub active_count : Text → List (Job J) → ℕ
  active_count job_type [] = 0
  active_count job_type (j ∷ js) =
      (if is_active job_type j then 1 else 0) + active_count job_type js

  active_count-append :
      (t : Text) (js ks : List (Job J))
      → active_count t (js ++ ks) ≡ active_count t js + active_count t ks
  active_count-append t [] ks = omega arith
  active_count-append t (j ∷ js) ks = omega (arith, active_count-append t js ks)

  active_count_idle :
      (t : Text) (js : List (Job J)) → any (is_active t) js ≡ false → active_count t js ≡ 0
  active_count_idle t [] h = refl
  active_count_idle t (j ∷ js) h = ground (arith, active_count_idle t js)

  active_count_busy :
      (t : Text) (js : List (Job J)) → any (is_active t) js ≡ true → 1 ≤ active_count t js
  active_count_busy t [] h = cc
  active_count_busy t (j ∷ js) h = ground (arith, active_count_busy t js)

  active_count-new_job :
      (id now : ℕ) (t u : Text) (payload : J) (source : Text) (request : Option Text) (m : ℕ)
      → (active_count t (new_job id now t payload source request m ∷ []) ≡ 1)
        × (t ≢ u → active_count u (new_job id now t payload source request m ∷ []) ≡ 0)
  unfolding new_job
  active_count-new_job id now t u payload source request m =
      (ground (arith, text_eq_refl t), λ ne. ground (arith, text_eq-true t u))

  -- If at most one job of the type is active, `enqueue_job_if_idle` leaves exactly one, and as many
  -- of every other type as there were.
  pub enqueue_job_if_idle-active_count :
      (now : ℕ) (t u : Text) (payload : J) (source : Text) (request : Option Text)
      (max_attempts : ℕ) (table : JobTable J)
      → active_count t table.jobs ≤ 1
      → t ≢ u
      → let js = (enqueue_job_if_idle now t payload source request max_attempts table).1.jobs in
        (active_count t js ≡ 1) × (active_count u js ≡ active_count u table.jobs)
  unfolding enqueue_job_if_idle
  enqueue_job_if_idle-active_count now t u payload source request max_attempts table h ne =
      elim (Bool-cases (any (is_active t) table.jobs)) [
        | inl busy ↦ rw busy (omega (arith, active_count_busy t table.jobs busy), refl)
        | inr idle ↦
            let job = new_job table.next_id now t payload source request max_attempts in
            let (one, others) =
              active_count-new_job table.next_id now t u payload source request max_attempts in
            rw idle (
              omega (
                arith,
                active_count-append t table.jobs (job ∷ []),
                active_count_idle t table.jobs idle,
                one,
              ),
              omega (arith, active_count-append u table.jobs (job ∷ []), others ne),
            )
      ]

  oldest-none : (js : List (Job J)) → oldest js ≡ none → js ≡ []
  unfolding oldest
  oldest-none [] h = refl
  oldest-none (j ∷ js) h = ground arith

  -- The oldest row is a row, and no row was created before it.
  abbrev IsOldest : Job J → List (Job J) → Type 0
  IsOldest o js = Among o js × All (λ k. o.created_at ≤ k.created_at) js

  IsOldest-here :
      (j p : Job J) (js : List (Job J))
      → j.created_at ≤ p.created_at
      → IsOldest p js
      → IsOldest j (j ∷ js)
  IsOldest-here j p js le h = (
    inl refl,
    (
      le_refl j.created_at,
      All-map (λ (k : Job J). p.created_at ≤ k.created_at) (λ k. j.created_at ≤ k.created_at) js
          (λ k pk. omega arith) h.1,
    ),
  )

  oldest-IsOldest : (js : List (Job J)) (o : Job J) → oldest js ≡ some o → IsOldest o js
  unfolding oldest
  oldest-IsOldest [] o h = cc
  oldest-IsOldest (j ∷ js) o h = elim (Option-cases (oldest js)) [
    | inl none_left ↦
        subst (λ x. IsOldest x (j ∷ js)) (some_inj j o (rw none_left at h))
          (inl refl, (le_refl j.created_at, rw (oldest-none js none_left) tt))
    | inr (p, e) ↦ elim (Bool-cases (leb j.created_at p.created_at)) [
      | inl older ↦
          subst (λ x. IsOldest x (j ∷ js)) (some_inj j o (rw (e, older) at h))
            (IsOldest-here j p js (ground arith) (oldest-IsOldest js p e))
      | inr newer ↦
          let ih = oldest-IsOldest js p e in
          subst (λ x. IsOldest x (j ∷ js)) (some_inj p o (rw (e, newer) at h))
            (inr ih.0, (ground arith, ih.1))
    ]
  ]

  -- How many rows could be claimed.
  abbrev pub due_count : ℕ → List (Job J) → ℕ
  due_count now [] = 0
  due_count now (j ∷ js) = (if is_due now j then 1 else 0) + due_count now js

  update_job-due_le :
      (now id : ℕ) (js : List (Job J))
      → due_count now (update_job id (start_job now) js) ≤ due_count now js
  unfolding update_job start_job
  update_job-due_le now id [] = omega arith
  update_job-due_le now id (j ∷ js) = ground (arith, update_job-due_le now id js)

  update_job-due_lt :
      (now : ℕ) (o : Job J) (js : List (Job J))
      → Among o js
      → is_due now o ≡ true
      → due_count now (update_job o.id (start_job now) js) < due_count now js
  unfolding update_job start_job
  update_job-due_lt now o [] m h = absurd m
  update_job-due_lt now o (j ∷ js) (inl e) h =
      subst
        (λ (x : Job J).
          is_due now x ≡ true
          → due_count now (update_job x.id (start_job now) (j ∷ js)) < due_count now (j ∷ js))
        (sym e) (λ due. ground (arith, update_job-due_le now j.id js)) h
  update_job-due_lt now o (j ∷ js) (inr m) h = ground (arith, update_job-due_lt now o js m h)

  due_count_none :
      (now : ℕ) (js : List (Job J)) → filter (is_due now) js ≡ [] → due_count now js ≡ 0
  due_count_none now [] h = refl
  due_count_none now (j ∷ js) h = ground (arith, due_count_none now js)

  -- What a claim has done, by its answer.
  abbrev pub Claimed : ℕ → JobTable J → Option (Job J) × JobTable J → Type 0
  Claimed now table (none, table') = (table' ≡ table) × (due_count now table.jobs ≡ 0)
  Claimed now table (some job, table') =
      (o : Job J) × (job ≡ start_job now o)
      × Among o table.jobs
      × (is_due now o ≡ true)
      × All (λ k. is_due now k ≡ true → o.created_at ≤ k.created_at) table.jobs
      × (due_count now table'.jobs < due_count now table.jobs)

  -- A claim takes a due row that no due row is older than, starts it, and leaves fewer due rows; it
  -- answers `none`, and changes nothing, only if no row is due.
  pub claim_next_job-Claimed :
      (now : ℕ) (table : JobTable J) → Claimed now table (claim_next_job now table)
  unfolding claim_next_job
  claim_next_job-Claimed now table = elim (Option-cases (oldest (filter (is_due now) table.jobs))) [
    | inl nothing ↦
        rw (nothing, claim_next_job) (refl, due_count_none now table.jobs (oldest-none _ nothing))
    | inr (o, e) ↦
        let found = oldest-IsOldest (filter (is_due now) table.jobs) o e in
        let (among, due) = Among-filter (is_due now) o table.jobs found.0 in
        rw (e, claim_next_job)
          (
            o,
            refl,
            among,
            due,
            All-of_filter (is_due now) (λ k. o.created_at ≤ k.created_at) table.jobs found.1,
            update_job-due_lt now o table.jobs among due,
          )
  ]
