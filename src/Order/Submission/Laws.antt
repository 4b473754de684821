-- ===== src/Order/Submission/Laws.antt =====
-- What a round of the order worker leaves behind.
use ngv_trader.Prelude.{
  ℕ, zero, suc, ◌+◌, ◌≤◌, ◌<◌, ◌≡◌, ◌≢◌, refl, sym, ap, subst, Bool, true, false, Bool-cases, inl,
  inr, Option, none, some, is_some, List, [], ◌∷◌, arith, Text, FloatOps, if◌then◌else◌, ltb,
  text_eq, text_eq_refl,
}
use ngv_trader.Order.Status.{OrderStatus, status_eq}
use ngv_trader.Order.Model.{Order, OrderEvent, Work, Result, ok, resume, pure}
use ngv_trader.Order.Broker.{Contract}
use ngv_trader.Order.Process.Laws.{HasFailed, process_order-HasFailed}
use ngv_trader.Order.Queue.{append_order_event}
use ngv_trader.Order.Submission.{
  claim_queued_order_for_submission, submit_order, submit_orders, order_fetch_sync, positions_sync,
  enqueue_follow_ups,
}
use ngv_trader.Jobs.Table.{JobTable, enqueue_job_if_idle}
use ngv_trader.Jobs.Table.Laws.{active_count, enqueue_job_if_idle-active_count}

abbrev pub EitherOf : Bool → Type 0 → Type 0 → Type 0
EitherOf true A B = A
EitherOf false A B = B

module _ {F : Type 0} where
  -- A processed order: it failed, with its error and its completion time.
  abbrev pub IsFailed : Order F → Type 0
  IsFailed o =
      (o.status ≡ OrderStatus.failed)
      × (is_some o.last_error ≡ true)
      × (is_some o.completed_at ≡ true)

  abbrev IsProcessed : Result Bool × Work F → Type 0
  IsProcessed (r, w) = (r ≡ ok true) × IsFailed w.order

  then_true :
      (m : Result (Unit {0}) × Work F) → HasFailed m → IsProcessed (resume m (λ _. pure true))
  then_true (r, w) (e, status, error, completed) = rw (e, resume) (refl, (status, error, completed))

  submit_order-IsProcessed :
      (now : ℕ) (account_of : ℕ → Option Text) (qualify : Order F → Result Contract)
      (managed : List Text) (w : Work F)
      → status_eq w.order.status OrderStatus.queued ≡ true
      → IsProcessed (submit_order now account_of qualify managed w)
  unfolding submit_order claim_queued_order_for_submission append_order_event
  submit_order-IsProcessed now account_of qualify managed w h =
      rw h (then_true _ (process_order-HasFailed now account_of qualify managed _ refl))

  -- How many of the orders a round takes: the queued ones, up to the limit.
  unfoldable pub taken : ℕ → List (Order F) → ℕ
  taken limit [] = 0
  taken zero (o ∷ os) = 0
  taken (suc limit) (o ∷ os) =
      let after = taken limit os in
      let skipped = taken (suc limit) os in
      if status_eq o.status OrderStatus.queued then after + 1 else skipped

  -- The orders before and after a round: the first queued ones, up to the limit, have failed, and
  -- the others are as they were.
  abbrev pub Submitted : ℕ → List (Order F) → List (Order F) → Type 0
  Submitted limit [] [] = Unit
  Submitted limit [] (p ∷ ps) = ⊥
  Submitted limit (o ∷ os) [] = ⊥
  Submitted zero (o ∷ os) (p ∷ ps) = p ∷ ps ≡ o ∷ os
  Submitted (suc limit) (o ∷ os) (p ∷ ps) =
      EitherOf (status_eq o.status OrderStatus.queued) (IsFailed p × Submitted limit os ps)
        ((p ≡ o) × Submitted (suc limit) os ps)

  abbrev pub Submits : ℕ → List (Order F) → Result ℕ × List (Order F) × List (OrderEvent F) → Type 0
  Submits limit os (r, ps, events) = (r ≡ ok (taken limit os)) × Submitted limit os ps

  took :
      (limit : ℕ) (o p : Order F) (os ps : List (Order F))
      → status_eq o.status OrderStatus.queued ≡ true
      → IsFailed p
      → Submitted limit os ps
      → Submitted (suc limit) (o ∷ os) (p ∷ ps)
  took limit o p os ps queued failed rest = rw queued (failed, rest)

  passed_over :
      (limit : ℕ) (o : Order F) (os ps : List (Order F))
      → status_eq o.status OrderStatus.queued ≡ false
      → Submitted (suc limit) os ps
      → Submitted (suc limit) (o ∷ os) (o ∷ ps)
  passed_over limit o os ps other rest = rw other (refl, rest)

  -- A round never raises, whatever the account table, the qualification and the managed accounts
  -- are: it processes the first queued orders, up to the limit, each of which ends as failed, counts
  -- exactly them, and leaves every other order as it was.
  pub submit_orders-Submits :
      (now : ℕ) (account_of : ℕ → Option Text) (qualify : Order F → Result Contract)
      (managed : List Text) (limit : ℕ) (os : List (Order F)) (events : List (OrderEvent F))
      → Submits limit os (submit_orders now account_of qualify managed limit os events)
  unfolding submit_orders taken
  submit_orders-Submits now account_of qualify managed limit [] events = (refl, tt)
  submit_orders-Submits now account_of qualify managed zero (o ∷ os) events = (refl, refl)
  submit_orders-Submits now account_of qualify managed (suc limit) (o ∷ os) events =
      elim (Bool-cases (status_eq o.status OrderStatus.queued)) [
        | inr other ↦
            let (count, rest) =
              submit_orders-Submits now account_of qualify managed (suc limit) os events in
            rw (other, submit_orders, taken) (count, passed_over limit o os _ other rest)
        | inl queued ↦
            let w : Work F = record { order = o; events = events } in
            let (went, failed) = submit_order-IsProcessed now account_of qualify managed w queued in
            let (count, rest) =
              submit_orders-Submits now account_of qualify managed limit os
                (submit_order now account_of qualify managed w).1.events in
            rw (queued, went, submit_orders, taken)
              (rw count refl, took limit o _ os _ queued failed rest)
      ]

types_differ : order_fetch_sync ≢ positions_sync
unfolding ngv_trader.Prelude.text_eq
types_differ e =
    let clash : false ≡ true =
      subst (λ (s : Text). text_eq order_fetch_sync s ≡ true) e (text_eq_refl order_fetch_sync) in
    cc clash

module _ {J : Type 0} where
  -- Two types enqueued one after the other, of each of which at most one job was active.
  enqueue_two-active_count :
      (now : ℕ) (payload : J) (t u s : Text) (r q : Text) (table : JobTable J)
      → t ≢ u
      → active_count t table.jobs ≤ 1
      → active_count u table.jobs ≤ 1
      → let table' = (enqueue_job_if_idle now t payload s (some r) 3 table).1 in
        let js = (enqueue_job_if_idle now u payload s (some q) 3 table').1.jobs in
        (active_count t js ≡ 1) × (active_count u js ≡ 1)
  enqueue_two-active_count now payload t u s r q table apart one_t one_u =
      let table' = (enqueue_job_if_idle now t payload s (some r) 3 table).1 in
      let (first, kept) =
        enqueue_job_if_idle-active_count now t u payload s (some r) 3 table one_t apart in
      let (second, kept') =
        enqueue_job_if_idle-active_count now u t payload s (some q) 3 table'
          (omega (arith, kept, one_u)) (λ e. apart (sym e)) in
      (omega (arith, kept', first), second)

  IsQueuedOnce : JobTable J → Type 0
  IsQueuedOnce table =
      (active_count order_fetch_sync table.jobs ≡ 1) × (active_count positions_sync table.jobs ≡ 1)

  chosen :
      (b : Bool) (x y : JobTable J) → b ≡ true → IsQueuedOnce x → IsQueuedOnce (if b then x else y)
  chosen b x y e h = rw e h

  -- If at most one job of each of the two types is active, then after a round that processed an
  -- order exactly one of each is.
  pub enqueue_follow_ups-active_count :
      (now : ℕ) (no_payload : J) (processed : ℕ) (table : JobTable J)
      → 0 < processed
      → active_count order_fetch_sync table.jobs ≤ 1
      → active_count positions_sync table.jobs ≤ 1
      → let js = (enqueue_follow_ups now no_payload processed table).jobs in
        (active_count order_fetch_sync js ≡ 1) × (active_count positions_sync js ≡ 1)
  unfolding enqueue_follow_ups IsQueuedOnce
  enqueue_follow_ups-active_count now no_payload processed table some_processed fetch positions =
      chosen (ltb 0 processed) _ table (ground arith) (
        enqueue_two-active_count now no_payload order_fetch_sync positions_sync _ _ _ table
          types_differ fetch positions)
