-- ===== src/Order/Submission.antt =====
-- A round of the order worker (scripts/work_order_queue.py): the claim of a queued order, its
-- processing, and the jobs that are queued after it. The orders stand by `created_at`, and the rows
-- are those of one session, so that the query and the loop over its ids are one walk.
use ngv_trader.Prelude.{
  ℕ, zero, suc, Bool, true, false, Option, none, some, List, [], ◌∷◌, Text, text, ltb,
  if◌then◌else◌,
}
use ngv_trader.Order.Status.{OrderStatus, status_eq}
use ngv_trader.Order.Model.{
  Order, OrderEvent, Work, Action, Result, ok, err, literal, order_submitting, ◌>>=◌, ◌>>◌, pure,
  modify_order,
}
use ngv_trader.Order.Queue.{append_order_event}
use ngv_trader.Order.Broker.{Contract}
use ngv_trader.Order.Process.{process_order}
use ngv_trader.Order.Reconcile.{touch}
use ngv_trader.Jobs.Table.{JobTable, enqueue_job_if_idle}
pub mod Laws

abbrev pub order_fetch_sync : Text
order_fetch_sync = text "order.fetch_sync"

abbrev pub positions_sync : Text
positions_sync = text "positions.sync.flexquery"

module _ {F : Type 0} where
  -- Whether the order was claimed: the update finds only a queued one.
  unfoldable pub claim_queued_order_for_submission : ℕ → Action F Bool
  unfolding append_order_event
  claim_queued_order_for_submission now w =
      if status_eq w.order.status OrderStatus.queued
      then (do
        modify_order (λ order. record order { status = OrderStatus.submitting; updated_at = now })
        append_order_event now order_submitting (literal "Claimed by worker for broker submission.")
        pure true)
          w
      else pure false w

  -- What the loop does for one id; the answer says whether the order was processed.
  unfoldable pub submit_order :
      ℕ → (ℕ → Option Text) → (Order F → Result Contract) → List Text → Action F Bool
  unfolding claim_queued_order_for_submission
  submit_order now account_of qualify managed w =
      (do
        claimed ← claim_queued_order_for_submission now
        (if claimed then process_order now account_of qualify managed >> pure true else pure false))
        w

  -- The loop over the first `limit` queued orders; a raise ends it.
  unfoldable pub submit_orders :
      ℕ
      → (ℕ → Option Text)
      → (Order F → Result Contract)
      → List Text
      → ℕ
      → List (Order F)
      → List (OrderEvent F)
      → Result ℕ × List (Order F) × List (OrderEvent F)
  submit_orders now account_of qualify managed limit [] events = (ok 0, [], events)
  submit_orders now account_of qualify managed zero (o ∷ os) events = (ok 0, o ∷ os, events)
  submit_orders now account_of qualify managed (suc limit) (o ∷ os) events =
      elim (status_eq o.status OrderStatus.queued) [
        | false ↦
            let (count, rest, events') =
              submit_orders now account_of qualify managed (suc limit) os events in
            (count, o ∷ rest, events')
        | true ↦
            let (r, w) =
              submit_order now account_of qualify managed (record { order = o; events = events }) in
            elim r [
              | err e ↦ (err e, w.order ∷ os, w.events)
              | ok processed ↦
                  let (count, rest, events') =
                    submit_orders now account_of qualify managed limit os w.events in
                  (touch processed count, w.order ∷ rest, events')
            ]
      ]

abbrev enqueue_follow_up : {J : Type 0} → ℕ → J → Text → Text → JobTable J → JobTable J
enqueue_follow_up now no_payload job_type request_text table =
    (enqueue_job_if_idle now job_type no_payload (text "worker:orders") (some request_text) 3
      table).1

-- The jobs that follow a round which processed an order; 3 is the default of `max_attempts`.
unfoldable pub enqueue_follow_ups : {J : Type 0} → ℕ → J → ℕ → JobTable J → JobTable J
enqueue_follow_ups now no_payload processed table =
    if ltb 0 processed
    then enqueue_follow_up now no_payload positions_sync (text "Auto sync after order processing") (
        enqueue_follow_up now no_payload order_fetch_sync
          (text "Auto order fetch/sync after order processing") table)
    else table
