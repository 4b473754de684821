-- ===== src/Order/Reconcile.antt =====
-- `reconcile_open_orders` of src/services/order_worker.py, over the rows of `orders` in the order of
-- `created_at`. The trades are those that the broker reports as open.
use ngv_trader.Prelude.{
  ℕ, ◌+◌, Bool, true, false, Option, none, some, List, [], ◌∷◌, String, ◌==◌, FloatOps, or_else,
  if◌then◌else◌,
}
use ngv_trader.Prelude.Int.{ℤ, pos, negsuc}
use ngv_trader.Order.Status.{OrderStatus, is_terminal, status_eq, status_mem}
use ngv_trader.Order.Model.{
  Order, OrderEvent, Work, Action, Result, ok, err, literal, order_reconciled,
  order_reconcile_required, order_reconcile_checked, ◌>>=◌, ◌>>◌, pure,
}
use ngv_trader.Order.Queue.{append_order_event, transition_order_status}
use ngv_trader.Order.Broker.{Trade}
use ngv_trader.Order.Reference.{parse_order_ref}
use ngv_trader.Order.Worker.{reconcile_eligible_statuses, apply_trade_progress}
pub mod Laws

abbrev names : Option ℤ → ℕ → Bool
names none id = false
names (some (pos n)) id = n == id
names (some (negsuc _)) id = false

module _ {F : Type 0} where
  -- `trades_by_order_id.get(id)`: of several trades with one reference the last is kept.
  unfoldable pub trade_of : List (Trade F) → ℕ → Option (Trade F)
  trade_of [] id = none
  trade_of (t ∷ ts) id =
      or_else (trade_of ts id) (if names (parse_order_ref t.order_ref) id then some t else none)

abbrev pub touch : Bool → Result ℕ → Result ℕ
touch touched (ok n) = ok (if touched then n + 1 else n)
touch touched (err e) = err e

module _ {F : Type 0} ⦃fl : FloatOps F⦄ where
  -- The body of the loop; the answer says whether the order counts as touched.
  unfoldable pub reconcile_order : ℕ → Option (Trade F) → Action F Bool
  reconcile_order now (some trade) w =
      apply_trade_progress now trade order_reconciled "startup reconciliation" w
  reconcile_order now none w =
      if status_mem w.order.status reconcile_eligible_statuses
      then if status_eq w.order.status OrderStatus.reconcile_required
        then (append_order_event now order_reconcile_checked
                (literal "No matching open IB order found; remains reconcile_required.")
              >> pure true)
            w
        else (transition_order_status now OrderStatus.reconcile_required order_reconcile_required
                (literal "No matching open IB order was found during startup reconciliation.") false
              >> pure true)
            w
      else pure false w

  -- The loop: terminal orders are not selected, and a raise ends it.
  unfoldable pub reconcile_orders :
      ℕ
      → List (Trade F)
      → List (Order F)
      → List (OrderEvent F)
      → Result ℕ × List (Order F) × List (OrderEvent F)
  reconcile_orders now trades [] events = (ok 0, [], events)
  reconcile_orders now trades (o ∷ os) events = elim (is_terminal o.status) [
    | true ↦
        let (count, rest, events') = reconcile_orders now trades os events in
        (count, o ∷ rest, events')
    | false ↦
        let (r, w) =
          reconcile_order now (trade_of trades o.id) (record { order = o; events = events }) in
        elim r [
          | err e ↦ (err e, w.order ∷ os, w.events)
          | ok touched ↦
              let (count, rest, events') = reconcile_orders now trades os w.events in
              (touch touched count, w.order ∷ rest, events')
        ]
  ]
