-- ===== src/Order/Worker.antt =====
-- src/services/order_worker.py: how a broker trade moves an order, and the handling of a claimed
-- order. `now` is the value of `now_utc()` during the call.
use ngv_trader.Prelude.{
  ℕ, Bool, true, false, not, ◌&&◌, Option, none, some, List, [], ◌∷◌, String, Text, text, lower,
  upper, strip, or_empty, is_empty, is_none, text_eq, text_mem, lookup_text, option_eq, ◌==◌,
  FloatOps, max_float, is_truthy, or_zero, RawValue, to_float, if◌then◌else◌,
}
use ngv_trader.Order.Status.{
  OrderStatus, can_transition_order_status, is_terminal, status_eq, status_mem,
}
use ngv_trader.Order.Model.{
  Order, Work, Action, Result, ok, err, Error, not_managed, no_limit_price, not_supported, Message,
  literal, progress, progress_status, qualified, missing_account, worker_error, of_error, EventType,
  order_error, order_reconcile_required, order_reconcile_checked, order_reconciled,
  contract_qualified, ◌>>=◌, ◌>>◌, pure, raise, modify_order,
}
use ngv_trader.Order.Queue.{append_order_event, transition_order_status}
use ngv_trader.Order.Broker.{Trade}
use ngv_trader.Order.Reference.{make_order_ref}
pub mod Laws

abbrev pub reconcile_eligible_statuses : List OrderStatus
reconcile_eligible_statuses =
    OrderStatus.submitting ∷ OrderStatus.submitted ∷ OrderStatus.partially_filled
    ∷ OrderStatus.reconcile_required ∷ []

-- `_IB_STATUS_TO_ORDER_STATUS` and `_IB_WORKING_STATUSES`
abbrev ib_status_to_order_status : List (Text × OrderStatus)
ib_status_to_order_status =
    (text "filled", OrderStatus.filled)
    ∷ (text "rejected", OrderStatus.rejected)
    ∷ (text "cancelled", OrderStatus.cancelled)
    ∷ (text "apicancelled", OrderStatus.cancelled)
    ∷ (text "inactive", OrderStatus.cancelled)
    ∷ []

abbrev ib_working_statuses : List Text
ib_working_statuses = text "submitted" ∷ text "presubmitted" ∷ text "pendingsubmit" ∷ []

-- `x or None` for a number and a text of the broker: an unset value keeps the old one.
abbrev number_or : ℕ → Option ℕ → Option ℕ
number_or n old = if n == 0 then old else some n

abbrev text_or : Text → Option Text → Option Text
text_or s old = if is_empty s then old else some s

module _ {F : Type 0} ⦃fl : FloatOps F⦄ where
  unfoldable pub parse_float : RawValue F → Option F
  parse_float value = to_float value

  unfoldable pub normalize_ib_status : Option Text → F → OrderStatus
  normalize_ib_status ib_status filled_qty =
      let value = lower (strip (or_empty ib_status)) in
      elim (lookup_text value ib_status_to_order_status) [
        | some mapped ↦ mapped
        | none ↦
            if text_mem value ib_working_statuses && fl.less fl.zero_value filled_qty
            then OrderStatus.partially_filled
            else if is_empty value
            then OrderStatus.queued
            else OrderStatus.submitted
      ]

  -- `max(0.0, float(trade.filled() or 0.0))`
  unfoldable pub filled_of : Trade F → F
  filled_of trade = max_float fl.zero_value (or_zero trade.filled)

  unfoldable pub apply_contract_details : Trade F → Order F → Order F
  apply_contract_details trade order = record order {
    con_id = number_or trade.contract.con_id order.con_id;
    local_symbol = text_or trade.contract.local_symbol order.local_symbol;
    trading_class = text_or trade.contract.trading_class order.trading_class;
    contract_expiry = text_or trade.contract.last_trade_date order.contract_expiry;
  }

  -- The assignments of `apply_trade_progress` before the status is reconciled.
  unfoldable pub write_progress : ℕ → Trade F → Order F → Order F
  unfolding apply_contract_details
  write_progress now trade order = record (apply_contract_details trade order) {
    ib_order_id = number_or trade.order_id order.ib_order_id;
    ib_perm_id = number_or trade.perm_id order.ib_perm_id;
    filled_quantity = filled_of trade;
    avg_fill_price = parse_float trade.avg_fill_price;
    updated_at = now;
  }

  -- `_progress_snapshot(order) == prev`
  unfoldable pub same_progress : Order F → Order F → Bool
  same_progress a b =
      status_eq a.status b.status
      && fl.same a.filled_quantity b.filled_quantity
      && option_eq fl.same a.avg_fill_price b.avg_fill_price
      && option_eq ◌==◌ a.ib_order_id b.ib_order_id
      && option_eq ◌==◌ a.ib_perm_id b.ib_perm_id
      && option_eq ◌==◌ a.con_id b.con_id
      && option_eq text_eq a.local_symbol b.local_symbol
      && option_eq text_eq a.trading_class b.trading_class
      && option_eq text_eq a.contract_expiry b.contract_expiry

  -- The status move follows the broker, by force where the table does not allow it. The answer says
  -- whether an allowed move was logged.
  unfoldable pub reconcile_trade_status :
      ℕ → Trade F → OrderStatus → EventType → String → Action F Bool
  reconcile_trade_status now trade normalized_status event_type message_prefix w =
      if status_eq w.order.status normalized_status
      then pure false w
      else if can_transition_order_status w.order.status normalized_status
      then (transition_order_status now normalized_status event_type
              (progress message_prefix trade.status w.order.filled_quantity trade.remaining
                w.order.avg_fill_price)
              false
            >> pure true)
          w
      else (transition_order_status now normalized_status event_type
              (progress_status message_prefix trade.status) true
            >> pure false)
          w

  abbrev pub complete_if_terminal : ℕ → Order F → Order F
  complete_if_terminal now order =
      if is_terminal order.status && is_none order.completed_at
      then record order { completed_at = some now }
      else order

  -- The end of `apply_trade_progress`: nothing more if no field of the snapshot has changed.
  unfoldable pub finish_progress : ℕ → Trade F → EventType → String → Order F → Bool → Action F Bool
  unfolding same_progress
  finish_progress now trade event_type message_prefix prev emitted w =
      if same_progress w.order prev
      then pure false w
      else (do
        modify_order (complete_if_terminal now)
        if emitted
            then pure tt
            else append_order_event now event_type (
                progress message_prefix trade.status (filled_of trade) trade.remaining
                  (parse_float trade.avg_fill_price))
        pure true)
          w

  unfoldable pub apply_trade_progress : ℕ → Trade F → EventType → String → Action F Bool
  unfolding write_progress reconcile_trade_status finish_progress
  apply_trade_progress now trade event_type message_prefix w =
      (do
        modify_order (write_progress now trade)
        emitted ←
            reconcile_trade_status now trade (normalize_ib_status trade.status (filled_of trade))
              event_type message_prefix
        finish_progress now trade event_type message_prefix w.order emitted)
        w
