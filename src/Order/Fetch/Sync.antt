-- ===== src/Order/Fetch/Sync.antt =====
-- A broker trade written onto the local order that it belongs to. `now` is the value of `now_utc()`
-- during the call.
use ngv_trader.Prelude.{
  ℕ, Bool, true, false, not, ◌&&◌, Option, none, some, [], ◌∷◌, is_none, or_else, FloatOps,
  if◌then◌else◌,
}
use ngv_trader.Order.Status.{OrderStatus, can_transition_order_status, is_terminal, status_eq}
use ngv_trader.Order.Model.{
  Order, Work, Action, Result, ok, err, Message, synced_status, synced_forced, synced_update,
  broker_order_synced_status, broker_order_synced_update, ◌>>=◌, ◌>>◌, pure, modify_order,
}
use ngv_trader.Order.Queue.{append_order_event, transition_order_status}
use ngv_trader.Order.Fetch.Rows.{BrokerOrder}
use ngv_trader.Order.Fetch.Fields.{broker_status, apply_trade_fields, same_snapshot}
pub mod Laws

module _ {F : Type 0} where
  abbrev stamp_submitted : ℕ → OrderStatus → Order F → Order F
  stamp_submitted now next o = record o {
    submitted_at =
        if status_eq next OrderStatus.queued
        then o.submitted_at
        else or_else o.submitted_at (some now);
  }

  abbrev complete_if : ℕ → OrderStatus → Order F → Order F
  complete_if now next o = record o {
    completed_at = if is_terminal next then or_else o.completed_at (some now) else o.completed_at;
  }

  abbrev force_status : ℕ → OrderStatus → Order F → Order F
  force_status now next o = record (complete_if now next o) { status = next }

  -- The answer says whether an event was appended.
  unfoldable pub reconcile_order_status : ℕ → BrokerOrder F → OrderStatus → Action F Bool
  reconcile_order_status now t next w =
      if status_eq w.order.status next
      then pure false w
      else if can_transition_order_status w.order.status next
      then (transition_order_status now next broker_order_synced_status
              (synced_status t.trade.status w.order.filled_quantity w.order.avg_fill_price) false
            >> pure true)
          w
      else (modify_order (force_status now next)
            >> append_order_event now broker_order_synced_status (synced_forced next)
            >> pure true)
          w

module _ {F : Type 0} ⦃fl : FloatOps F⦄ where
  -- The end of `_sync_trade_onto_order`: nothing more if no field of the snapshot has changed.
  unfoldable pub finish_sync : ℕ → BrokerOrder F → OrderStatus → Order F → Bool → Action F Bool
  unfolding same_snapshot
  finish_sync now t next prev emitted w =
      if same_snapshot w.order prev
      then pure false w
      else (do
        modify_order (complete_if now next)
        if emitted
            then pure tt
            else append_order_event now broker_order_synced_update
                (synced_update t.trade.status w.order.ib_order_id w.order.ib_perm_id)
        pure true)
          w

  unfoldable pub sync_trade_onto_order : (F → Option ℕ) → ℕ → BrokerOrder F → Action F Bool
  unfolding apply_trade_fields reconcile_order_status finish_sync
  sync_trade_onto_order rounded now t w =
      let next = broker_status t.trade in
      (do
        apply_trade_fields rounded now t
        modify_order (stamp_submitted now next)
        emitted ← reconcile_order_status now t next
        finish_sync now t next w.order emitted)
        w
