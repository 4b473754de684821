-- ===== src/Order/Queue.antt =====
-- src/services/order_queue.py: events, and the move of an order to its next status. `now` is the
-- value of `now_utc()` during the call.
use ngv_trader.Prelude.{
  ℕ, Bool, true, false, not, ◌&&◌, Option, none, some, [], ◌∷◌, ◌++◌, if◌then◌else◌, or_else,
}
use ngv_trader.Order.Status.{OrderStatus, can_transition_order_status, is_terminal, status_eq}
use ngv_trader.Order.Model.{
  Order, OrderEvent, Work, Action, Result, ok, err, Error, invalid_transition, Message,
  forced_change, EventType, forced_status_change, ◌>>◌, modify_order, raise,
}
pub mod Laws

-- The event of `append_order_event` with the arguments that its callers pass: the order's own fields.
unfoldable pub event_of : {F : Type 0} → ℕ → EventType → Message F → Order F → OrderEvent F
event_of now event_type message order = record {
  order_id = order.id;
  event_type = event_type;
  message = message;
  status = some order.status;
  filled_quantity = some order.filled_quantity;
  avg_fill_price = order.avg_fill_price;
  ib_order_id = order.ib_order_id;
  created_at = now;
}

unfoldable pub append_order_event : {F : Type 0} → ℕ → EventType → Message F → Action F (Unit {0})
append_order_event now event_type message w =
    (ok tt, record w { events = w.events ++ event_of now event_type message w.order ∷ [] })

-- The writes of `transition_order_status`: the status and its time stamps.
unfoldable pub set_status : {F : Type 0} → ℕ → OrderStatus → Order F → Order F
set_status now next order = record order {
  status = next;
  updated_at = now;
  submitted_at =
      if status_eq next OrderStatus.submitted
      then or_else order.submitted_at (some now)
      else order.submitted_at;
  completed_at =
      if is_terminal next then or_else order.completed_at (some now) else order.completed_at;
}

unfoldable pub transition_order_status :
    {F : Type 0} → ℕ → OrderStatus → EventType → Message F → Bool → Action F (Unit {0})
unfolding append_order_event set_status
transition_order_status now next event_type message force w =
    let allowed = can_transition_order_status w.order.status next in
    if not allowed && not force
    then raise (invalid_transition w.order.status next) w
    else (modify_order (set_status now next)
          >> append_order_event now (if allowed then event_type else forced_status_change)
              (if allowed then message else forced_change w.order.status next message))
        w
