-- ===== src/Order/Worker/Laws.antt =====
-- What a broker trade does to an order.
use ngv_trader.Prelude.{
  ℕ, ◌≡◌, refl, subst, inl, inr, Bool, true, false, arith, Bool-cases, String, FloatOps,
}
use ngv_trader.Order.Status.{OrderStatus, can_transition_order_status, status_eq, status_eq-true}
use ngv_trader.Order.Model.{Order, Work, Action, Result, ok, EventType, ◌>>=◌, ◌>>◌, resume}
use ngv_trader.Order.Broker.{Trade}
use ngv_trader.Order.Queue.{transition_order_status, set_status, append_order_event}
use ngv_trader.Order.Queue.Laws.{IsStamped, set_status-IsStamped}
use ngv_trader.Order.Worker.{
  normalize_ib_status, filled_of, write_progress, reconcile_trade_status, finish_progress,
  apply_trade_progress, same_progress,
}

module _ {F : Type 0} where
  -- A call that did not raise, and left the order in the given status with its stamps.
  abbrev pub Lands : OrderStatus → Result Bool × Work F → Type 0
  Lands next (r, w) = ((b : Bool) × (r ≡ ok b)) × (w.order.status ≡ next) × IsStamped w.order

  Lands-bind :
      (s : OrderStatus) (m : Action F Bool) (f : Bool → Action F Bool) (w : Work F)
      → Lands s (m w)
      → ((b : Bool) (v : Work F) → IsStamped v.order → Lands v.order.status (f b v))
      → Lands s ((m >>= f) w)
  Lands-bind s m f w h k =
      rw (h.0.1, resume) (subst (λ t. Lands t (f h.0.0 (m w).1)) h.1 (k h.0.0 (m w).1 h.2))

module _ {F : Type 0} ⦃fl : FloatOps F⦄ where
  pub reconcile_trade_status-Lands :
      (now : ℕ) (trade : Trade F) (next : OrderStatus) (ev : EventType) (prefix : String)
      (w : Work F)
      → IsStamped w.order
      → Lands next (reconcile_trade_status now trade next ev prefix w)
  unfolding reconcile_trade_status transition_order_status
  reconcile_trade_status-Lands now trade next ev prefix w h =
      elim (Bool-cases (status_eq w.order.status next)) [
        | inl same ↦ rw same ((false, refl), status_eq-true _ _ same, h)
        | inr moves ↦ elim (Bool-cases (can_transition_order_status w.order.status next)) [
          | inl allowed ↦
              rw (moves, allowed)
                ((true, refl), unfold set_status in refl, set_status-IsStamped now next w.order)
          | inr forced ↦
              rw (moves, forced)
                ((false, refl), unfold set_status in refl, set_status-IsStamped now next w.order)
        ]
      ]

  write_progress-IsStamped :
      (now : ℕ) (trade : Trade F) (o : Order F)
      → IsStamped o
      → (IsStamped (write_progress now trade o)) × ((write_progress now trade o).status ≡ o.status)
  unfolding write_progress
  write_progress-IsStamped now trade o h = (
    record { submitted_stamped = h.submitted_stamped; terminal_stamped = h.terminal_stamped },
    refl,
  )

  finish_progress-Lands :
      (now : ℕ) (trade : Trade F) (ev : EventType) (prefix : String) (prev : Order F)
      (emitted : Bool) (w : Work F)
      → IsStamped w.order
      → Lands w.order.status (finish_progress now trade ev prefix prev emitted w)
  unfolding finish_progress append_order_event
  finish_progress-Lands now trade ev prefix prev true w h =
      elim (Bool-cases (same_progress w.order prev)) [
        | inl same ↦ rw same ((false, refl), refl, h)
        | inr changed ↦ rw (changed, ◌>>=◌, ◌>>◌) ((true, refl), ground arith, ground arith)
      ]
  finish_progress-Lands now trade ev prefix prev false w h =
      elim (Bool-cases (same_progress w.order prev)) [
        | inl same ↦ rw same ((false, refl), refl, h)
        | inr changed ↦ rw (changed, ◌>>=◌, ◌>>◌) ((true, refl), ground arith, ground arith)
      ]

  -- For an order whose stamps go with its status, applying a trade's progress never raises: the
  -- order ends in the status that the trade normalizes to, forced if the table has no such move,
  -- and its stamps go with that status.
  pub apply_trade_progress-Lands :
      (now : ℕ) (trade : Trade F) (ev : EventType) (prefix : String) (w : Work F)
      → IsStamped w.order
      → Lands
          (normalize_ib_status trade.status (filled_of trade))
          (apply_trade_progress now trade ev prefix w)
  unfolding apply_trade_progress
  apply_trade_progress-Lands now trade ev prefix w h =
      Lands-bind (normalize_ib_status trade.status (filled_of trade))
        (reconcile_trade_status now trade (normalize_ib_status trade.status (filled_of trade)) ev
          prefix)
        (λ emitted. finish_progress now trade ev prefix w.order emitted)
        (record w { order = write_progress now trade w.order })
        (reconcile_trade_status-Lands now trade _ ev prefix
          (record w { order = write_progress now trade w.order })
          (write_progress-IsStamped now trade w.order h).0)
        (λ emitted v k. finish_progress-Lands now trade ev prefix w.order emitted v k)
