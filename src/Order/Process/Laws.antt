-- ===== src/Order/Process/Laws.antt =====
-- The handling of a claimed order: it always ends in `failed`.
use ngv_trader.Prelude.{
  ℕ, ◌≡◌, refl, inl, inr, Bool, true, false, Option, is_some, List, Text, arith, Option-cases,
}
use ngv_trader.Order.Status.{OrderStatus, can_transition_iff_not_terminal, is_terminal}
use ngv_trader.Order.Model.{Order, Work, Result, ok, err, Message}
use ngv_trader.Order.Broker.{Contract}
use ngv_trader.Order.Queue.{append_order_event, set_status, transition_order_status}
use ngv_trader.Order.Queue.Laws.{set_status-IsStamped}
use ngv_trader.Order.Process.{process_order, handle, submit, fail_with}

abbrev is_ok : {A : Type 0} → Result A → Bool
is_ok (ok _) = true
is_ok (err _) = false

module _ {F : Type 0} where
  -- The body of the `try` always raises, and does not touch the status.
  submit_raises :
      (now : ℕ) (qualify : Order F → Result Contract) (managed : List Text) (account : Text)
      (w : Work F)
      → (is_ok (submit now qualify managed account w).0 ≡ false)
        × ((submit now qualify managed account w).1.order.status ≡ w.order.status)
  unfolding submit append_order_event
  submit_raises now qualify managed account w = ground arith

  -- What a handled order looks like.
  abbrev pub HasFailed : Result (Unit {0}) × Work F → Type 0
  HasFailed (r, w) =
      (r ≡ ok tt)
      × (w.order.status ≡ OrderStatus.failed)
      × (is_some w.order.last_error ≡ true)
      × (is_some w.order.completed_at ≡ true)

  fail_with-HasFailed :
      (now : ℕ) (error message : Message F) (w : Work F)
      → is_terminal w.order.status ≡ false
      → HasFailed (fail_with now error message w)
  unfolding transition_order_status
  fail_with-HasFailed now error message w h =
      rw ((can_transition_iff_not_terminal w.order.status w.order.status).1 h) (
        refl,
        unfold set_status in refl,
        unfold set_status in refl,
        (set_status-IsStamped now OrderStatus.failed w.order).terminal_stamped
            (unfold set_status in refl),
      )

  handle-HasFailed :
      (now : ℕ) (r : Result (Unit {0})) (w : Work F)
      → is_ok r ≡ false
      → is_terminal w.order.status ≡ false
      → HasFailed (handle now r w)
  handle-HasFailed now (ok _) w bad h = cc
  handle-HasFailed now (err e) w bad h = fail_with-HasFailed now _ _ w h

  -- A claimed order that is not terminal ends in `failed`, with its error and its completion time,
  -- whatever the account table, the contract's qualification and the managed accounts are; the
  -- call itself does not raise.
  pub process_order-HasFailed :
      (now : ℕ) (account_of : ℕ → Option Text) (qualify : Order F → Result Contract)
      (managed : List Text) (w : Work F)
      → is_terminal w.order.status ≡ false
      → HasFailed (process_order now account_of qualify managed w)
  unfolding process_order
  process_order-HasFailed now account_of qualify managed w h =
      elim (Option-cases (account_of w.order.account_id)) [
        | inl missing ↦ rw (missing, process_order) (fail_with-HasFailed now _ _ w h)
        | inr (account, found) ↦
            let (raises, status) = submit_raises now qualify managed account w in
            rw (found, process_order)
              (handle-HasFailed now (submit now qualify managed account w).0
                (submit now qualify managed account w).1 raises (rw status h))
      ]
