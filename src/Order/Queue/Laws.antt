-- ===== src/Order/Queue/Laws.antt =====
-- What a status move does on each branch, and the time stamps that it keeps.
use ngv_trader.Prelude.{
  ℕ, ◌≡◌, ap, Bool, true, false, Bool-cases, inl, inr, is_some, [], ◌∷◌, ◌++◌, arith, if◌then◌else◌,
}
use ngv_trader.Order.Status.{OrderStatus, can_transition_order_status, is_terminal}
use ngv_trader.Order.Model.{
  Order, Work, ok, err, invalid_transition, Message, ◌>>◌, pure, resume, forced_change, EventType,
  forced_status_change,
}
use ngv_trader.Order.Queue.{transition_order_status, set_status, event_of}

-- The time stamps agree with the status.
pub record IsStamped {F : Type 0} (o : Order F) : Type 0 where
  pub submitted_stamped : o.status ≡ OrderStatus.submitted → is_some o.submitted_at ≡ true
  pub terminal_stamped : is_terminal o.status ≡ true → is_some o.completed_at ≡ true

-- The work after a move that went through: the new stamps, and one event at the end of the log.
abbrev pub moved : {F : Type 0} → ℕ → OrderStatus → EventType → Message F → Work F → Work F
moved now next event_type message w =
    let order = set_status now next w.order in
    record w { order = order; events = w.events ++ event_of now event_type message order ∷ [] }

-- A move that the table allows sets the status and its stamps and logs exactly one event, with the
-- caller's type and message; one that it does not allow raises `invalid_transition` and changes
-- nothing, unless it is forced: then it is logged as a forced change from the old status.
pub transition_order_status_lem :
    {F : Type 0} (now : ℕ) (next : OrderStatus) (event_type : EventType) (message : Message F)
    (force : Bool) (w : Work F)
    → transition_order_status now next event_type message force w ≡ (
        if can_transition_order_status w.order.status next
        then (ok tt, moved now next event_type message w)
        else if force
        then (
          ok tt,
          moved now next forced_status_change (forced_change w.order.status next message) w,
        )
        else (err (invalid_transition w.order.status next), w))
unfolding transition_order_status
transition_order_status_lem now next event_type message true w =
    elim (Bool-cases (can_transition_order_status w.order.status next)) [
      | inl allowed ↦ rw allowed
      | inr refused ↦ rw refused
    ]
transition_order_status_lem now next event_type message false w =
    elim (Bool-cases (can_transition_order_status w.order.status next)) [
      | inl allowed ↦ rw allowed
      | inr refused ↦ rw refused
    ]

module _ {F : Type 0} (now : ℕ) (next : OrderStatus) (ev : EventType) (m : Message F)
    (w : Work F) where
  pub transition_allowed :
      (force : Bool)
      → can_transition_order_status w.order.status next ≡ true
      → transition_order_status now next ev m force w ≡ (ok tt, moved now next ev m w)
  transition_allowed force h = rw (transition_order_status_lem now next ev m force w, h)

  pub transition_forced :
      can_transition_order_status w.order.status next ≡ false
      → transition_order_status now next ev m true w
        ≡ (ok tt, moved now next forced_status_change (forced_change w.order.status next m) w)
  transition_forced h = rw (transition_order_status_lem now next ev m true w, h)

  pub transition_refused :
      can_transition_order_status w.order.status next ≡ false
      → transition_order_status now next ev m false w
        ≡ (err (invalid_transition w.order.status next), w)
  transition_refused h = rw (transition_order_status_lem now next ev m false w, h)

  pub transition_then :
      {A : Type 0} (b : A)
      → can_transition_order_status w.order.status next ≡ true
      → (transition_order_status now next ev m false >> pure b) w ≡ (ok b, moved now next ev m w)
  transition_then b h = ap (λ p. resume p (λ _. pure b)) (transition_allowed false h)

-- Whatever the old stamps were, a set status has its stamps.
pub set_status-IsStamped :
    {F : Type 0} (now : ℕ) (next : OrderStatus) (o : Order F) → IsStamped (set_status now next o)
unfolding set_status
set_status-IsStamped now next o = ground arith
