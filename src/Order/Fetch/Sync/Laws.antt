-- ===== src/Order/Fetch/Sync/Laws.antt =====
-- What a trade of the broker does to the order that it belongs to.
use ngv_trader.Prelude.{
  ℕ, ◌+◌, ◌≡◌, ◌++◌, refl, sym, ap, not, subst, inl, inr, Bool, ◌&&◌, true, false, arith,
  Bool-cases, List, [], ◌∷◌, length, length-append, FloatOps, is_some, or_else, Option, none, some,
}
use ngv_trader.Order.Status.{
  OrderStatus, is_terminal, can_transition_order_status, status_eq, status_eq-true,
}
use ngv_trader.Order.Model.{Order, Work, Error, Result, ok, err, ◌>>=◌, ◌>>◌, resume}
use ngv_trader.Order.Queue.{transition_order_status, set_status, append_order_event}
use ngv_trader.Order.Queue.Laws.{IsStamped, set_status-IsStamped}
use ngv_trader.Order.Fetch.Rows.{BrokerOrder}
use ngv_trader.Order.Fetch.Fields.{
  broker_status, safe_quantity, apply_contract_fields, apply_state_fields, apply_trade_fields,
  same_ticket, same_snapshot,
}
use ngv_trader.Order.Fetch.Sync.{
  stamp_submitted, complete_if, force_status, reconcile_order_status, finish_sync,
  sync_trade_onto_order,
}

abbrev pub one_if : Bool → ℕ
one_if true = 1
one_if false = 0

or_some : (o : Option ℕ) (n : ℕ) → is_some (or_else o (some n)) ≡ true
or_some none n = refl
or_some (some m) n = refl

length-append_one :
    {A : Type 0} (xs : List A) (n : ℕ) (x : A) → length xs ≡ n + 0 → length (xs ++ x ∷ []) ≡ n + 1
length-append_one xs n x h = omega (arith, h, length-append xs (x ∷ []))

status_eq_comm : (a b : OrderStatus) → status_eq a b ≡ false → status_eq b a ≡ false
status_eq_comm a b h = ground arith

and_false : (b : Bool) → (b && false) ≡ false
and_false true = refl
and_false false = refl

module _ {F : Type 0} where
  -- The order of a work after the broker's status was taken over, from the order before.
  pub record IsAt (next : OrderStatus) (id : ℕ) (o : Order F) : Type 0 where
    pub same_id : o.id ≡ id
    pub at_status : o.status ≡ next
    pub stamped : IsStamped o

  force_status-IsStamped :
      (now : ℕ) (next : OrderStatus) (o : Order F)
      → (next ≡ OrderStatus.submitted → is_some o.submitted_at ≡ true)
      → IsStamped (force_status now next o)
  force_status-IsStamped now next o sub = record {
    submitted_stamped = sub;
    terminal_stamped = λ e. rw e (or_some o.completed_at now);
  }

  -- The same of the status alone, of which a change is a move.
  record IsMoved (next : OrderStatus) (before : Work F) (p : Result Bool × Work F) : Type 0 where
    changed : Bool
    moves : changed ≡ true → status_eq before.order.status next ≡ false
    returned : p.0 ≡ ok changed
    order_at : IsAt next before.order.id p.1.order
    logged : length p.1.events ≡ length before.events + one_if changed

  reconcile_order_status-IsMoved :
      (now : ℕ) (t : BrokerOrder F) (next : OrderStatus) (w : Work F)
      → IsStamped w.order
      → (next ≡ OrderStatus.submitted → is_some w.order.submitted_at ≡ true)
      → IsMoved next w (reconcile_order_status now t next w)
  unfolding reconcile_order_status transition_order_status append_order_event
  reconcile_order_status-IsMoved now t next w h sub =
      elim (Bool-cases (status_eq w.order.status next)) [
        | inl same ↦ rw same (record {
          changed = false;
          moves = λ e. cc e;
          returned = refl;
          order_at = record { same_id = refl; at_status = status_eq-true _ _ same; stamped = h };
          logged = omega arith;
        })
        | inr moves ↦ elim (Bool-cases (can_transition_order_status w.order.status next)) [
          | inl allowed ↦
              rw (moves, allowed)
                (record {
                  changed = true;
                  moves = λ e. moves;
                  returned = refl;
                  order_at = record {
                    same_id = unfold set_status in refl;
                    at_status = unfold set_status in refl;
                    stamped = set_status-IsStamped now next w.order;
                  };
                  logged = length-append w.events (_ ∷ []);
                })
          | inr forced ↦
              rw (moves, forced)
                (record {
                  changed = true;
                  moves = λ e. moves;
                  returned = refl;
                  order_at = record {
                    same_id = refl;
                    at_status = refl;
                    stamped = force_status-IsStamped now next w.order sub;
                  };
                  logged = length-append w.events (_ ∷ []);
                })
        ]
      ]

module _ {F : Type 0} ⦃fl : FloatOps F⦄ where
  -- The call answered whether a field of the snapshot differs from before, and appended an event
  -- exactly if one does.
  pub record IsSynced (next : OrderStatus) (before : Work F) (p : Result Bool × Work F)
      : Type 0 where
    pub changed : Bool
    pub returned : p.0 ≡ ok changed
    pub differs : changed ≡ not (same_snapshot p.1.order before.order)
    pub order_at : IsAt next before.order.id p.1.order
    pub logged : length p.1.events ≡ length before.events + one_if changed

  -- The call raised: no event, and the status and the stamps are those of before.
  pub record HasRaised (before : Work F) (p : Result Bool × Work F) : Type 0 where
    pub raised : p.0 ≡ err Error.not_finite
    pub same_events : p.1.events ≡ before.events
    pub same_status : p.1.order.status ≡ before.order.status
    pub same_id : p.1.order.id ≡ before.order.id
    pub stamped : IsStamped p.1.order

  -- The quantity that the broker reports can be rounded to a whole number.
  abbrev pub HasQuantity : (F → Option ℕ) → BrokerOrder F → Type 0
  HasQuantity rounded t = (n : ℕ) × (safe_quantity rounded t.total_quantity ≡ some n)

  same_snapshot-moved :
      (a b : Order F) → status_eq a.status b.status ≡ false → same_snapshot a b ≡ false
  unfolding same_snapshot
  same_snapshot-moved a b h = rw h (and_false (same_ticket a b))

  complete_if-IsAt :
      (now : ℕ) (next : OrderStatus) (id : ℕ) (o : Order F)
      → IsAt next id o
      → IsAt next id (complete_if now next o)
  complete_if-IsAt now next id o h = record {
    same_id = h.same_id;
    at_status = h.at_status;
    stamped = record {
      submitted_stamped = h.stamped.submitted_stamped;
      terminal_stamped = λ e.
          let over : is_terminal next ≡ true = subst (λ s. is_terminal s ≡ true) h.at_status e in
          rw over (or_some o.completed_at now);
    };
  }

  -- What is said of a work before the last step of a sync.
  record IsPending (next : OrderStatus) (prev : Order F) (events : ℕ) (emitted : Bool) (w : Work F)
      : Type 0 where
    order_at : IsAt next prev.id w.order
    logged : length w.events ≡ events + one_if emitted
    moved : emitted ≡ true → same_snapshot w.order prev ≡ false

  finish_sync-IsSynced :
      (now : ℕ) (t : BrokerOrder F) (next : OrderStatus) (before : Work F) (emitted : Bool)
      (w : Work F)
      → IsPending next before.order (length before.events) emitted w
      → IsSynced next before (finish_sync now t next before.order emitted w)
  unfolding finish_sync append_order_event same_snapshot
  finish_sync-IsSynced now t next before true w h = rw (h.moved refl) (record {
    changed = true;
    returned = refl;
    differs = ap not (sym (h.moved refl));
    order_at = complete_if-IsAt now next before.order.id w.order h.order_at;
    logged = h.logged;
  })
  finish_sync-IsSynced now t next before false w h =
      elim (Bool-cases (same_snapshot w.order before.order)) [
        | inl same ↦ rw same (record {
          changed = false;
          returned = refl;
          differs = ap not (sym same);
          order_at = h.order_at;
          logged = h.logged;
        })
        | inr changed ↦
            rw (changed, ◌>>=◌, ◌>>◌)
              (record {
                changed = true;
                returned = refl;
                differs = ap not (sym changed);
                order_at = complete_if-IsAt now next before.order.id w.order h.order_at;
                logged = length-append_one w.events (length before.events) _ h.logged;
              })
      ]

  prepared-IsStamped :
      (now : ℕ) (t : BrokerOrder F) (next : OrderStatus) (n : ℕ) (o : Order F)
      → IsStamped o
      → IsStamped
          (stamp_submitted now next (apply_state_fields now t n (apply_contract_fields t o)))
  unfolding apply_state_fields apply_contract_fields
  prepared-IsStamped now t next n o h = record {
    submitted_stamped = λ e. elim (Bool-cases (status_eq next OrderStatus.queued)) [
      | inl q ↦ rw q (h.submitted_stamped e)
      | inr q ↦ rw q (or_some o.submitted_at now)
    ];
    terminal_stamped = h.terminal_stamped;
  }

  apply_trade_fields_finite :
      (rounded : F → Option ℕ) (now : ℕ) (t : BrokerOrder F) (w : Work F) (n : ℕ)
      → safe_quantity rounded t.total_quantity ≡ some n
      → apply_trade_fields rounded now t w
        ≡ (ok tt, record w { order = apply_state_fields now t n (apply_contract_fields t w.order) })
  unfolding apply_trade_fields
  apply_trade_fields_finite rounded now t w n e = rw (apply_trade_fields, e) refl

  pub sync_trade_onto_order_finite :
      (rounded : F → Option ℕ) (now : ℕ) (t : BrokerOrder F) (w : Work F)
      → HasQuantity rounded t
      → IsStamped w.order
      → IsSynced (broker_status t.trade) w (sync_trade_onto_order rounded now t w)
  unfolding sync_trade_onto_order apply_state_fields apply_contract_fields
  sync_trade_onto_order_finite rounded now t w (n, finite) h =
      let next = broker_status t.trade in
      let prepared = apply_state_fields now t n (apply_contract_fields t w.order) in
      let o = stamp_submitted now next prepared in
      let ready : Work F = record { order = o; events = w.events } in
      let m =
        reconcile_order_status-IsMoved now t next ready (prepared-IsStamped now t next n w.order h)
          (λ e. rw e (or_some w.order.submitted_at now)) in
      let after = reconcile_order_status now t next ready in
      rw (apply_trade_fields_finite rounded now t w n finite, ◌>>=◌, ◌>>◌, m.returned, resume)
        (finish_sync-IsSynced now t next w m.changed after.1 (record {
          order_at = m.order_at;
          logged = m.logged;
          moved = λ e.
              same_snapshot-moved after.1.order w.order
                (rw m.order_at.at_status (status_eq_comm w.order.status next (m.moves e)));
        }))
