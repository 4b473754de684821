-- ===== src/Order/Reconcile/Laws.antt =====
-- The startup pass: it never raises, and each order ends where the broker's view puts it.
use ngv_trader.Prelude.{
  ℕ, ◌≡◌, refl, sym, subst, ◌≤◌, inl, inr, Bool, true, false, Option, none, some, List, [], ◌∷◌,
  arith, length, suc, ◌+◌, All, Bool-cases, FloatOps, if◌then◌else◌,
}
use ngv_trader.Order.Status.{
  OrderStatus, can_transition_order_status, is_terminal, status_eq, status_eq-true, status_mem,
}
use ngv_trader.Order.Model.{Order, OrderEvent, Work, Result, ok, ◌>>=◌, ◌>>◌}
use ngv_trader.Order.Broker.{Trade}
use ngv_trader.Order.Queue.{append_order_event, set_status}
use ngv_trader.Order.Queue.Laws.{IsStamped, set_status-IsStamped, transition_then}
use ngv_trader.Order.Worker.{reconcile_eligible_statuses, normalize_ib_status, filled_of}
use ngv_trader.Order.Worker.Laws.{Lands, apply_trade_progress-Lands}
use ngv_trader.Order.Reconcile.{trade_of, reconcile_order, reconcile_orders, touch}

eligible_may_reconcile :
    (s : OrderStatus)
    → status_mem s reconcile_eligible_statuses ≡ true
    → status_eq s OrderStatus.reconcile_required ≡ false
    → can_transition_order_status s OrderStatus.reconcile_required ≡ true
unfolding can_transition_order_status
eligible_may_reconcile s h k = ground arith

touched_le :
    (b : Bool) (r : Result ℕ) (k : ℕ)
    → ((n : ℕ) × (r ≡ ok n) × (n ≤ k))
    → (n : ℕ) × (touch b r ≡ ok n) × (n ≤ suc k)
touched_le true r k (n, e, h) = (n + 1, rw e, omega arith)
touched_le false r k (n, e, h) = (n, rw e, omega arith)

module _ {F : Type 0} ⦃fl : FloatOps F⦄ where
  -- Where an order that is not terminal belongs: at the status of its open trade, or, if it has
  -- none, at `reconcile_required` when it had been sent and at its own status when it is queued.
  abbrev pub status_after : Option (Trade F) → OrderStatus → OrderStatus
  status_after (some trade) s = normalize_ib_status trade.status (filled_of trade)
  status_after none s =
      if status_mem s reconcile_eligible_statuses then OrderStatus.reconcile_required else s

  reconcile_order-Lands :
      (now : ℕ) (trade : Option (Trade F)) (w : Work F)
      → IsStamped w.order
      → Lands (status_after trade w.order.status) (reconcile_order now trade w)
  unfolding reconcile_order append_order_event
  reconcile_order-Lands now (some trade) w h = apply_trade_progress-Lands now trade _ _ w h
  reconcile_order-Lands now none w h =
      elim (Bool-cases (status_mem w.order.status reconcile_eligible_statuses)) [
        | inr queued ↦ rw queued ((false, refl), refl, h)
        | inl sent ↦ elim (Bool-cases (status_eq w.order.status OrderStatus.reconcile_required)) [
          | inl same ↦ rw (sent, same, ◌>>=◌, ◌>>◌) ((true, refl), status_eq-true _ _ same, h)
          | inr moves ↦
              rw (sent, moves)
                (subst (Lands OrderStatus.reconcile_required)
                  (sym (
                    transition_then now OrderStatus.reconcile_required _ _ w true
                      (eligible_may_reconcile _ sent moves)))
                  (
                    (true, refl),
                    unfold set_status in refl,
                    set_status-IsStamped now OrderStatus.reconcile_required w.order,
                  ))
        ]
      ]

  -- One order before and after the pass: a terminal one is left alone.
  abbrev pub ReconciledOrder : List (Trade F) → Order F → Order F → Type 0
  ReconciledOrder trades o p =
      (p.status
        ≡ (if is_terminal o.status then o.status else status_after (trade_of trades o.id) o.status))
      × IsStamped p
      × (is_terminal o.status ≡ true → p ≡ o)

  abbrev pub Reconciled : List (Trade F) → List (Order F) → List (Order F) → Type 0
  Reconciled trades [] [] = Unit
  Reconciled trades [] (p ∷ ps) = ⊥
  Reconciled trades (o ∷ os) [] = ⊥
  Reconciled trades (o ∷ os) (p ∷ ps) = ReconciledOrder trades o p × Reconciled trades os ps

  abbrev pub Finishes :
      List (Trade F) → List (Order F) → Result ℕ × List (Order F) × List (OrderEvent F) → Type 0
  Finishes trades os (r, ps, events) =
      ((n : ℕ) × (r ≡ ok n) × (n ≤ length os)) × Reconciled trades os ps

  left_alone :
      (trades : List (Trade F)) (o : Order F)
      → is_terminal o.status ≡ true
      → IsStamped o
      → ReconciledOrder trades o o
  left_alone trades o done h = rw done (refl, h, λ _. refl)

  landed :
      (trades : List (Trade F)) (o p : Order F)
      → is_terminal o.status ≡ false
      → p.status ≡ status_after (trade_of trades o.id) o.status
      → IsStamped p
      → ReconciledOrder trades o p
  landed trades o p unfinished status h = rw unfinished (status, h, λ e. cc)

  -- The pass over orders with stamps never raises, counts at most every order, leaves terminal
  -- orders as they are, and puts every other order at the status of the last open trade that names
  -- it, or at `reconcile_required` or its own status if there is none; the stamps are kept.
  pub reconcile_orders-Finishes :
      (now : ℕ) (trades : List (Trade F)) (os : List (Order F)) (events : List (OrderEvent F))
      → All IsStamped os
      → Finishes trades os (reconcile_orders now trades os events)
  unfolding reconcile_orders
  reconcile_orders-Finishes now trades [] events h = ((0, refl, omega arith), tt)
  reconcile_orders-Finishes now trades (o ∷ os) events h =
      elim (Bool-cases (is_terminal o.status)) [
        | inl done ↦
            let (count, rest) = reconcile_orders-Finishes now trades os events h.1 in
            rw (done, reconcile_orders)
              ((count.0, count.1, omega (arith, count.2)), (left_alone trades o done h.0, rest))
        | inr open_order ↦
            let w : Work F = record { order = o; events = events } in
            let (went, status, stamped) = reconcile_order-Lands now (trade_of trades o.id) w h.0 in
            let (count, rest) =
              reconcile_orders-Finishes now trades os
                (reconcile_order now (trade_of trades o.id) w).1.events h.1 in
            rw (open_order, went.1, reconcile_orders)
              (touched_le went.0 _ _ count, (landed trades o _ open_order status stamped, rest))
      ]
