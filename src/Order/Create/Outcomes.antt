-- ===== src/Order/Create/Outcomes.antt =====
-- Every way in which a creation ends, and what it leaves in the tables.
use ngv_trader.Prelude.{
  ℕ, ◌+◌, ◌≤◌, ◌≡◌, option_eq, refl, ◌⊎◌, inl, inr, subst, sym, true, false, Bool-cases, Option,
  none, some, Option-cases, some_inj, List, [], ◌∷◌, ◌++◌, filter, Text, FloatOps, Among,
  Among-filter, length, length-append, leb,
}
use ngv_trader.Order.Status.{OrderStatus}
use ngv_trader.Order.Model.{Order, Result, ok, err}
use ngv_trader.Order.Create.{
  OrderCreateOutcome, OrderBook, is_match, newer, newest, find_idempotent_create_match, order_from,
  add_order, create_queued_order,
}
use ngv_trader.Order.Ticket.{OrderCreateInput, normalize_order_create_input}
use ngv_trader.Order.Create.Laws.{
  Result-cases, create_queued_order-Made, newest_after, order_from-is_match,
}

module _ {F : Type 0} ⦃fl : FloatOps F⦄ where
  newer-cases : (x p : Order F) → (newer x (some p) ≡ x) ⊎ (newer x (some p) ≡ p)
  newer-cases x p = elim (Bool-cases (leb p.created_at x.created_at)) [
    | inl e ↦ inl (rw e refl)
    | inr e ↦ inr (rw e refl)
  ]

  newer-Among :
      (x : Order F) (r : Option (Order F)) (os : List (Order F))
      → ((p : Order F) → r ≡ some p → Among p os)
      → Among (newer x r) (x ∷ os)
  newer-Among x none os h = inl refl
  newer-Among x (some p) os h = elim (newer-cases x p) [
    | inl e ↦ inl e
    | inr e ↦ inr (subst (λ (y : Order F). Among y os) (sym e) (h p refl))
  ]

  newest-Among : (os : List (Order F)) (o : Order F) → newest os ≡ some o → Among o os
  unfolding newest
  newest-Among [] o h = absurd (cc h)
  newest-Among (x ∷ os) o h =
      subst (λ (y : Order F). Among y (x ∷ os)) (some_inj _ _ h)
        (newer-Among x (newest os) os (λ p e. newest-Among os p e))

  -- The answer is an order of the table that matches the input, and nothing has changed.
  pub record Repeats (now window : ℕ) (raw : OrderCreateInput F) (book : OrderBook F) (o : Order F)
      (book' : OrderBook F) : Type 0 where
    pub unchanged : book' ≡ book
    pub there : Among o book.orders
    pub matches :
        (n : OrderCreateInput F) × (normalize_order_create_input raw ≡ ok n)
        × (is_match now window n o ≡ true)

  -- The answer is a queued order, added at the end with one event.
  pub record Adds (book : OrderBook F) (o : Order F) (book' : OrderBook F) : Type 0 where
    pub added : book'.orders ≡ book.orders ++ o ∷ []
    pub queued : o.status ≡ OrderStatus.queued
    pub one_event : length book'.events ≡ length book.events + 1

  abbrev pub Ends :
      ℕ
      → ℕ
      → OrderCreateInput F
      → OrderBook F
      → Result (OrderCreateOutcome F) × OrderBook F
      → Type 0
  Ends now window raw book (err e, book') = book' ≡ book
  Ends now window raw book (ok o, book') =
      ((o.created ≡ false) × Repeats now window raw book o.order book')
      ⊎ ((o.created ≡ true) × Adds book o.order book')

  -- A creation that is refused changes nothing; one that creates adds one queued order and one event;
  -- and one that does not create answers an order of the table that matches the input, and changes
  -- nothing.
  pub create_queued_order-Ends :
      (now window : ℕ) (account_of : ℕ → Option Text) (raw : OrderCreateInput F)
      (book : OrderBook F)
      → Ends now window raw book (create_queued_order now window account_of raw book)
  unfolding create_queued_order find_idempotent_create_match add_order order_from
  create_queued_order-Ends now window account_of raw book =
      elim (Result-cases (normalize_order_create_input raw)) [
        | inr (x, e) ↦ rw (e, create_queued_order) refl
        | inl (n, e) ↦ elim (Option-cases (account_of n.account_id)) [
          | inl unknown ↦ rw (e, unknown, create_queued_order) refl
          | inr (account, known) ↦
              elim (Option-cases (newest (filter (is_match now window n) book.orders))) [
                | inr (o, found) ↦
                    let (there, matches) =
                      Among-filter (is_match now window n) o book.orders (newest-Among _ o found) in
                    rw (e, known, found, create_queued_order)
                      (inl (
                        refl,
                        record { unchanged = refl; there = there; matches = (n, e, matches) },
                      ))
                | inl fresh ↦
                    rw (e, known, fresh, create_queued_order)
                      (inr (
                        refl,
                        record {
                          added = refl;
                          queued = refl;
                          one_event = length-append book.events _;
                        },
                      ))
              ]
        ]
      ]

  answers_Repeats :
      (now window : ℕ) (raw : OrderCreateInput F) (book book' : OrderBook F)
      (o : OrderCreateOutcome F)
      → Ends now window raw book (ok o, book')
      → o.created ≡ false
      → Repeats now window raw book o.order book'
  answers_Repeats now window raw book book' o (inl (e, h)) f = h
  answers_Repeats now window raw book book' o (inr (e, h)) f = absurd (cc (e, f))

  -- After a call that created an order, a call with the same input within the window makes no second
  -- one: it answers an order that is in the table and matches the input, and changes nothing, if the
  -- order's price is equal to itself.
  pub create_queued_order-twice :
      (now later window : ℕ) (account_of : ℕ → Option Text) (raw : OrderCreateInput F)
      (book book' : OrderBook F) (o : OrderCreateOutcome F)
      → create_queued_order now window account_of raw book ≡ (ok o, book')
      → o.created ≡ true
      → option_eq fl.same o.order.limit_price o.order.limit_price ≡ true
      → later ≤ now + window
      → (p : OrderCreateOutcome F) × (create_queued_order later window account_of raw book'
          ≡ (ok p, book'))
        × (p.created ≡ false)
        × Repeats later window raw book' p.order book'
  unfolding create_queued_order find_idempotent_create_match order_from
  create_queued_order-twice now later window account_of raw book book' o h made price soon =
      let m = create_queued_order-Made now window account_of raw book book' o h made in
      let (p, found) =
        newest_after later window m.input book.orders book'.orders
          (order_from now book.next_id m.input) m.added
          (order_from-is_match now later window book.next_id m.input (rw m.order at price) soon) in
      let answer : OrderCreateOutcome F = record {
        order = p;
        account = m.account;
        created = false;
      } in
      let answered : create_queued_order later window account_of raw book' ≡ (ok answer, book') =
        rw (m.accepted, m.known, found, create_queued_order) refl in
      (
        answer,
        answered,
        refl,
        answers_Repeats later window raw book' book' answer
            (subst (Ends later window raw book') answered
              (create_queued_order-Ends later window account_of raw book'))
            refl,
      )
