-- ===== src/Order/Create/Laws.antt =====
-- What creation promises: no second order for a repeated call, and orders that can be built.
use ngv_trader.Prelude.{
  ℕ, ◌+◌, ◌≤◌, ◌≡◌, refl, subst, ◌⊎◌, inl, inr, Bool, true, false, ◌&&◌, Bool-cases, Option, none,
  some, Option-cases, List, [], ◌∷◌, ◌++◌, filter, arith, upper, strip, Text, text, text_eq,
  text_eq_refl, text_eq-true, option_eq, FloatOps, All,
}
use ngv_trader.Order.Model.{CreateError, Order, Result, ok, err, Error}
use ngv_trader.Order.Process.{IbOrder, build_ib_order}
use ngv_trader.Order.Create.{
  OrderCreateOutcome, OrderBook, is_match, newest, find_idempotent_create_match, order_from,
  add_order, create_queued_order,
}
use ngv_trader.Order.Ticket.{
  OrderCreateInput, first_error, normal_form, create_guards, normalize_order_create_input,
  is_bad_price, price_of,
}

option_text_eq_refl : (s : Option Text) → option_eq text_eq s s ≡ true
option_text_eq_refl none = refl
option_text_eq_refl (some s) = text_eq_refl s

pub Result-cases :
    {A : Type 0} (r : Result A) → ((a : A) × (r ≡ ok a)) ⊎ ((e : Error) × (r ≡ err e))
Result-cases (ok a) = inl (a, refl)
Result-cases (err e) = inr (e, refl)

first_error-none :
    (guards : List (Bool × CreateError)) → first_error guards ≡ none → All (λ g. g.0 ≡ false) guards
unfolding first_error
first_error-none [] h = tt
first_error-none ((true, e) ∷ guards) h = cc
first_error-none ((false, e) ∷ guards) h = (refl, first_error-none guards h)

module _ {F : Type 0} ⦃fl : FloatOps F⦄ where
  newest-append_one :
      (now window : ℕ) (n : OrderCreateInput F) (os : List (Order F)) (o : Order F)
      → is_match now window n o ≡ true
      → (p : Order F) × (newest (filter (is_match now window n) (os ++ o ∷ [])) ≡ some p)
  unfolding newest
  newest-append_one now window n [] o h = rw h (o, refl)
  newest-append_one now window n (x ∷ os) o h = elim (Bool-cases (is_match now window n x)) [
    | inl e ↦ rw e (_, refl)
    | inr e ↦ rw e (newest-append_one now window n os o h)
  ]

  pub newest_after :
      (now window : ℕ) (n : OrderCreateInput F) (os os' : List (Order F)) (o : Order F)
      → os' ≡ os ++ o ∷ []
      → is_match now window n o ≡ true
      → (p : Order F) × (newest (filter (is_match now window n) os') ≡ some p)
  newest_after now window n os os' o e h = rw e (newest-append_one now window n os o h)

  -- The order made of an input matches that input for the length of the window.
  pub order_from-is_match :
      (now later window id : ℕ) (n : OrderCreateInput F)
      → option_eq fl.same n.limit_price n.limit_price ≡ true
      → later ≤ now + window
      → is_match later window n (order_from now id n) ≡ true
  unfolding is_match order_from
  order_from-is_match now later window id n price h = ground (
    arith,
    price,
    text_eq_refl n.symbol,
    text_eq_refl n.sec_type,
    text_eq_refl n.exchange,
    text_eq_refl n.currency,
    text_eq_refl n.side,
    text_eq_refl n.order_type,
    text_eq_refl n.tif,
    text_eq_refl n.source,
    option_text_eq_refl n.request_text,
  )

  -- What a call that created an order has passed and added.
  pub record Made (now : ℕ) (account_of : ℕ → Option Text) (raw : OrderCreateInput F)
      (book book' : OrderBook F) (o : OrderCreateOutcome F) : Type 0 where
    pub input : OrderCreateInput F
    pub account : Text
    pub accepted : normalize_order_create_input raw ≡ ok input
    pub known : account_of input.account_id ≡ some account
    pub order : o.order ≡ order_from now book.next_id input
    pub added : book'.orders ≡ book.orders ++ order_from now book.next_id input ∷ []

  pub create_queued_order-Made :
      (now window : ℕ) (account_of : ℕ → Option Text) (raw : OrderCreateInput F)
      (book book' : OrderBook F) (o : OrderCreateOutcome F)
      → create_queued_order now window account_of raw book ≡ (ok o, book')
      → o.created ≡ true
      → Made now account_of raw book book' o
  unfolding create_queued_order add_order
  create_queued_order-Made now window account_of raw book book' o h made =
      elim (Result-cases (normalize_order_create_input raw)) [
        | inr (x, e) ↦ absurd (cc (rw (e, create_queued_order) at h))
        | inl (n, e) ↦ elim (Option-cases (account_of n.account_id)) [
          | inl unknown ↦ absurd (cc (rw (e, unknown, create_queued_order) at h))
          | inr (account, known) ↦
              elim (Option-cases (find_idempotent_create_match now window n book.orders)) [
                | inr (p, found) ↦
                    absurd (cc (made, rw (e, known, found, create_queued_order) at h))
                | inl fresh ↦
                    let h' = rw (e, known, fresh, create_queued_order) at h in
                    record {
                      input = n;
                      account = account;
                      accepted = e;
                      known = known;
                      order = cc h';
                      added = cc h';
                    }
              ]
        ]
      ]

  limit_order_has_price :
      (order_type : Text) (limit_price : Option F)
      → (text_eq order_type (text "LMT") && is_bad_price limit_price) ≡ false
      → text_eq order_type (text "LMT") ≡ true
      → (x : F) × (price_of order_type limit_price ≡ some x)
  unfolding text_eq
  limit_order_has_price order_type none good limit = absurd (cc (rw limit at good))
  limit_order_has_price order_type (some x) good limit =
      rw (text_eq-true order_type (text "LMT") limit) (x, refl)

  accepted-price :
      (raw n : OrderCreateInput F)
      → normalize_order_create_input raw ≡ ok n
      → text_eq n.order_type (text "LMT") ≡ true
      → (x : F) × (n.limit_price ≡ some x)
  unfolding normalize_order_create_input normal_form
  accepted-price raw n h limit =
      elim (Option-cases (first_error (create_guards (normal_form raw) raw.limit_price))) [
        | inr (x, e) ↦ absurd (cc (rw (e, normalize_order_create_input) at h))
        | inl e ↦
            let same : normal_form raw ≡ n = cc (rw (e, normalize_order_create_input) at h) in
            let guards : All (λ (g : Bool × CreateError). g.0 ≡ false)
                (create_guards (normal_form raw) raw.limit_price) =
              first_error-none (create_guards (normal_form raw) raw.limit_price) e in
            subst
              (λ m. text_eq m.order_type (text "LMT") ≡ true → (x : F) × (m.limit_price ≡ some x))
              same
              (λ l.
                limit_order_has_price (upper (strip raw.order_type)) raw.limit_price
                  guards.1.1.1.1.1.1.1.1.1.0 l)
              limit
      ]

  build_from :
      (now id : ℕ) (n : OrderCreateInput F) (tws_account : Text)
      → (text_eq n.order_type (text "LMT") ≡ true → (x : F) × (n.limit_price ≡ some x))
      → (ib : IbOrder F) × (build_ib_order (order_from now id n) tws_account ≡ ok ib)
  unfolding order_from build_ib_order
  build_from now id n tws_account price = elim (Bool-cases (text_eq n.order_type (text "LMT"))) [
    | inl e ↦ let (x, p) = price e in rw (e, p) (_, refl)
    | inr e ↦ rw e (_, refl)
  ]

  -- An order that was created can be built for the broker: a limit order has its price.
  pub create_queued_order-build_ib_order :
      (now window : ℕ) (account_of : ℕ → Option Text) (raw : OrderCreateInput F)
      (book book' : OrderBook F) (o : OrderCreateOutcome F) (tws_account : Text)
      → create_queued_order now window account_of raw book ≡ (ok o, book')
      → o.created ≡ true
      → (ib : IbOrder F) × (build_ib_order o.order tws_account ≡ ok ib)
  create_queued_order-build_ib_order now window account_of raw book book' o tws_account h made =
      let m = create_queued_order-Made now window account_of raw book book' o h made in
      rw m.order
        (build_from now book.next_id m.input tws_account (accepted-price raw m.input m.accepted))
