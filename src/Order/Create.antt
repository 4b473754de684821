-- ===== src/Order/Create.antt =====
-- src/services/order_mutations.py: the creation of a queued order, which answers a recent equal
-- order in place of a second one.
use ngv_trader.Prelude.{
  ℕ, suc, ◌+◌, Bool, true, false, not, ◌&&◌, ◌||◌, Option, none, some, List, [], ◌∷◌, ◌++◌, filter,
  Text, text, text_eq, text_mem, starts_with, is_empty, option_eq, strip, upper, leb, ◌==◌,
  FloatOps, if◌then◌else◌,
}
use ngv_trader.Prelude.Int.{ℤ, pos, negsuc}
use ngv_trader.Order.Status.{OrderStatus, status_mem}
use ngv_trader.Order.Model.{
  CreateError, empty_field, slash_not_future, slash_without_root, invalid_side, invalid_quantity,
  invalid_order_type, invalid_limit_price, invalid_account, Error, refused, Order, OrderEvent,
  Result, ok, err, literal, order_created,
}
use ngv_trader.Order.Queue.{event_of}
use ngv_trader.Order.Ticket.{OrderCreateInput, count_of, normalize_order_create_input}
pub mod Laws
pub mod Outcomes

pub record OrderCreateOutcome (F : Type 0) : Type 0 where
  pub order : Order F
  pub account : Text
  pub created : Bool

-- The tables of orders and events, with the next id; new rows are added at the end.
pub record OrderBook (F : Type 0) : Type 0 where
  pub orders : List (Order F)
  pub events : List (OrderEvent F)
  pub next_id : ℕ

abbrev idempotent_create_statuses : List OrderStatus
idempotent_create_statuses =
    OrderStatus.queued ∷ OrderStatus.submitting ∷ OrderStatus.submitted
    ∷ OrderStatus.partially_filled ∷ OrderStatus.reconcile_required ∷ []

module _ {F : Type 0} ⦃fl : FloatOps F⦄ where
  -- The `where` of the query.
  unfoldable pub is_match : ℕ → ℕ → OrderCreateInput F → Order F → Bool
  is_match now window_seconds n o =
      o.account_id == n.account_id
      && text_eq o.symbol n.symbol
      && text_eq o.sec_type n.sec_type
      && text_eq o.exchange n.exchange
      && text_eq o.currency n.currency
      && text_eq o.side n.side
      && o.quantity == count_of n.quantity
      && text_eq o.order_type n.order_type
      && option_eq fl.same o.limit_price n.limit_price
      && text_eq o.tif n.tif
      && text_eq o.source n.source
      && option_eq text_eq o.request_text n.request_text
      && status_mem o.status idempotent_create_statuses
      && leb now (o.created_at + window_seconds)

  abbrev pub newer : Order F → Option (Order F) → Order F
  newer o none = o
  newer o (some p) = if leb p.created_at o.created_at then o else p

  -- Newest first; of orders of one instant the table's first.
  unfoldable pub newest : List (Order F) → Option (Order F)
  newest [] = none
  newest (o ∷ os) = some (newer o (newest os))

  unfoldable pub find_idempotent_create_match :
      ℕ → ℕ → OrderCreateInput F → List (Order F) → Option (Order F)
  unfolding newest
  find_idempotent_create_match now window_seconds n orders =
      newest (filter (is_match now window_seconds n) orders)

  -- The new row, with the defaults of the columns that are not given.
  unfoldable pub order_from : ℕ → ℕ → OrderCreateInput F → Order F
  order_from now id n = record {
    id = id;
    account_id = n.account_id;
    symbol = n.symbol;
    sec_type = n.sec_type;
    exchange = n.exchange;
    currency = n.currency;
    side = n.side;
    quantity = count_of n.quantity;
    order_type = n.order_type;
    limit_price = n.limit_price;
    tif = n.tif;
    status = OrderStatus.queued;
    source = n.source;
    con_id = none;
    local_symbol = none;
    trading_class = none;
    contract_month = none;
    contract_expiry = none;
    ib_order_id = none;
    ib_perm_id = none;
    filled_quantity = fl.zero_value;
    avg_fill_price = none;
    last_error = none;
    request_text = n.request_text;
    submitted_at = none;
    completed_at = none;
    created_at = now;
    updated_at = now;
  }

  unfoldable pub add_order : ℕ → OrderCreateInput F → OrderBook F → Order F × OrderBook F
  unfolding order_from
  add_order now n book =
      let order = order_from now book.next_id n in
      (
        order,
        record {
          orders = book.orders ++ order ∷ [];
          events =
              book.events
              ++ event_of now order_created (literal "Order queued for worker execution.") order
                ∷ [];
          next_id = suc book.next_id;
        },
      )

  abbrev answer : Bool → Text → Order F → OrderCreateOutcome F
  answer created account order = record { order = order; account = account; created = created }

  unfoldable pub create_queued_order :
      ℕ
      → ℕ
      → (ℕ → Option Text)
      → OrderCreateInput F
      → OrderBook F
      → Result (OrderCreateOutcome F) × OrderBook F
  unfolding normalize_order_create_input find_idempotent_create_match add_order
  create_queued_order now window_seconds account_of raw book =
      elim (normalize_order_create_input raw) [
        | err e ↦ (err e, book)
        | ok n ↦ elim (account_of n.account_id) [
          | none ↦ (err (refused invalid_account), book)
          | some account ↦ elim (find_idempotent_create_match now window_seconds n book.orders) [
            | some existing ↦ (ok (answer false account existing), book)
            | none ↦
                let (order, book') = add_order now n book in (ok (answer true account order), book')
          ]
        ]
      ]
