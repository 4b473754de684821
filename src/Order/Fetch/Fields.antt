-- ===== src/Order/Fetch/Fields.antt =====
-- The fields of an order that are taken from the broker. `rounded` is `int(round(x))` of a float that
-- is not negative, and `none` where that raises, as for an infinite one.
use ngv_trader.Prelude.{
  ℕ, zero, suc, Bool, not, ◌&&◌, Option, none, some, [], ◌∷◌, ◌++◌, Text, text, text_eq, text_mem,
  option_eq, or_empty, is_empty, upper, strip, ◌==◌, FloatOps, RawValue, if◌then◌else◌,
}
use ngv_trader.Order.Status.{OrderStatus, status_eq, is_terminal}
use ngv_trader.Order.Model.{Order, Action, Error, ok, err}
use ngv_trader.Order.Broker.{Trade}
use ngv_trader.Order.Worker.{parse_float, normalize_ib_status, filled_of, apply_contract_details}
use ngv_trader.Order.Fetch.Rows.{BrokerOrder}

-- `value or default` on texts.
abbrev or_default : Text → Text → Text
or_default s default = if is_empty s then default else s

abbrev some_text : Text → Option Text
some_text s = if is_empty s then none else some s

-- The side of `_normalize_side`: what is neither is a purchase.
unfoldable pub normalize_action : Option Text → Text
unfolding upper strip
normalize_action raw_action =
    let action = upper (strip (or_default (or_empty raw_action) (text "BUY"))) in
    if text_mem action (text "BUY" ∷ text "SELL" ∷ []) then action else text "BUY"

abbrev positive_or_one : ℕ → ℕ
positive_or_one zero = 1
positive_or_one (suc n) = suc n

abbrev none_text : Option Text → Text
none_text none = text "None"
none_text (some s) = s

abbrev number_or_old : ℕ → Option ℕ → Option ℕ
number_or_old n old = if n == 0 then old else some n

module _ {F : Type 0} ⦃fl : FloatOps F⦄ where
  -- `none` where the call raises.
  unfoldable pub safe_quantity : (F → Option ℕ) → RawValue F → Option ℕ
  safe_quantity rounded raw_quantity = elim (parse_float raw_quantity) [
    | none ↦ some 1
    | some parsed ↦ elim (rounded (fl.absolute parsed)) [
      | none ↦ none
      | some n ↦ some (positive_or_one n)
    ]
  ]

  unfoldable pub normalize_limit_price : Text → RawValue F → Option F
  normalize_limit_price order_type raw_value = elim (parse_float raw_value) [
    | none ↦ none
    | some value ↦
        if not (text_eq order_type (text "LMT")) && fl.same value fl.zero_value
        then none
        else some value
  ]

  abbrev pub broker_status : Trade F → OrderStatus
  broker_status trade = normalize_ib_status trade.status (filled_of trade)

  -- The row of `_create_order_from_trade`, of its quantity.
  unfoldable pub order_of_trade : ℕ → ℕ → ℕ → BrokerOrder F → ℕ → Order F
  unfolding normalize_action normalize_limit_price upper
  order_of_trade now id account_id t quantity =
      let next = broker_status t.trade in
      let order_type = upper (or_default t.order_type (text "MKT")) in
      record {
        id = id;
        account_id = account_id;
        symbol = upper (or_default t.symbol (text "UNKNOWN"));
        sec_type = upper (or_default t.sec_type (text "FUT"));
        exchange = upper (or_default t.exchange (text "SMART"));
        currency = upper (or_default t.currency (text "USD"));
        side = normalize_action t.action;
        quantity = quantity;
        order_type = order_type;
        limit_price = normalize_limit_price order_type t.lmt_price;
        tif = upper (or_default t.tif (text "DAY"));
        status = next;
        source = text "broker_sync";
        con_id = some t.trade.contract.con_id;
        local_symbol = some_text t.trade.contract.local_symbol;
        trading_class = some_text t.trade.contract.trading_class;
        contract_month = none;
        contract_expiry = some_text t.trade.contract.last_trade_date;
        ib_order_id = some t.trade.order_id;
        ib_perm_id = some t.trade.perm_id;
        filled_quantity = filled_of t.trade;
        avg_fill_price = parse_float t.trade.avg_fill_price;
        last_error = none;
        request_text = some (
            text "Imported from broker sync (orderRef="
            ++ none_text t.trade.order_ref
            ++ text ").");
        submitted_at = if status_eq next OrderStatus.queued then none else some now;
        completed_at = if is_terminal next then some now else none;
        created_at = now;
        updated_at = now;
      }

  -- What `_apply_trade_fields` assigns before the quantity.
  unfoldable pub apply_contract_fields : BrokerOrder F → Order F → Order F
  unfolding normalize_action upper
  apply_contract_fields t order = record order {
    symbol = upper (or_default t.symbol order.symbol);
    sec_type = upper (or_default t.sec_type order.sec_type);
    exchange = upper (or_default t.exchange order.exchange);
    currency = upper (or_default t.currency order.currency);
    side = normalize_action t.action;
  }

  -- The quantity, and what it assigns after it.
  unfoldable pub apply_state_fields : ℕ → BrokerOrder F → ℕ → Order F → Order F
  unfolding apply_contract_details normalize_limit_price upper
  apply_state_fields now t quantity order =
      let order_type = upper (or_default t.order_type order.order_type) in
      record (apply_contract_details t.trade order) {
        quantity = quantity;
        order_type = order_type;
        limit_price = normalize_limit_price order_type t.lmt_price;
        tif = upper (or_default t.tif order.tif);
        ib_order_id = number_or_old t.trade.order_id order.ib_order_id;
        ib_perm_id = number_or_old t.trade.perm_id order.ib_perm_id;
        filled_quantity = filled_of t.trade;
        avg_fill_price = parse_float t.trade.avg_fill_price;
        updated_at = now;
      }

  -- A quantity that is not finite raises, with the fields before it assigned.
  unfoldable pub apply_trade_fields : (F → Option ℕ) → ℕ → BrokerOrder F → Action F (Unit {0})
  unfolding apply_contract_fields safe_quantity apply_state_fields
  apply_trade_fields rounded now t w =
      let order = apply_contract_fields t w.order in
      elim (safe_quantity rounded t.total_quantity) [
        | none ↦ (err Error.not_finite, record w { order = order })
        | some quantity ↦ (ok tt, record w { order = apply_state_fields now t quantity order })
      ]

  abbrev pub same_ticket : Order F → Order F → Bool
  same_ticket a b =
      text_eq a.symbol b.symbol
      && text_eq a.sec_type b.sec_type
      && text_eq a.exchange b.exchange
      && text_eq a.currency b.currency
      && text_eq a.side b.side
      && a.quantity == b.quantity
      && text_eq a.order_type b.order_type
      && option_eq fl.same a.limit_price b.limit_price
      && text_eq a.tif b.tif

  abbrev pub same_execution : Order F → Order F → Bool
  same_execution a b =
      fl.same a.filled_quantity b.filled_quantity
      && option_eq fl.same a.avg_fill_price b.avg_fill_price
      && option_eq ◌==◌ a.ib_order_id b.ib_order_id
      && option_eq ◌==◌ a.ib_perm_id b.ib_perm_id
      && option_eq ◌==◌ a.con_id b.con_id
      && option_eq text_eq a.local_symbol b.local_symbol
      && option_eq text_eq a.trading_class b.trading_class
      && option_eq text_eq a.contract_expiry b.contract_expiry

  -- `_order_snapshot(a) == _order_snapshot(b)`: the fields before the status, the status, the others.
  unfoldable pub same_snapshot : Order F → Order F → Bool
  same_snapshot a b = same_ticket a b && (status_eq a.status b.status && same_execution a b)
