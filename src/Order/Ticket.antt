-- ===== src/Order/Ticket.antt =====
-- The input of an order and its normal form: src/services/order_mutations.py.
use ngv_trader.Prelude.{
  ℕ, Bool, true, not, ◌&&◌, Option, none, some, List, [], ◌∷◌, ◌++◌, Text, text, text_eq, text_mem,
  starts_with, is_empty, strip, upper, ◌==◌, FloatOps, if◌then◌else◌,
}
use ngv_trader.Prelude.Int.{ℤ, pos, negsuc}
use ngv_trader.Order.Model.{
  CreateError, empty_field, slash_not_future, slash_without_root, invalid_side, invalid_quantity,
  invalid_order_type, invalid_limit_price, refused, Result, ok, err,
}

pub record OrderCreateInput (F : Type 0) : Type 0 where
  pub account_id : ℕ
  pub symbol : Text
  pub side : Text
  pub quantity : ℤ
  pub sec_type : Text
  pub exchange : Text
  pub currency : Text
  pub order_type : Text
  pub limit_price : Option F
  pub tif : Text
  pub source : Text
  pub request_text : Option Text

-- Guards in the order in which the code raises: the first one that holds.
unfoldable pub first_error : List (Bool × CreateError) → Option CreateError
first_error [] = none
first_error ((holds, error) ∷ guards) =
    let rest = first_error guards in if holds then some error else rest

abbrev less_than_one : ℤ → Bool
less_than_one (pos n) = n == 0
less_than_one (negsuc _) = true

-- The column's value of a quantity that was checked to be positive.
abbrev pub count_of : ℤ → ℕ
count_of (pos n) = n
count_of (negsuc _) = 0

abbrev after_first : Text → Text
after_first [] = []
after_first (_ ∷ s) = s

abbrev normal_request : Option Text → Option Text
normal_request none = none
normal_request (some s) = if is_empty s then none else some (strip s)

-- `_validate_symbol`
abbrev pub symbol_guards : Text → Text → List (Bool × CreateError)
symbol_guards symbol sec_type =
    (is_empty symbol, empty_field (text "symbol"))
    ∷ (starts_with symbol (text "/") && not (text_eq sec_type (text "FUT")), slash_not_future)
    ∷ (starts_with symbol (text "/") && is_empty (strip (after_first symbol)), slash_without_root)
    ∷ []

module _ {F : Type 0} where
  abbrev pub price_of : Text → Option F → Option F
  price_of order_type limit_price = if text_eq order_type (text "MKT") then none else limit_price

  -- The texts without outer spaces and in upper case, and no price for a market order.
  unfoldable pub normal_form : OrderCreateInput F → OrderCreateInput F
  normal_form raw = record {
    account_id = raw.account_id;
    symbol = upper (strip raw.symbol);
    side = upper (strip raw.side);
    quantity = raw.quantity;
    sec_type = upper (strip raw.sec_type);
    exchange = upper (strip raw.exchange);
    currency = upper (strip raw.currency);
    order_type = upper (strip raw.order_type);
    limit_price = price_of (upper (strip raw.order_type)) raw.limit_price;
    tif = upper (strip raw.tif);
    source = strip raw.source;
    request_text = normal_request raw.request_text;
  }

module _ {F : Type 0} ⦃fl : FloatOps F⦄ where
  abbrev pub is_bad_price : Option F → Bool
  is_bad_price none = true
  is_bad_price (some price) = fl.at_most price fl.zero_value

  -- The checks on the normal form `n`; the price is the one that was given.
  abbrev pub create_guards : OrderCreateInput F → Option F → List (Bool × CreateError)
  create_guards n limit_price =
      symbol_guards n.symbol n.sec_type
      ++ (not (text_mem n.side (text "BUY" ∷ text "SELL" ∷ [])), invalid_side)
        ∷ (less_than_one n.quantity, invalid_quantity)
        ∷ (is_empty n.sec_type, empty_field (text "sec_type"))
        ∷ (is_empty n.exchange, empty_field (text "exchange"))
        ∷ (is_empty n.currency, empty_field (text "currency"))
        ∷ (not (text_mem n.order_type (text "MKT" ∷ text "LMT" ∷ [])), invalid_order_type)
        ∷ (text_eq n.order_type (text "LMT") && is_bad_price limit_price, invalid_limit_price)
        ∷ (is_empty n.tif, empty_field (text "tif"))
        ∷ (is_empty n.source, empty_field (text "source"))
        ∷ []

  unfoldable pub normalize_order_create_input : OrderCreateInput F → Result (OrderCreateInput F)
  unfolding first_error normal_form
  normalize_order_create_input raw =
      elim (first_error (create_guards (normal_form raw) raw.limit_price)) [
        | some error ↦ err (refused error)
        | none ↦ ok (normal_form raw)
      ]
