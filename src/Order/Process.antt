-- ===== src/Order/Process.antt =====
-- `process_order` of src/services/order_worker.py. The tables and the broker answers that it reads
-- are arguments: the account row of an id, the outcome of `get_or_qualify_contract`, and the
-- accounts that the session manages.
use ngv_trader.Prelude.{
  ℕ, Bool, true, false, not, Option, none, some, List, Text, text, text_eq, text_mem, if◌then◌else◌,
}
use ngv_trader.Order.Status.{OrderStatus}
use ngv_trader.Order.Model.{
  Order, Work, Action, Result, ok, err, Error, not_managed, no_limit_price, not_supported, Message,
  qualified, missing_account, worker_error, of_error, order_error, contract_qualified, ◌>>=◌, ◌>>◌,
  pure, raise, require, modify_order,
}
use ngv_trader.Order.Queue.{append_order_event, transition_order_status}
use ngv_trader.Order.Broker.{Contract}
use ngv_trader.Order.Reference.{make_order_ref}
pub mod Laws

-- The order that is sent to the broker; a market order has no limit price.
pub record IbOrder (F : Type 0) : Type 0 where
  pub side : Text
  pub quantity : ℕ
  pub limit_price : Option F
  pub account : Text
  pub tif : Text
  pub order_ref : Text

module _ {F : Type 0} where
  unfoldable pub record_contract_qualified : ℕ → Contract → Action F (Unit {0})
  record_contract_qualified now contract = do
    modify_order (λ order. record order {
      con_id = some contract.con_id;
      local_symbol = some contract.local_symbol;
      trading_class = some contract.trading_class;
      contract_expiry = some contract.last_trade_date;
      updated_at = now;
    })
    append_order_event now contract_qualified (qualified contract.con_id contract.local_symbol)

  abbrev ib_order_at : Order F → Text → Option F → IbOrder F
  ib_order_at order tws_account limit_price = record {
    side = order.side;
    quantity = order.quantity;
    limit_price = limit_price;
    account = tws_account;
    tif = order.tif;
    order_ref = make_order_ref order.id;
  }

  unfoldable pub build_ib_order : Order F → Text → Result (IbOrder F)
  build_ib_order order tws_account =
      if text_eq order.order_type (text "LMT")
      then elim order.limit_price [
        | none ↦ err (no_limit_price order.id)
        | some price ↦ ok (ib_order_at order tws_account (some price))
      ]
      else ok (ib_order_at order tws_account none)

  abbrev lift : {A : Type 0} → Result A → Action F A
  lift r w = (r, w)

  -- The order is built, and then refused before it is placed.
  build_and_refuse : Text → Action F (Unit {0})
  unfolding build_ib_order
  build_and_refuse tws_account w =
      (do ib_order ← lift (build_ib_order w.order tws_account); raise not_supported) w

  -- The body of the `try`: it raises before any order is placed.
  submit : ℕ → (Order F → Result Contract) → List Text → Text → Action F (Unit {0})
  unfolding record_contract_qualified build_and_refuse
  submit now qualify managed tws_account w =
      (do
        contract ← lift (qualify w.order)
        record_contract_qualified now contract
        require (text_mem tws_account managed) (not_managed tws_account)
        build_and_refuse tws_account)
        w

  abbrev fail_with : ℕ → Message F → Message F → Action F (Unit {0})
  fail_with now last_error message = do
    modify_order (λ order. record order { last_error = some last_error })
    transition_order_status now OrderStatus.failed order_error message false

  abbrev handle : ℕ → Result (Unit {0}) → Action F (Unit {0})
  handle now (ok _) = pure tt
  handle now (err e) = fail_with now (of_error e) (worker_error e)

  unfoldable pub process_order :
      ℕ → (ℕ → Option Text) → (Order F → Result Contract) → List Text → Action F (Unit {0})
  unfolding submit
  process_order now account_of qualify managed w = elim (account_of w.order.account_id) [
    | none ↦
        fail_with now (missing_account w.order.account_id) (missing_account w.order.account_id) w
    | some tws_account ↦ let (r, w') = submit now qualify managed tws_account w in handle now r w'
  ]
