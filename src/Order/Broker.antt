-- ===== src/Order/Broker.antt =====
-- What the broker's client library hands to the worker: the fields of an `ib_async` trade that
-- src/services/order_worker.py reads. The client fills them in; they are inputs of the model.
use ngv_trader.Prelude.{ℕ, Option, Text, RawValue}

-- The contract of a trade; an unset number is 0 and an unset text is empty.
pub record Contract : Type 0 where
  pub con_id : ℕ
  pub local_symbol : Text
  pub trading_class : Text
  pub last_trade_date : Text

pub record Trade (F : Type 0) : Type 0 where
  pub contract : Contract
  pub order_ref : Option Text
  pub order_id : ℕ
  pub perm_id : ℕ
  pub status : Option Text
  pub avg_fill_price : RawValue F
  pub filled : Option F
  pub remaining : F
