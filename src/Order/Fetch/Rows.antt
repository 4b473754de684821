-- ===== src/Order/Fetch/Rows.antt =====
-- What the fetch reads of a broker order beyond Order.Broker, and the tables that it writes.
use ngv_trader.Prelude.{ℕ, Option, List, Text, RawValue}
use ngv_trader.Order.Model.{Order, OrderEvent}
use ngv_trader.Order.Broker.{Trade}
use ngv_trader.Fills.Rows.{Account}

-- An unset text is empty; `action` may be missing.
pub record BrokerOrder (F : Type 0) : Type 0 where
  pub trade : Trade F
  pub symbol : Text
  pub sec_type : Text
  pub exchange : Text
  pub currency : Text
  pub account : Text
  pub action : Option Text
  pub total_quantity : RawValue F
  pub order_type : Text
  pub lmt_price : RawValue F
  pub tif : Text

-- The tables of accounts, orders and events, new rows at the end, with the next ids.
pub record SyncTables (F : Type 0) : Type 0 where
  pub accounts : List Account
  pub orders : List (Order F)
  pub events : List (OrderEvent F)
  pub next_account_id : ℕ
  pub next_order_id : ℕ
