-- ===== src/Intraday/Rows.antt =====
-- What the intraday sync reads of the client and the rows that it writes. A number of the client is
-- given as `_safe_float` or `_safe_int` answers it, a time as `_parse_exec_time` does.
use ngv_trader.Prelude.{ℕ, Option, Text}
use ngv_trader.Settle.Rows.{ExecRole}

pub record IbContract (F : Type 0) : Type 0 where
  pub con_id : Option ℕ
  pub symbol : Option Text
  pub sec_type : Option Text
  pub local_symbol : Option Text
  pub multiplier : Option Text
  pub right : Option Text
  pub strike : Option F
  pub last_trade_date : Option Text

pub record CommissionReport (F : Type 0) : Type 0 where
  pub exec_id : Text
  pub realized_pnl : Option F

pub record IbExecution (F : Type 0) : Type 0 where
  pub exec_id : Text
  pub perm_id : Option ℕ
  pub order_id : Option ℕ
  pub acct_number : Text
  pub time : Option ℕ
  pub side : Option Text
  pub shares : Option F
  pub price : Option F

pub record IbFill (F : Type 0) : Type 0 where
  pub execution : Option (IbExecution F)
  pub contract : Option (IbContract F)
  pub report : Option (CommissionReport F)

-- `LiveExecution`, all columns but the row id.
pub record LiveFill (F : Type 0) : Type 0 where
  pub ib_exec_id : Text
  pub account_id : ℕ
  pub ib_perm_id : Option ℕ
  pub ib_order_id : Option ℕ
  pub exec_role : ExecRole
  pub con_id : Option ℕ
  pub symbol : Option Text
  pub sec_type : Option Text
  pub local_symbol : Option Text
  pub multiplier : Option Text
  pub right : Option Text
  pub strike : Option F
  pub last_trade_date : Option Text
  pub side : Option Text
  pub quantity : F
  pub price : F
  pub realized_pnl : Option F
  pub exec_time : ℕ
  pub fetched_at : ℕ

-- A row of `ib.positions()`, and of `live_positions`.
pub record IbPosition (F : Type 0) : Type 0 where
  pub account : Text
  pub contract : IbContract F
  pub position : F
  pub avg_cost : F

pub record LivePosition (F : Type 0) : Type 0 where
  pub account_id : ℕ
  pub con_id : Option ℕ
  pub symbol : Option Text
  pub sec_type : Option Text
  pub local_symbol : Option Text
  pub multiplier : Option Text
  pub right : Option Text
  pub strike : Option F
  pub position : F
  pub avg_cost : F
  pub fetched_at : ℕ

pub record Ticker (F : Type 0) : Type 0 where
  pub bid : Option F
  pub ask : Option F
  pub last : Option F
  pub close : Option F

pub record QuoteRow (F : Type 0) : Type 0 where
  pub con_id : ℕ
  pub bid : Option F
  pub ask : Option F
  pub last : Option F
  pub close : Option F
  pub mark : Option F
  pub market_ts : ℕ
  pub ingested_at : ℕ
