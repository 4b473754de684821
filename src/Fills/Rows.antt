-- ===== src/Fills/Rows.antt =====
-- The rows that an ingest reads and writes (`Trade` and `TradeExecution` of src/models.py), and the
-- fill in the shape that the transports hand over (src/services/fill_ingest.py).
use ngv_trader.Prelude.{
  ℕ, Bool, true, false, Option, none, some, is_some, List, [], ◌∷◌, Text, text, lookup_text,
  or_else, upper, strip, ◌==◌, if◌then◌else◌,
}
use ngv_trader.Prelude.Int.{ℤ}
use ngv_trader.Settle.Rows.{ExecRole}

-- The payload of a row: the broker's, of which the code reads the notes and the brokerage order id,
-- or that of a summary made here, without its display contract.
pub data Payload (F : Type 0) : Type 0 where
  reported : Option Text → Option Text → Payload F
  synthetic : Text → List Text → ℕ → F → List F → Payload F

abbrev pub notes_of : {F : Type 0} → Payload F → Option Text
notes_of (reported notes _) = notes
notes_of (synthetic _ _ _ _ _) = none

abbrev pub brokerage_order_id_of : {F : Type 0} → Payload F → Option Text
brokerage_order_id_of (reported _ key) = key
brokerage_order_id_of (synthetic key _ _ _ _) = some key

pub data TradeStatus : Type 0 where
  partial unknown filled expired assigned exercised : TradeStatus

pub record ParentTrade (F : Type 0) : Type 0 where
  pub id : ℕ
  pub account_id : ℕ
  pub ib_perm_id : Option ℤ
  pub order_ref : Option Text
  pub ib_order_id : Option ℤ
  pub symbol : Option Text
  pub sec_type : Option Text
  pub side : Option Text
  pub exchange : Option Text
  pub currency : Option Text
  pub status : TradeStatus
  pub total_quantity : F
  pub avg_price : Option F
  pub first_executed_at : Option ℕ
  pub last_executed_at : Option ℕ
  pub data_source : Text
  pub fetched_at : ℕ
  pub created_at : ℕ
  pub updated_at : ℕ

pub record Execution (F : Type 0) : Type 0 where
  pub id : ℕ
  pub trade_id : ℕ
  pub account_id : ℕ
  pub ib_exec_id : Text
  pub exec_id_base : Text
  pub exec_revision : ℤ
  pub ib_perm_id : Option ℤ
  pub ib_order_id : Option ℤ
  pub order_ref : Option Text
  pub sec_type : Option Text
  pub con_id : Option ℕ
  pub exec_role : ExecRole
  pub executed_at : ℕ
  pub quantity : F
  pub price : F
  pub side : Option Text
  pub exchange : Option Text
  pub currency : Option Text
  pub liquidity : Option Text
  pub commission : Option F
  pub is_canonical : Bool
  pub data_source : Text
  pub flex_transaction_id : Option ℕ
  pub raw : Payload F
  pub fetched_at : ℕ
  pub created_at : ℕ
  pub updated_at : ℕ

pub record Account : Type 0 where
  pub id : ℕ
  pub account : Text
  pub flex_query_token_id : Option ℕ

-- The three tables, new rows at the end, and the next ids.
pub record Books (F : Type 0) : Type 0 where
  pub accounts : List Account
  pub trades : List (ParentTrade F)
  pub executions : List (Execution F)
  pub next_account_id : ℕ
  pub next_trade_id : ℕ
  pub next_execution_id : ℕ

pub record NormalizedFill (F : Type 0) : Type 0 where
  pub account_code : Text
  pub ib_exec_id : Text
  pub executed_at : ℕ
  pub quantity : F
  pub price : F
  pub side : Option Text
  pub symbol : Option Text
  pub sec_type : Option Text
  pub con_id : Option ℕ
  pub exchange : Option Text
  pub currency : Option Text
  pub commission : Option F
  pub raw : Payload F
  pub ib_perm_id : Option ℤ
  pub ib_order_id : Option ℤ
  pub order_ref : Option Text
  pub liquidity : Option Text
  pub flex_transaction_id : Option ℕ
  pub combo_key : Option Text
  pub combo_underlying : Option Text
  pub is_combo_summary : Bool

pub record FillSource : Type 0 where
  pub name : Text
  pub composite_match_uses_trade_date : Bool
  pub retag_legs_after_ingest : Bool

abbrev pub flex_source : FillSource
flex_source = record {
  name = text "flex";
  composite_match_uses_trade_date = false;
  retag_legs_after_ingest = false;
}

abbrev pub tws_source : FillSource
tws_source = record {
  name = text "tws";
  composite_match_uses_trade_date = true;
  retag_legs_after_ingest = true;
}

-- `NormalizedFill.exec_role`
unfoldable pub exec_role_of : {F : Type 0} → NormalizedFill F → ExecRole
exec_role_of fill =
    if fill.is_combo_summary
    then ExecRole.combo_summary
    else if is_some fill.combo_key
    then ExecRole.leg
    else ExecRole.standalone

-- `raw.split("(", 1)[0]`
unfoldable before_paren : Text → Text
before_paren [] = []
before_paren (c ∷ s) = let rest = before_paren s in if c == b'(' then [] else c ∷ rest

abbrev side_normalization : List (Text × Text)
side_normalization = (text "BOT", text "BUY") ∷ (text "SLD", text "SELL") ∷ []

-- An unrecognized side is kept, in upper case.
unfoldable pub normalize_side : Option Text → Option Text
unfolding before_paren strip upper
normalize_side none = none
normalize_side (some raw_value) =
    let base = upper (strip (before_paren raw_value)) in
    or_else (lookup_text base side_normalization) (some base)
