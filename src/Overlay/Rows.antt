-- ===== src/Overlay/Rows.antt =====
-- The rows that a merge reads (`Position` and `LivePosition` of src/models.py), and the view that it
-- makes of them.
use ngv_trader.Prelude.{ℕ, Bool, Option, none, some, Text, RawValue, absent, string, ◌==◌, ◌&&◌}
use ngv_trader.Overlay.Marks.{MetricFields}

pub data OverlaySource : Type 0 where
  live settled : OverlaySource

-- A row of the settled snapshot.
pub record FlexRow (F : Type 0) : Type 0 where
  pub account_id : ℕ
  pub con_id : ℕ
  pub symbol : Option Text
  pub local_symbol : Option Text
  pub sec_type : Option Text
  pub multiplier : Option Text
  pub right : Option Text
  pub strike : Option F
  pub position : F
  pub avg_cost : Option F
  pub mark_price : Option F
  pub fifo_pnl_unrealized : Option F
  pub position_value : Option F
  pub as_of_date : Option ℕ
  pub fetched_at : Option ℕ

-- A row of the live capture.
pub record LiveRow (F : Type 0) : Type 0 where
  pub account_id : ℕ
  pub con_id : ℕ
  pub symbol : Option Text
  pub local_symbol : Option Text
  pub sec_type : Option Text
  pub multiplier : Option Text
  pub right : Option Text
  pub strike : Option F
  pub position : F
  pub avg_cost : F
  pub fetched_at : ℕ

pub record PositionView (F : Type 0) : Type 0 where
  pub account_id : ℕ
  pub con_id : ℕ
  pub symbol : Option Text
  pub local_symbol : Option Text
  pub sec_type : Option Text
  pub multiplier : Option Text
  pub right : Option Text
  pub strike : Option F
  pub position : F
  pub avg_cost : Option F
  pub mark : Option F
  pub mark_ts : Option ℕ
  pub source : OverlaySource
  pub live_unrealized : Option F
  pub settled_mark_price : Option F
  pub settled_unrealized : Option F
  pub settled_position_value : Option F
  pub as_of_date : Option ℕ
  pub metrics : MetricFields F

-- `(account_id, con_id)`
abbrev pub PairKey : Type 0
PairKey = ℕ × ℕ

abbrev pub key_eq : PairKey → PairKey → Bool
key_eq (a, c) (b, d) = a == b && c == d

abbrev pub raw_text : {F : Type 0} → Option Text → RawValue F
raw_text none = absent
raw_text (some s) = string s

module _ {F : Type 0} where
  abbrev pub flex_key : FlexRow F → PairKey
  flex_key row = (row.account_id, row.con_id)

  abbrev pub live_key : LiveRow F → PairKey
  live_key row = (row.account_id, row.con_id)

  abbrev pub view_key : PositionView F → PairKey
  view_key view = (view.account_id, view.con_id)
