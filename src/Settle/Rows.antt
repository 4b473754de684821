-- ===== src/Settle/Rows.antt =====
-- The rows that the hand-over reads and writes (src/models.py), the roles of a fill
-- (src/domain/enums.py), and the order key of src/services/order_keys.py.
use ngv_trader.Prelude.{ℕ, suc, Bool, true, false, Option, none, some, List, Text}

pub data ExecRole : Type 0 where
  combo_summary leg standalone : ExecRole

abbrev pub is_combo_summary : ExecRole → Bool
is_combo_summary ExecRole.combo_summary = true
is_combo_summary ExecRole.leg = false
is_combo_summary ExecRole.standalone = false

abbrev pub is_leg : ExecRole → Bool
is_leg ExecRole.combo_summary = false
is_leg ExecRole.leg = true
is_leg ExecRole.standalone = false

pub record LiveExecution (F : Type 0) : Type 0 where
  pub id : ℕ
  pub account_id : ℕ
  pub con_id : Option ℕ
  pub ib_exec_id : Text
  pub ib_perm_id : Option ℕ
  pub ib_order_id : Option ℕ
  pub exec_role : ExecRole
  pub sec_type : Option Text
  pub exec_time : ℕ
  pub quantity : F
  pub price : F
  pub side : Option Text
  pub realized_pnl : Option F

-- `notes` is the text of `raw["notes"]`, if `raw` is a dictionary that has one.
pub record TradeExecution (F : Type 0) : Type 0 where
  pub id : ℕ
  pub account_id : ℕ
  pub con_id : Option ℕ
  pub ib_exec_id : Text
  pub sec_type : Option Text
  pub exec_role : ExecRole
  pub executed_at : ℕ
  pub quantity : F
  pub price : F
  pub side : Option Text
  pub notes : Option Text

-- `TradeGroupLiveExecution` and `TradeGroupExecution`: a group's claim on a live and a settled fill.
pub record LiveLink (F : Type 0) : Type 0 where
  pub trade_group_id : ℕ
  pub ib_exec_id : Text
  pub source : Text
  pub created_by : Option Text
  pub confidence : Option F
  pub assigned_at : ℕ

pub record GroupLink (F : Type 0) : Type 0 where
  pub trade_group_id : ℕ
  pub trade_execution_id : ℕ
  pub source : Text
  pub created_by : Option Text
  pub confidence : Option F
  pub assigned_at : ℕ

-- The four tables.
pub record Store (F : Type 0) : Type 0 where
  pub live : List (LiveExecution F)
  pub settled : List (TradeExecution F)
  pub live_links : List (LiveLink F)
  pub group_links : List (GroupLink F)

pub data OrderGroupKey : Type 0 where
  perm order : ℕ → OrderGroupKey

-- `_group_key`: an id that is missing or 0 is no key.
unfoldable pub group_key : Option ℕ → Option ℕ → Option OrderGroupKey
group_key (some (suc n)) order_id = some (perm (suc n))
group_key perm_id (some (suc n)) = some (order (suc n))
group_key perm_id order_id = none

unfoldable pub order_group_key_from_live : {F : Type 0} → LiveExecution F → Option OrderGroupKey
unfolding group_key
order_group_key_from_live live = group_key live.ib_perm_id live.ib_order_id
