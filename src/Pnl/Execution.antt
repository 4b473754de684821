-- ===== src/Pnl/Execution.antt =====
-- src/services/execution_pnl.py. Of a raw payload the code reads a few fields; a payload that is
-- missing or empty has none of them.
use ngv_trader.Prelude.{
  ℕ, Bool, true, false, not, ◌&&◌, ◌||◌, Option, none, some, or_else, List, [], ◌∷◌, map, filter,
  present, Text, text, upper, strip, or_empty, lookup_text, FloatOps, RawValue, absent, number,
  string, to_float, sum_floats, if◌then◌else◌,
}
use ngv_trader.Settle.Rows.{ExecRole}
pub mod Laws

-- `realized` is `raw.commissionReport.realizedPNL`, if the report is a dictionary, and `fifo` is
-- `raw.fifoPnlRealized`; then the open and close indicators at the top and under `raw.execution`.
pub record RawExecution (F : Type 0) : Type 0 where
  pub realized : RawValue F
  pub fifo : RawValue F
  pub open_close_indicator : Option Text
  pub open_close : Option Text
  pub position_effect : Option Text
  pub nested_open_close : Option Text
  pub nested_position_effect : Option Text

-- A fill as the rules read it: `ExecutionPnlRow`, with the columns of the holdings.
pub record GroupExecution (F : Type 0) : Type 0 where
  pub account_id : ℕ
  pub con_id : Option ℕ
  pub ib_exec_id : Text
  pub exec_role : Option ExecRole
  pub is_canonical : Bool
  pub side : Option Text
  pub quantity : F
  pub raw : RawExecution F

pub data Lifecycle : Type 0 where
  opens closes : Lifecycle

-- `_LIFECYCLE_BY_INDICATOR`
abbrev lifecycle_by_indicator : List (Text × Lifecycle)
lifecycle_by_indicator =
    (text "O", Lifecycle.opens)
    ∷ (text "OPEN", Lifecycle.opens)
    ∷ (text "OPENING", Lifecycle.opens)
    ∷ (text "TOOPEN", Lifecycle.opens)
    ∷ (text "OPENPOSITION", Lifecycle.opens)
    ∷ (text "C", Lifecycle.closes)
    ∷ (text "CLOSE", Lifecycle.closes)
    ∷ (text "CLOSING", Lifecycle.closes)
    ∷ (text "TOCLOSE", Lifecycle.closes)
    ∷ (text "CLOSEPOSITION", Lifecycle.closes)
    ∷ []

-- The first indicator that the table knows.
unfoldable pub first_lifecycle : List (Option Text) → Option Lifecycle
first_lifecycle [] = none
first_lifecycle (value ∷ values) =
    or_else (lookup_text (upper (strip (or_empty value))) lifecycle_by_indicator)
      (first_lifecycle values)

abbrev pub is_summary : Option ExecRole → Bool
is_summary none = false
is_summary (some ExecRole.combo_summary) = true
is_summary (some ExecRole.leg) = false
is_summary (some ExecRole.standalone) = false

abbrev pub is_combo_leg : Option ExecRole → Bool
is_combo_leg none = false
is_combo_leg (some ExecRole.combo_summary) = false
is_combo_leg (some ExecRole.leg) = true
is_combo_leg (some ExecRole.standalone) = false

module _ {F : Type 0} where
  unfoldable pub execution_lifecycle : RawExecution F → Option Lifecycle
  unfolding first_lifecycle
  execution_lifecycle raw = first_lifecycle (
      raw.open_close_indicator ∷ raw.open_close ∷ raw.position_effect ∷ raw.nested_open_close
      ∷ raw.nested_position_effect ∷ [])

module _ {F : Type 0} ⦃fl : FloatOps F⦄ where
  -- A report's figure that is no number falls through to the other shape.
  unfoldable pub execution_realized_pnl : RawExecution F → Option F
  execution_realized_pnl raw = or_else (to_float raw.realized) (to_float raw.fifo)

  -- `[r for ex in rows if test(ex) for r in [execution_realized_pnl(ex.raw)] if r is not None]`
  unfoldable pub realized_of : (GroupExecution F → Bool) → List (GroupExecution F) → List F
  unfolding execution_realized_pnl
  realized_of test rows = present (map (λ ex. execution_realized_pnl ex.raw) (filter test rows))

  abbrev sum_or_none : List F → Option F
  sum_or_none [] = none
  sum_or_none (x ∷ xs) = some (sum_floats (x ∷ xs))

  abbrev pub summary_row : GroupExecution F → Bool
  summary_row ex = is_summary ex.exec_role

  abbrev pub standalone_row : GroupExecution F → Bool
  standalone_row ex = not (is_summary ex.exec_role || is_combo_leg ex.exec_role)

  abbrev pub fill_row : GroupExecution F → Bool
  fill_row ex = not (is_summary ex.exec_role)

  abbrev total_of : List F → List F → List F → Option F
  total_of [] standalone fills = sum_or_none fills
  total_of (x ∷ xs) standalone fills = some (fl.plus (sum_floats (x ∷ xs)) (sum_floats standalone))

  unfoldable pub realized_pnl_total : List (GroupExecution F) → Option F
  unfolding realized_of
  realized_pnl_total rows =
      total_of (realized_of summary_row rows) (realized_of standalone_row rows)
        (realized_of fill_row rows)
