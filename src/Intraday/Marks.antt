-- ===== src/Intraday/Marks.antt =====
-- `select_mark`, `_fill_realized_pnl` and `fills_window_start`; instants are in seconds.
use ngv_trader.Prelude.{ℕ, ◌-◌, ◌*◌, Option, none, some, or_else, is_empty, FloatOps, if◌then◌else◌}
use ngv_trader.Intraday.Rows.{IbFill}

-- `FILLS_LOOKBACK_DAYS`
abbrev fills_lookback_days : ℕ
fills_lookback_days = 2

unfoldable pub fills_window_start : ℕ → ℕ
fills_window_start now = now - fills_lookback_days * 86400

module _ {F : Type 0} ⦃fl : FloatOps F⦄ where
  -- A price that is not positive is none.
  abbrev positive_price : Option F → Option F
  positive_price none = none
  positive_price (some price) = if fl.less fl.zero_value price then some price else none

  abbrev midpoint : Option F → Option F → Option F
  midpoint (some bid) (some ask) = some (fl.over (fl.plus bid ask) (fl.decimal 2 0))
  midpoint _ _ = none

  unfoldable pub select_mark : Option F → Option F → Option F → Option F → Option F
  select_mark bid ask last close =
      or_else (positive_price last)
        (or_else (midpoint (positive_price bid) (positive_price ask)) (positive_price close))

  -- A report without an execution id has not arrived yet.
  unfoldable pub fill_realized_pnl : IbFill F → Option F
  fill_realized_pnl fill = elim fill.report [
    | none ↦ none
    | some report ↦ if is_empty report.exec_id then none else report.realized_pnl
  ]
