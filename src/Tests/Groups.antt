-- ===== src/Tests/Groups.antt =====
-- Groups: a package of one summary and two legs, and the settled rows of two positions.
use ngv_trader.Prelude.{
  ℕ, inr, ◌≡◌, refl, Bool, true, false, none, some, [], ◌∷◌, ◌++◌, text, RawValue, absent, number,
}
use ngv_trader.Tests.{whole_floats}
use ngv_trader.Settle.Rows.{ExecRole}
use ngv_trader.Pnl.Execution.{RawExecution, GroupExecution, realized_pnl_total}
use ngv_trader.Pnl.Execution.Laws.{realized_pnl_total_leg}
use ngv_trader.Pnl.Holdings.{settled_holding}
use ngv_trader.Pnl.Holdings.Laws.{settled_holding_skips}

abbrev report : RawValue ℕ → RawExecution ℕ
report realized = record {
  realized = realized;
  fifo = absent;
  open_close_indicator = some (text " o ");
  open_close = none;
  position_effect = none;
  nested_open_close = none;
  nested_position_effect = none;
}

abbrev execution_of : ExecRole → Bool → RawValue ℕ → GroupExecution ℕ
execution_of role is_canonical realized = record {
  account_id = 7;
  con_id = some 55;
  ib_exec_id = text "e1";
  exec_role = some role;
  is_canonical = is_canonical;
  side = some (text "BOT");
  quantity = 1;
  raw = report realized;
}

abbrev summary : GroupExecution ℕ
summary = execution_of ExecRole.combo_summary true (number 30)

abbrev pub leg_row : GroupExecution ℕ
leg_row = execution_of ExecRole.leg true (number 18)

abbrev superseded : GroupExecution ℕ
superseded = execution_of ExecRole.leg false (number 17)

realized_pnl_total_leg_example :
    realized_pnl_total ((summary ∷ []) ++ leg_row ∷ []) ≡ realized_pnl_total ((summary ∷ []) ++ [])
unfolding ngv_trader.Pnl.Execution.realized_of
realized_pnl_total_leg_example = realized_pnl_total_leg (summary ∷ []) [] leg_row refl (λ h. cc)

settled_holding_skips_example :
    settled_holding ((leg_row ∷ []) ++ superseded ∷ []) (7, 55)
    ≡ settled_holding ((leg_row ∷ []) ++ []) (7, 55)
settled_holding_skips_example =
    settled_holding_skips (leg_row ∷ []) [] superseded (7, 55) (inr (inr refl))
