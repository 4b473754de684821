-- ===== src/Tests/Ledgers.antt =====
-- The overlay of a group over a context that holds another group's row as well.
use ngv_trader.Prelude.{ℕ, ◌≡◌, arith, refl, subst, some_inj, ◌++◌, none, some, [], ◌∷◌}
use ngv_trader.Tests.{whole_floats}
use ngv_trader.Tests.Views.{flex_of, captured, flex_rows, inputs, live_rows, fill, marked}
use ngv_trader.Tests.Groups.{leg_row}
use ngv_trader.Settle.Rows.{LiveExecution}
use ngv_trader.Overlay.Rows.{FlexRow, LiveRow}
use ngv_trader.Overlay.Totals.{overlay_totals, settled_unrealized_total}
use ngv_trader.Pnl.Execution.{realized_pnl_total}
use ngv_trader.Pnl.Ledger.{GroupLedger, settled_exec_ids, account_breakdown, overlay_one}
use ngv_trader.Pnl.Ledger.Laws.{
  IsApart, context_of, overlay_one_apart, account_breakdown-one_account,
}

abbrev ledger : GroupLedger ℕ
ledger = record { executions = leg_row ∷ []; live_fills = []; extra_pairs = [] }

-- A contract that the group has no part in.
abbrev foreign : FlexRow ℕ
foreign = flex_of 60

abbrev foreign_live : LiveRow ℕ
foreign_live = record captured { con_id = 60 }

abbrev foreign_fill : LiveExecution ℕ
foreign_fill = record fill { con_id = some 60 }

foreign-IsApart : IsApart ledger 7 60
foreign-IsApart = record {
  no_execution = (λ e. omega (arith, some_inj 55 60 e.1), tt);
  no_live_fill = tt;
  no_pair = tt;
}

overlay_one_apart_example :
    overlay_one
      (context_of inputs
        (flex_rows ++ foreign ∷ [])
        ([] ++ foreign_live ∷ live_rows)
        ((fill ∷ []) ++ foreign_fill ∷ []))
      ledger
    ≡ overlay_one (context_of inputs (flex_rows ++ []) ([] ++ live_rows) ((fill ∷ []) ++ [])) ledger
overlay_one_apart_example =
    overlay_one_apart ledger inputs [] flex_rows live_rows [] [] (fill ∷ []) foreign foreign_live
      foreign_fill foreign-IsApart foreign-IsApart
      (λ con_id e. subst (IsApart ledger 7) (some_inj 60 con_id e) foreign-IsApart)

account_breakdown-one_account_example :
    let totals =
      overlay_totals flex_rows
        (marked ∷ [])
        (fill ∷ [])
        (settled_exec_ids ledger)
        (realized_pnl_total (leg_row ∷ []))
        none in
    account_breakdown ledger (marked ∷ []) (fill ∷ []) 7
    ≡ some (record {
      unrealized = settled_unrealized_total (marked ∷ []);
      intraday_unrealized = totals.intraday_unrealized;
      intraday_realized = totals.intraday_realized;
      intraday_total = totals.intraday_total;
    })
account_breakdown-one_account_example =
    account_breakdown-one_account ledger flex_rows (marked ∷ []) (fill ∷ []) none 7 (refl, tt)
      (refl, tt) (refl, tt) refl
