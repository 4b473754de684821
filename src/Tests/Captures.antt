-- ===== src/Tests/Captures.antt =====
-- Captures: a live fill that has settled and a live spread with a settled summary are purged, and a
-- fill is fetched again without its report.
use ngv_trader.Prelude.{ℕ, ◌≡◌, ◌⊎◌, inl, map, refl, true, none, some, [], ◌∷◌, any, Text, text}
use ngv_trader.Tests.{whole_floats}
use ngv_trader.Settle.Rows.{ExecRole, LiveExecution, TradeExecution, Store}
use ngv_trader.Settle.Purge.{purge_settled}
use ngv_trader.Settle.Purge.Laws.{IsPurged, purge_settled-IsPurged}
use ngv_trader.Intraday.Rows.{IbFill, LiveFill}
use ngv_trader.Intraday.Fills.{LiveTables, write_live_fills}
use ngv_trader.Intraday.Fills.Laws.{HasProfit, IsReported, write_live_fills-HasProfit}

abbrev live_of : Text → Text → LiveExecution ℕ
live_of ib_exec_id sec_type = record {
  id = 1;
  account_id = 7;
  con_id = none;
  ib_exec_id = ib_exec_id;
  ib_perm_id = some 99;
  ib_order_id = none;
  exec_role = ExecRole.standalone;
  sec_type = some sec_type;
  exec_time = 86500;
  quantity = 1;
  price = 3;
  side = some (text "BOT");
  realized_pnl = none;
}

abbrev settled_of : ℕ → Text → Text → TradeExecution ℕ
settled_of id ib_exec_id sec_type = record {
  id = id;
  account_id = 7;
  con_id = none;
  ib_exec_id = ib_exec_id;
  sec_type = some sec_type;
  exec_role = ExecRole.standalone;
  executed_at = 86500;
  quantity = 1;
  price = 3;
  side = some (text "BUY");
  notes = none;
}

abbrev purge_store : Store ℕ
purge_store = record {
  live =
      live_of (text "e1.01") (text "FUT")
      ∷ live_of (text "b1.01") (text "BAG")
      ∷ live_of (text "e9.01") (text "FUT")
      ∷ [];
  settled =
      settled_of 21 (text "e1.01") (text "FUT")
      ∷ settled_of 22 (text "a.b.01.01") (text "BAG")
      ∷ [];
  live_links = [];
  group_links = [];
}

purge_settled-IsPurged_example :
    let (count, after) = purge_settled purge_store in IsPurged purge_store count after
purge_settled-IsPurged_example = purge_settled-IsPurged purge_store

purged_count : (purge_settled purge_store).0 ≡ 2
unfolding purge_settled ngv_trader.Prelude.text_eq
purged_count = refl

abbrev fetched_again : IbFill ℕ
fetched_again = record {
  execution = some (record {
    exec_id = text "e1.01";
    perm_id = some 9;
    order_id = none;
    acct_number = text "U1";
    time = some 86500;
    side = some (text "BOT");
    shares = some 1;
    price = some 3;
  });
  contract = none;
  report = some (record { exec_id = []; realized_pnl = some 0 });
}

abbrev stored : LiveFill ℕ
stored = record {
  ib_exec_id = text "e1.01";
  account_id = 1;
  ib_perm_id = some 9;
  ib_order_id = none;
  exec_role = ExecRole.standalone;
  con_id = none;
  symbol = none;
  sec_type = none;
  local_symbol = none;
  multiplier = none;
  right = none;
  strike = none;
  last_trade_date = none;
  side = none;
  quantity = 1;
  price = 3;
  realized_pnl = some 15;
  exec_time = 86500;
  fetched_at = 86600;
}

abbrev captured : LiveTables ℕ
captured = record {
  books = record {
    accounts = [];
    trades = [];
    executions = [];
    next_account_id = 1;
    next_trade_id = 1;
    next_execution_id = 1;
  };
  fills = stored ∷ [];
}

write_live_fills-HasProfit_example :
    HasProfit
      (text "e1.01")
      (λ (x : ℕ). (x ≡ 15) ⊎ IsReported (text "e1.01") (fetched_again ∷ []) x)
      (write_live_fills 90000 0 (fetched_again ∷ []) [] captured).1.fills
write_live_fills-HasProfit_example =
    write_live_fills-HasProfit 90000 0 (fetched_again ∷ []) [] captured (text "e1.01") 15
      (stored, 15, inl refl, refl, refl, refl)

-- The profit of the row stays, as the report of the fill is not there yet.
profit_stays :
    map
      (λ (row : LiveFill ℕ). row.realized_pnl)
      (write_live_fills 90000 0 (fetched_again ∷ []) [] captured).1.fills
    ≡ some 15 ∷ []
unfolding write_live_fills ngv_trader.Prelude.text_eq
profit_stays = refl
