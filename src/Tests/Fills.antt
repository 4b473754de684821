-- ===== src/Tests/Fills.antt =====
-- Fills: a live spread of which the legs have settled.
use ngv_trader.Prelude.{
  ℕ, ◌≡◌, ◌≢◌, refl, true, false, none, some, List, [], ◌∷◌, ◌+◌, ◌/◌, Text, text, any, filter,
}
use ngv_trader.Tests.{whole_floats}
use ngv_trader.Settle.Rows.{
  ExecRole, LiveExecution, TradeExecution, Store, OrderGroupKey, order_group_key_from_live,
}
use ngv_trader.Settle.Match.{is_bag_summary, is_live_leg, is_settled_leg_at, match_bag_summary}
use ngv_trader.Settle.Match.Laws.{match_bag_summary_sound, AreItsLegs}
use ngv_trader.Settle.Reconcile.{reconcile_orphaned_live_executions}
use ngv_trader.Settle.Reconcile.Laws.{IsReconciled, reconcile_orphaned_live_executions-IsReconciled}

abbrev spread : LiveExecution ℕ
spread = record {
  id = 1;
  account_id = 7;
  con_id = none;
  ib_exec_id = text "0000e1.01.01";
  ib_perm_id = some 99;
  ib_order_id = none;
  exec_role = ExecRole.combo_summary;
  sec_type = some (text "BAG");
  exec_time = 86500;
  quantity = 1;
  price = 3;
  side = some (text "BOT");
  realized_pnl = some 10;
}

abbrev leg_settled : ℕ → Text → TradeExecution ℕ
leg_settled id ib_exec_id = record {
  id = id;
  account_id = 7;
  con_id = some (50 + id);
  ib_exec_id = ib_exec_id;
  sec_type = some (text "FUT");
  exec_role = ExecRole.leg;
  executed_at = 86500;
  quantity = 1;
  price = 3;
  side = some (text "BUY");
  notes = none;
}

abbrev legs : List (TradeExecution ℕ)
legs = leg_settled 21 (text "0000e1.02") ∷ leg_settled 22 (text "0000e1.03") ∷ []

abbrev store : Store ℕ
store = record {
  live = spread ∷ [];
  settled = legs;
  live_links =
      record {
        trade_group_id = 4;
        ib_exec_id = text "0000e1.01.01";
        source = text "manual";
        created_by = none;
        confidence = none;
        assigned_at = 86600;
      }
      ∷ [];
  group_links = [];
}

reconcile_orphaned_live_executions-IsReconciled_example :
    let (c, after) = reconcile_orphaned_live_executions (λ t. t / 86400) store in
    IsReconciled store c after
reconcile_orphaned_live_executions-IsReconciled_example =
    reconcile_orphaned_live_executions-IsReconciled (λ t. t / 86400) store tt

match_bag_summary_finds_legs : match_bag_summary store spread ≡ some legs
unfolding match_bag_summary is_bag_summary order_group_key_from_live
match_bag_summary_finds_legs = refl

match_bag_summary_sound_example :
    (is_bag_summary spread ≡ true)
    × ((key : OrderGroupKey) × (order_group_key_from_live spread ≡ some key)
        × (any (is_live_leg key spread) store.live ≡ false))
    × (legs ≢ [])
    × (legs ≡ filter (is_settled_leg_at spread) store.settled)
    × AreItsLegs spread legs
match_bag_summary_sound_example =
    match_bag_summary_sound store spread legs match_bag_summary_finds_legs
