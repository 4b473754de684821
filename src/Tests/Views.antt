-- ===== src/Tests/Views.antt =====
-- Views: two settled rows, of which one has a live capture of today.
use ngv_trader.Prelude.{
  ℕ, ◌≡◌, ◌<◌, ◌↔◌, refl, Bool, true, false, Option, none, some, List, [], ◌∷◌, ◌++◌, map, filter,
  present, Text, text, All, RawValue, absent, FloatOps, ltb, sum_present,
}
use ngv_trader.Tests.{whole_floats, utc}
use ngv_trader.Settle.Rows.{ExecRole, LiveExecution}
use ngv_trader.Overlay.Clock.{is_live_stale, is_live_stale_iff}
use ngv_trader.Overlay.Rows.{
  OverlaySource, FlexRow, LiveRow, PositionView, flex_key, live_key, view_key,
}
use ngv_trader.Overlay.Merge.{MergeInputs, merge_positions}
use ngv_trader.Overlay.Merge.Laws.{
  is_shown_settled, merge_positions-keys, IsConsistent, merge_positions-IsConsistent,
}
use ngv_trader.Overlay.Totals.{intraday_unrealized_total, overlay_totals}
use ngv_trader.Overlay.Totals.Laws.{
  intraday_unrealized_total-merge_positions, overlay_totals_settled_fill,
}

abbrev pub flex_of : ℕ → FlexRow ℕ
flex_of con_id = record {
  account_id = 7;
  con_id = con_id;
  symbol = some (text "CL");
  local_symbol = none;
  sec_type = some (text "FUT");
  multiplier = some (text "1000");
  right = none;
  strike = none;
  position = 2;
  avg_cost = some 70;
  mark_price = some 71;
  fifo_pnl_unrealized = some 2000;
  position_value = some 142000;
  as_of_date = some 0;
  fetched_at = some 80000;
}

abbrev pub captured : LiveRow ℕ
captured = record {
  account_id = 7;
  con_id = 55;
  symbol = some (text "CL");
  local_symbol = none;
  sec_type = some (text "FUT");
  multiplier = none;
  right = none;
  strike = none;
  position = 3;
  avg_cost = 70;
  fetched_at = 90000;
}

abbrev pub inputs : MergeInputs ℕ
inputs = record {
  denver = utc;
  chicago = utc;
  now = 90100;
  quotes = λ con_id. some (record { mark = some 72; market_ts = some 90050 });
  magnifiers = λ con_id. absent;
  metrics = λ con_id. none;
  account_as_of = λ account_id. some 0;
}

abbrev pub flex_rows : List (FlexRow ℕ)
flex_rows = flex_of 55 ∷ flex_of 56 ∷ []

abbrev pub live_rows : List (LiveRow ℕ)
live_rows = captured ∷ []

-- The second row is taken for closed: the account has a capture that is newer than the snapshot.
merge_positions-keys_example :
    map view_key (merge_positions inputs flex_rows live_rows)
    ≡ map live_key live_rows ++ map flex_key (filter (is_shown_settled inputs live_rows) flex_rows)
merge_positions-keys_example = merge_positions-keys inputs flex_rows live_rows

merge_positions-IsConsistent_example : All IsConsistent (merge_positions inputs flex_rows live_rows)
merge_positions-IsConsistent_example = merge_positions-IsConsistent inputs flex_rows live_rows

intraday_unrealized_total-merge_positions_example :
    intraday_unrealized_total (merge_positions inputs flex_rows [])
    ≡ sum_present (present (map (λ (r : FlexRow ℕ). r.fifo_pnl_unrealized) flex_rows))
intraday_unrealized_total-merge_positions_example =
    intraday_unrealized_total-merge_positions inputs flex_rows

abbrev pub fill : LiveExecution ℕ
fill = record {
  id = 1;
  account_id = 7;
  con_id = some 55;
  ib_exec_id = text "e1";
  ib_perm_id = some 99;
  ib_order_id = none;
  exec_role = ExecRole.standalone;
  sec_type = some (text "FUT");
  exec_time = 86500;
  quantity = 1;
  price = 3;
  side = some (text "BOT");
  realized_pnl = some 10;
}

overlay_totals_settled_fill_example :
    overlay_totals flex_rows [] ([] ++ fill ∷ []) (text "e1" ∷ []) (some 5) none
    ≡ overlay_totals flex_rows [] ([] ++ []) (text "e1" ∷ []) (some 5) none
unfolding ngv_trader.Prelude.text_eq
overlay_totals_settled_fill_example =
    overlay_totals_settled_fill flex_rows [] [] [] fill (text "e1" ∷ []) (some 5) none refl

abbrev pub marked : PositionView ℕ
marked = record {
  account_id = 7;
  con_id = 55;
  symbol = none;
  local_symbol = none;
  sec_type = none;
  multiplier = none;
  right = none;
  strike = none;
  position = 3;
  avg_cost = some 70;
  mark = some 72;
  mark_ts = some 90050;
  source = OverlaySource.live;
  live_unrealized = some 6;
  settled_mark_price = none;
  settled_unrealized = none;
  settled_position_value = none;
  as_of_date = none;
  metrics = record {
    iv = none;
    delta = none;
    gamma = none;
    theta = none;
    vega = none;
    und_price = none;
    intrinsic_value = none;
    extrinsic_value = none;
  };
}

abbrev views : List (PositionView ℕ)
views = marked ∷ record marked { mark_ts = some 80000 } ∷ []

is_live_stale_iff_example :
    (is_live_stale utc 180000 (some 90000) (some 100000) ≡ true)
    ↔ ((utc.date_of 90000 < utc.date_of 180000) × (utc.midnight (utc.date_of 90000) < 100000))
is_live_stale_iff_example = is_live_stale_iff utc 180000 90000 100000
