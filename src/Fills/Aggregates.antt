-- ===== src/Fills/Aggregates.antt =====
-- `_execution_outcome`, `_derive_trade_status` and `_recompute_trade_aggregates` of
-- src/services/sync_common.py.
use ngv_trader.Prelude.{
  ℕ, Bool, true, false, ◌&&◌, Option, none, some, List, [], ◌∷◌, map, filter, all, Text, text,
  text_mem, upper, leb, FloatOps, sum_floats, ◌==◌, if◌then◌else◌,
}
use mathlib.Core.List.{foldl}
use ngv_trader.Settle.Rows.{is_combo_summary}
use ngv_trader.Settle.Match.{split_notes}
use ngv_trader.Fills.Rows.{
  Execution, ParentTrade, TradeStatus, filled, expired, assigned, exercised, unknown, Payload,
  notes_of,
}

-- `_NOTE_STATUS`
abbrev note_status : List (Text × TradeStatus)
note_status = (text "EP", expired) ∷ (text "A", assigned) ∷ (text "EX", exercised) ∷ []

-- The status of the first code of the table that the row carries.
unfoldable first_note : List (Text × TradeStatus) → List Text → TradeStatus
first_note [] codes = filled
first_note ((code, status) ∷ table) codes =
    let rest = first_note table codes in if text_mem code codes then status else rest

unfoldable pub execution_outcome : {F : Type 0} → Payload F → TradeStatus
unfolding first_note split_notes
execution_outcome raw = elim (notes_of raw) [
  | none ↦ filled
  | some notes ↦ first_note note_status (map upper (split_notes [] notes))
]

abbrev same_status : TradeStatus → TradeStatus → Bool
same_status TradeStatus.partial TradeStatus.partial = true
same_status TradeStatus.unknown TradeStatus.unknown = true
same_status TradeStatus.filled TradeStatus.filled = true
same_status TradeStatus.expired TradeStatus.expired = true
same_status TradeStatus.assigned TradeStatus.assigned = true
same_status TradeStatus.exercised TradeStatus.exercised = true
same_status _ _ = false

-- The one element of the set of the outcomes, if it has one.
unfoldable pub derive_trade_status : List TradeStatus → TradeStatus
derive_trade_status [] = filled
derive_trade_status (outcome ∷ outcomes) =
    if all (same_status outcome) outcomes then outcome else filled

abbrev pub earliest : ℕ → List ℕ → ℕ
earliest first times = foldl (λ a b. if leb a b then a else b) first times

abbrev latest : ℕ → List ℕ → ℕ
latest first times = foldl (λ a b. if leb b a then a else b) first times

module _ {F : Type 0} ⦃fl : FloatOps F⦄ where
  abbrev pub is_canonical_of : ℕ → Execution F → Bool
  is_canonical_of trade_id ex = ex.trade_id == trade_id && ex.is_canonical

  -- The fills that the quantity and the price are summed over: those of the spread, if it has any.
  unfoldable pub summed : List (Execution F) → List (Execution F)
  summed canonical =
      let combo_fills = filter (λ ex. is_combo_summary ex.exec_role) canonical in
      elim combo_fills [ [] ↦ canonical | fill ∷ fills ↦ fill ∷ fills ]

  abbrev total_quantity_of : List (Execution F) → F
  total_quantity_of fills = sum_floats (map (λ ex. fl.absolute ex.quantity) fills)

  abbrev avg_price_of : List (Execution F) → Option F
  avg_price_of fills =
      let total_qty = total_quantity_of fills in
      let weighted = sum_floats (map (λ ex. fl.times (fl.absolute ex.quantity) ex.price) fills) in
      if fl.less fl.zero_value total_qty then some (fl.over weighted total_qty) else none

  unfoldable pub aggregates : ℕ → List (Execution F) → ParentTrade F → ParentTrade F
  unfolding summed execution_outcome derive_trade_status
  aggregates now [] trade = record trade {
    total_quantity = fl.zero_value;
    avg_price = none;
    first_executed_at = none;
    last_executed_at = none;
    status = unknown;
    updated_at = now;
  }
  aggregates now (ex ∷ exs) trade = record trade {
    total_quantity = total_quantity_of (summed (ex ∷ exs));
    avg_price = avg_price_of (summed (ex ∷ exs));
    first_executed_at = some (earliest ex.executed_at (map (λ e. e.executed_at) exs));
    last_executed_at = some (latest ex.executed_at (map (λ e. e.executed_at) exs));
    status = derive_trade_status (map (λ e. execution_outcome e.raw) (ex ∷ exs));
    fetched_at = now;
    updated_at = now;
  }

  -- The trade with the id gets its aggregates; without such a trade nothing is done.
  unfoldable pub recompute_trade_aggregates :
      ℕ → ℕ → List (Execution F) → List (ParentTrade F) → List (ParentTrade F)
  unfolding aggregates
  recompute_trade_aggregates now trade_id executions [] = []
  recompute_trade_aggregates now trade_id executions (trade ∷ trades) =
      (if trade.id == trade_id
        then aggregates now (filter (is_canonical_of trade_id) executions) trade
        else trade)
      ∷ recompute_trade_aggregates now trade_id executions trades
