-- ===== src/Overlay/Merge.antt =====
-- `merge_positions` of src/services/intraday_overlay.py. The dictionaries by contract and by account
-- are functions; `denver` and `chicago` are the two zones, and `now` the present.
use ngv_trader.Prelude.{
  ℕ, Bool, true, false, not, ◌&&◌, ◌||◌, Option, none, some, is_some, or_else, List, [], ◌∷◌, ◌++◌,
  map, filter, any, Text, text_or_else, FloatOps, RawValue, ◌==◌, if◌then◌else◌,
}
use ngv_trader.Overlay.Clock.{Zone, is_live_stale, is_overlay_superseded}
use ngv_trader.Overlay.Marks.{
  LatestQuote, LatestOptionMetrics, mark_if_fresh, parse_multiplier, compute_unrealized,
  normalize_live_mark, normalize_settled_avg_cost, option_metric_fields,
}
use ngv_trader.Overlay.Rows.{
  OverlaySource, FlexRow, LiveRow, PositionView, PairKey, key_eq, raw_text, flex_key, live_key,
}
pub mod Laws

pub record MergeInputs (F : Type 0) : Type 0 where
  pub denver : Zone
  pub chicago : Zone
  pub now : ℕ
  pub quotes : ℕ → Option (LatestQuote F)
  pub magnifiers : ℕ → RawValue F
  pub metrics : ℕ → Option (LatestOptionMetrics F)
  pub account_as_of : ℕ → Option ℕ

-- A field of the snapshot row, if there is one.
abbrev pub of_flex : {F A : Type 0} → (FlexRow F → Option A) → Option (FlexRow F) → Option A
of_flex field none = none
of_flex field (some flex) = field flex

abbrev source_of : {F : Type 0} → Option (FlexRow F) → OverlaySource
source_of none = OverlaySource.live
source_of (some _) = OverlaySource.settled

module _ {F : Type 0} where
  -- `flex_by_key.get(key)`: of rows with one key the last is kept.
  unfoldable pub flex_at : List (FlexRow F) → PairKey → Option (FlexRow F)
  flex_at [] key = none
  flex_at (row ∷ rows) key =
      or_else (flex_at rows key) (if key_eq (flex_key row) key then some row else none)

  -- A capture that the account's snapshot has not superseded.
  abbrev pub is_current : MergeInputs F → LiveRow F → Bool
  is_current m row =
      not (is_overlay_superseded m.chicago (some row.fetched_at) (m.account_as_of row.account_id))

  -- `account_id in live_accounts`
  unfoldable pub has_current_capture : MergeInputs F → List (LiveRow F) → ℕ → Bool
  has_current_capture m live_rows account_id =
      any (λ row. is_current m row && row.account_id == account_id) live_rows

  -- `key in seen` after the first loop.
  abbrev pub is_seen : List (LiveRow F) → PairKey → Bool
  is_seen live_rows key = any (λ row. key_eq (live_key row) key) live_rows

module _ {F : Type 0} ⦃fl : FloatOps F⦄ where
  -- The quote's mark, unless it is the broker's sentinel for no data.
  abbrev quoted_mark : Option (LatestQuote F) → Option F
  quoted_mark none = none
  quoted_mark (some quote) = elim quote.mark [
    | none ↦ none
    | some mark ↦ if fl.at_most mark fl.zero_value then none else some mark
  ]

  abbrev quote_ts : Option (LatestQuote F) → Option ℕ
  quote_ts none = none
  quote_ts (some quote) = quote.market_ts

  unfoldable pub live_mark : MergeInputs F → LiveRow F → Option Text → Option F
  live_mark m row sec_type =
      mark_if_fresh m.now
        (normalize_live_mark (quoted_mark (m.quotes row.con_id)) (m.magnifiers row.con_id))
        (quote_ts (m.quotes row.con_id)) sec_type

  -- What a stale capture shows: the snapshot's values, if there is a snapshot row.
  abbrev position_of : Option (FlexRow F) → F → F
  position_of none position = position
  position_of (some flex) position = flex.position

  abbrev cost_of : Option (FlexRow F) → Option F → Option F
  cost_of none avg_cost = avg_cost
  cost_of (some flex) avg_cost = normalize_settled_avg_cost flex.avg_cost (raw_text flex.multiplier)

  -- The body of the first loop.
  unfoldable pub live_view : MergeInputs F → Option (FlexRow F) → LiveRow F → PositionView F
  unfolding live_mark
  live_view m flex row =
      let sec_type = text_or_else row.sec_type (of_flex (λ f. f.sec_type) flex) in
      let right = text_or_else row.right (of_flex (λ f. f.right) flex) in
      let strike = or_else row.strike (of_flex (λ f. f.strike) flex) in
      let mark = live_mark m row sec_type in
      let stale =
        is_live_stale m.denver m.now (some row.fetched_at) (of_flex (λ f. f.fetched_at) flex) in
      record {
        account_id = row.account_id;
        con_id = row.con_id;
        symbol = text_or_else row.symbol (of_flex (λ f. f.symbol) flex);
        local_symbol = text_or_else row.local_symbol (of_flex (λ f. f.local_symbol) flex);
        sec_type = sec_type;
        multiplier = text_or_else row.multiplier (of_flex (λ f. f.multiplier) flex);
        right = right;
        strike = strike;
        position = if stale then position_of flex row.position else row.position;
        avg_cost = if stale then cost_of flex (some row.avg_cost) else some row.avg_cost;
        mark = mark;
        mark_ts = if is_some mark then quote_ts (m.quotes row.con_id) else none;
        source = if stale then source_of flex else OverlaySource.live;
        live_unrealized =
            if stale && is_some flex
            then none
            else compute_unrealized row.position row.avg_cost mark
                (parse_multiplier (raw_text row.multiplier));
        settled_mark_price = of_flex (λ f. f.mark_price) flex;
        settled_unrealized = of_flex (λ f. f.fifo_pnl_unrealized) flex;
        settled_position_value = of_flex (λ f. f.position_value) flex;
        as_of_date = of_flex (λ f. f.as_of_date) flex;
        metrics = option_metric_fields sec_type right strike mark (m.metrics row.con_id);
      }

  -- The body of the second loop.
  unfoldable pub settled_view : MergeInputs F → FlexRow F → PositionView F
  settled_view m flex = record {
    account_id = flex.account_id;
    con_id = flex.con_id;
    symbol = flex.symbol;
    local_symbol = flex.local_symbol;
    sec_type = flex.sec_type;
    multiplier = flex.multiplier;
    right = flex.right;
    strike = flex.strike;
    position = flex.position;
    avg_cost = normalize_settled_avg_cost flex.avg_cost (raw_text flex.multiplier);
    mark = flex.mark_price;
    mark_ts = none;
    source = OverlaySource.settled;
    live_unrealized = none;
    settled_mark_price = flex.mark_price;
    settled_unrealized = flex.fifo_pnl_unrealized;
    settled_position_value = flex.position_value;
    as_of_date = flex.as_of_date;
    metrics =
        option_metric_fields flex.sec_type flex.right flex.strike flex.mark_price
          (m.metrics flex.con_id);
  }

  unfoldable pub live_views :
      MergeInputs F → List (FlexRow F) → List (LiveRow F) → List (PositionView F)
  unfolding live_view
  live_views m flex_rows [] = []
  live_views m flex_rows (row ∷ rows) =
      live_view m (flex_at flex_rows (live_key row)) row ∷ live_views m flex_rows rows

  -- Skipped: a row that a live row has shown, and one of an account with a current capture.
  unfoldable pub settled_views :
      MergeInputs F → List (LiveRow F) → List (FlexRow F) → List (PositionView F)
  unfolding settled_view
  settled_views m live_rows [] = []
  settled_views m live_rows (flex ∷ rows) =
      let rest = settled_views m live_rows rows in
      if is_seen live_rows (flex_key flex)
      then rest
      else if has_current_capture m live_rows flex.account_id
      then rest
      else settled_view m flex ∷ rest

  unfoldable pub merge_positions :
      MergeInputs F → List (FlexRow F) → List (LiveRow F) → List (PositionView F)
  unfolding live_views settled_views
  merge_positions m flex_rows live_rows =
      live_views m flex_rows live_rows ++ settled_views m live_rows flex_rows
