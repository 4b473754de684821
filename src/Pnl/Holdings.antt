-- ===== src/Pnl/Holdings.antt =====
-- The quantity that a group holds of each position, and its share of the account's position:
-- `_signed_quantity`, `_net_held`, `group_holdings`, `held_fraction` and `apportion_to_group` of
-- src/services/trade_group_pnl.py. A dictionary by position is a function on keys.
use ngv_trader.Prelude.{
  ℕ, Bool, true, false, not, ◌&&◌, ◌||◌, Option, none, some, or_else, is_some, List, [], ◌∷◌, ◌++◌,
  map, filter, any, Text, text, text_eq, text_mem, upper, FloatOps, min_float, is_truthy,
  sum_floats, ◌==◌, if◌then◌else◌,
}
use ngv_trader.Settle.Rows.{LiveExecution, is_combo_summary}
use ngv_trader.Overlay.Rows.{
  OverlaySource, FlexRow, PositionView, PairKey, key_eq, flex_key, view_key,
}
use ngv_trader.Overlay.Totals.{is_live_source}
use ngv_trader.Pnl.Execution.{GroupExecution, Lifecycle, is_summary, execution_lifecycle}
pub mod Laws

-- A fill of a holding: its signed quantity and its lifecycle.
abbrev pub HeldFill : Type 0 → Type 0
HeldFill F = F × Option Lifecycle

abbrev is_close : Option Lifecycle → Bool
is_close none = false
is_close (some Lifecycle.opens) = false
is_close (some Lifecycle.closes) = true

-- `_scaled`
abbrev pub scaled : {F : Type 0} ⦃fl : FloatOps F⦄ → Option F → F → Option F
scaled none share = none
scaled ⦃fl⦄ (some value) share = some (fl.times value share)

-- `(account_id, con_id)` of a fill that has a contract.
abbrev pub at_key : PairKey → ℕ → Option ℕ → Bool
at_key key account_id none = false
at_key key account_id (some con_id) = key_eq (account_id, con_id) key

module _ {F : Type 0} ⦃fl : FloatOps F⦄ where
  abbrev negated : F → F
  negated x = fl.minus fl.zero_value x

  unfoldable pub signed_quantity : Option Text → F → F
  signed_quantity none quantity = quantity
  signed_quantity (some side) quantity =
      if text_mem (upper side) (text "SLD" ∷ text "SELL" ∷ [])
      then negated (fl.absolute quantity)
      else fl.absolute quantity

  abbrev quantity_of : HeldFill F → F
  quantity_of fill = fill.0

  abbrev opening : HeldFill F → Bool
  opening fill = not (is_close fill.1)

  -- A close that points against what was opened.
  abbrev reducing : F → HeldFill F → Bool
  reducing opened fill = is_close fill.1 && fl.less (fl.times fill.0 opened) fl.zero_value

  unfoldable pub net_held : List (HeldFill F) → F
  net_held fills =
      let opened = sum_floats (map quantity_of (filter opening fills)) in
      let held = fl.plus opened (sum_floats (map quantity_of (filter (reducing opened) fills))) in
      if fl.less fl.zero_value (fl.times held opened) then held else fl.zero_value

  -- The settled fills that count for a position: not a summary, not a superseded revision.
  abbrev pub counts_settled : PairKey → GroupExecution F → Bool
  counts_settled key ex =
      at_key key ex.account_id ex.con_id && not (is_summary ex.exec_role) && ex.is_canonical

  abbrev pub counts_live : PairKey → LiveExecution F → Bool
  counts_live key ex = at_key key ex.account_id ex.con_id && not (is_combo_summary ex.exec_role)

  unfoldable pub settled_fills : List (GroupExecution F) → PairKey → List (HeldFill F)
  unfolding signed_quantity
  settled_fills execs key =
      map (λ ex. (signed_quantity ex.side ex.quantity, execution_lifecycle ex.raw))
        (filter (counts_settled key) execs)

  unfoldable pub live_fills : List (LiveExecution F) → PairKey → List (HeldFill F)
  unfolding signed_quantity
  live_fills execs key =
      map (λ ex. (signed_quantity ex.side ex.quantity, none)) (filter (counts_live key) execs)

  -- `GroupHoldings`: a position that no fill counts for is missing.
  abbrev held_if_any : List (HeldFill F) → Option F
  held_if_any [] = none
  held_if_any (fill ∷ fills) = some (net_held (fill ∷ fills))

  unfoldable pub settled_holding : List (GroupExecution F) → PairKey → Option F
  unfolding settled_fills net_held
  settled_holding execs key = held_if_any (settled_fills execs key)

  unfoldable pub total_holding :
      List (GroupExecution F) → List (LiveExecution F) → PairKey → Option F
  unfolding settled_fills live_fills net_held
  total_holding execs live_execs key =
      held_if_any (settled_fills execs key ++ live_fills live_execs key)

  -- `held * position <= 0` leaves nothing.
  abbrev fraction_of : F → F → F
  fraction_of held position =
      if not (is_truthy position) || fl.at_most (fl.times held position) fl.zero_value
      then fl.zero_value
      else min_float (fl.over (fl.absolute held) (fl.absolute position)) fl.one_value

  unfoldable pub held_fraction : Option F → F → F
  held_fraction none position = fl.zero_value
  held_fraction (some held) position = fraction_of held position

  -- `flex_shares`: of rows with one key the last counts.
  unfoldable pub flex_shares : List (FlexRow F) → (PairKey → Option F) → PairKey → Option F
  unfolding held_fraction
  flex_shares [] holdings key = none
  flex_shares (row ∷ rows) holdings key =
      or_else (flex_shares rows holdings key) (
        if key_eq (flex_key row) key
        then some (held_fraction (holdings key) row.position)
        else none)

  abbrev share_or_zero : Option F → F
  share_or_zero none = fl.zero_value
  share_or_zero (some share) = share

  -- The share that sizes a view.
  abbrev pub position_share :
      List (FlexRow F) → (PairKey → Option F) → (PairKey → Option F) → PositionView F → F
  position_share flex_rows settled total view =
      if is_live_source view.source
      then held_fraction (total (view_key view)) view.position
      else share_or_zero (flex_shares flex_rows settled (view_key view))

  -- The view cut down to the share.
  abbrev pub cut_view :
      List (FlexRow F) → (PairKey → Option F) → F → PositionView F → PositionView F
  cut_view flex_rows settled share view =
      let settled_share = share_or_zero (flex_shares flex_rows settled (view_key view)) in
      record view {
        position = fl.times view.position share;
        live_unrealized = scaled view.live_unrealized share;
        settled_unrealized = scaled view.settled_unrealized settled_share;
        settled_position_value = scaled view.settled_position_value settled_share;
      }

  -- The views of `apportion_to_group`: one that the group holds none of is dropped.
  unfoldable pub apportion_to_group :
      List (FlexRow F)
      → (PairKey → Option F)
      → (PairKey → Option F)
      → List (PositionView F)
      → List (PositionView F)
  unfolding flex_shares held_fraction
  apportion_to_group flex_rows settled total [] = []
  apportion_to_group flex_rows settled total (view ∷ views) =
      let share = position_share flex_rows settled total view in
      let rest = apportion_to_group flex_rows settled total views in
      if fl.same share fl.zero_value then rest else cut_view flex_rows settled share view ∷ rest
