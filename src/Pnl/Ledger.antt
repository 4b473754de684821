-- ===== src/Pnl/Ledger.antt =====
-- The overlay of one trade group: `GroupLedger`, `_account_breakdown`, `_group_live_is_stale` and
-- `_overlay_one` of src/services/trade_group_pnl.py. A dictionary by account is a function; the
-- expiries, which ride along for display, are left out.
use ngv_trader.Prelude.{
  ℕ, Bool, true, false, not, ◌&&◌, ◌||◌, Option, none, some, or_else, is_none, is_some, List, [],
  ◌∷◌, map, filter, any, all, Text, is_empty, FloatOps, is_truthy, or_zero, ◌==◌, if◌then◌else◌,
}
use ngv_trader.Settle.Rows.{LiveExecution}
use ngv_trader.Overlay.Clock.{is_live_stale}
use ngv_trader.Overlay.Rows.{
  FlexRow, LiveRow, PositionView, PairKey, key_eq, flex_key, live_key, view_key,
}
use ngv_trader.Overlay.Merge.{MergeInputs, merge_positions, flex_at, of_flex}
use ngv_trader.Overlay.Totals.{
  OverlayTotals, overlay_totals, intraday_unrealized_total, settled_unrealized_total,
  dedupe_live_realized, add_known,
}
use ngv_trader.Pnl.Execution.{GroupExecution, realized_pnl_total}
use ngv_trader.Pnl.Holdings.{
  at_key, settled_holding, total_holding, flex_shares, apportion_to_group,
}
pub mod Laws

pub record GroupLedger (F : Type 0) : Type 0 where
  pub executions : List (GroupExecution F)
  pub live_fills : List (LiveExecution F)
  pub extra_pairs : List PairKey

-- The rows and lookups that were loaded, for the group's pairs or more.
pub record OverlayContext (F : Type 0) : Type 0 where
  pub flex_rows : List (FlexRow F)
  pub live_rows : List (LiveRow F)
  pub live_execs : List (LiveExecution F)
  pub inputs : MergeInputs F

pub record AccountOverlay (F : Type 0) : Type 0 where
  pub unrealized : Option F
  pub intraday_unrealized : Option F
  pub intraday_realized : Option F
  pub intraday_total : Option F

pub record GroupOverlay (F : Type 0) : Type 0 where
  pub views : List (PositionView F)
  pub flex_rows : List (FlexRow F)
  pub live_rows : List (LiveRow F)
  pub realized_pnl : Option F
  pub totals : OverlayTotals F
  pub by_account : ℕ → Option (AccountOverlay F)
  pub live_is_stale : Bool

module _ {F : Type 0} where
  -- `key in ledger.pairs`
  unfoldable pub in_pairs : GroupLedger F → PairKey → Bool
  in_pairs ledger key =
      any (λ ex. at_key key ex.account_id ex.con_id) ledger.executions
      || any (λ ex. at_key key ex.account_id ex.con_id) ledger.live_fills
      || any (λ pair. key_eq pair key) ledger.extra_pairs

  unfoldable pub settled_exec_ids : GroupLedger F → List Text
  settled_exec_ids ledger =
      filter (λ id. not (is_empty id)) (map (λ ex. ex.ib_exec_id) ledger.executions)

  -- `(account_id, con_id) in pairs` of a fill; a fill without a contract has no pair.
  abbrev pub exec_in_pairs : GroupLedger F → LiveExecution F → Bool
  exec_in_pairs ledger ex = of_contract ledger ex.account_id ex.con_id
    where
      of_contract : GroupLedger F → ℕ → Option ℕ → Bool
      of_contract ledger account_id none = false
      of_contract ledger account_id (some con_id) = in_pairs ledger (account_id, con_id)

  -- `live_fetched.get(key)`: of rows with one key the last counts.
  unfoldable pub live_fetched : List (LiveRow F) → PairKey → Option ℕ
  live_fetched [] key = none
  live_fetched (row ∷ rows) key =
      or_else (live_fetched rows key)
        (if key_eq (live_key row) key then some row.fetched_at else none)

  -- `_group_live_is_stale`, at the instant `now` of the merge.
  unfoldable pub group_live_is_stale :
      MergeInputs F → List (PositionView F) → List (FlexRow F) → List (LiveRow F) → Bool
  unfolding live_fetched
  group_live_is_stale m views flex_rows live_rows =
      let backed = filter (λ v. is_some (live_fetched live_rows (view_key v))) views in
      any (λ v. true) backed
      && all
          (λ v.
            is_live_stale m.denver m.now (live_fetched live_rows (view_key v))
              (of_flex (λ row. row.fetched_at) (flex_at flex_rows (view_key v))))
          backed

  abbrev of_account : ℕ → PositionView F → Bool
  of_account account_id view = view.account_id == account_id

  abbrev exec_of_account : ℕ → LiveExecution F → Bool
  exec_of_account account_id ex = ex.account_id == account_id

  abbrev execution_of_account : ℕ → GroupExecution F → Bool
  execution_of_account account_id ex = ex.account_id == account_id

module _ {F : Type 0} ⦃fl : FloatOps F⦄ where
  -- The realized total of the account's own fills.
  unfoldable pub realized_pnl_by_account : GroupLedger F → ℕ → Option F
  realized_pnl_by_account ledger account_id =
      realized_pnl_total (filter (execution_of_account account_id) ledger.executions)

  -- `(realized or 0.0) + live` if one of them is there.
  abbrev intraday_realized_of : Option F → F → Option F
  intraday_realized_of realized live_realized =
      if is_some realized || is_truthy live_realized
      then some (fl.plus (or_zero realized) live_realized)
      else none

  abbrev account_figures : Option F → Option F → Option F → AccountOverlay F
  account_figures unrealized intraday_unrealized intraday_realized = record {
    unrealized = unrealized;
    intraday_unrealized = intraday_unrealized;
    intraday_realized = intraday_realized;
    intraday_total = add_known intraday_unrealized intraday_realized;
  }

  -- `_account_breakdown`: the accounts are those of the views and of the settled fills.
  unfoldable pub account_breakdown :
      GroupLedger F → List (PositionView F) → List (LiveExecution F) → ℕ → Option (AccountOverlay F)
  unfolding realized_pnl_by_account settled_exec_ids
  account_breakdown ledger views live_execs account_id =
      if any (of_account account_id) views
        || any (execution_of_account account_id) ledger.executions
      then some (
          account_figures (settled_unrealized_total (filter (of_account account_id) views))
            (intraday_unrealized_total (filter (of_account account_id) views))
            (intraday_realized_of (realized_pnl_by_account ledger account_id)
              (dedupe_live_realized (settled_exec_ids ledger)
                (filter (exec_of_account account_id) live_execs)).1))
      else none

  -- The overlay of the rows that are in the ledger's pairs.
  overlay_of : GroupLedger F → OverlayContext F → GroupOverlay F
  unfolding group_live_is_stale account_breakdown settled_exec_ids
  overlay_of ledger slice =
      let merged = merge_positions slice.inputs slice.flex_rows slice.live_rows in
      let settled = settled_holding ledger.executions in
      let views =
        apportion_to_group slice.flex_rows settled
          (total_holding ledger.executions ledger.live_fills) merged in
      let realized = realized_pnl_total ledger.executions in
      record {
        views = views;
        flex_rows = slice.flex_rows;
        live_rows = slice.live_rows;
        realized_pnl = realized;
        totals =
            overlay_totals slice.flex_rows views slice.live_execs (settled_exec_ids ledger) realized
              (some (flex_shares slice.flex_rows settled));
        by_account = account_breakdown ledger views slice.live_execs;
        live_is_stale = group_live_is_stale slice.inputs views slice.flex_rows slice.live_rows;
      }

  -- The rows of the context that are in the ledger's pairs.
  unfoldable pub slice_of : GroupLedger F → OverlayContext F → OverlayContext F
  slice_of ledger context = record context {
    flex_rows = filter (λ row. in_pairs ledger (flex_key row)) context.flex_rows;
    live_rows = filter (λ row. in_pairs ledger (live_key row)) context.live_rows;
    live_execs = filter (exec_in_pairs ledger) context.live_execs;
  }

  unfoldable pub overlay_one : OverlayContext F → GroupLedger F → GroupOverlay F
  unfolding overlay_of slice_of
  overlay_one context ledger = overlay_of ledger (slice_of ledger context)
