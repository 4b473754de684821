-- ===== src/Overlay/Totals/Laws.antt =====
-- The totals: the fallback without live data, no fill counted twice, and the newest mark.
use ngv_trader.Prelude.{
  filter_skips, ◌≡◌, refl, ap, true, not, Option, List, [], ◌∷◌, ◌++◌, map, present, Text, FloatOps,
  sum_present, sum_floats,
}
use ngv_trader.Settle.Rows.{LiveExecution}
use ngv_trader.Overlay.Rows.{FlexRow, PositionView, PairKey}
use ngv_trader.Overlay.Merge.{MergeInputs, has_current_capture, settled_views, merge_positions}
use ngv_trader.Overlay.Totals.{
  intraday_contribution, intraday_unrealized_total, dedupe_live_realized, is_settled_exec,
  overlay_totals, totals_from,
}

module _ {F : Type 0} ⦃fl : FloatOps F⦄ where
  contributions_settled :
      (m : MergeInputs F) (rows : List (FlexRow F))
      → map intraday_contribution (settled_views m [] rows) ≡ map (λ r. r.fifo_pnl_unrealized) rows
  unfolding settled_views intraday_contribution has_current_capture
  contributions_settled m [] = refl
  contributions_settled m (r ∷ rows) =
      ap (λ cs. r.fifo_pnl_unrealized ∷ cs) (contributions_settled m rows)

  -- Without live rows, the intraday unrealized total of a merge is the settled one: the sum of the
  -- snapshot's unrealized figures, and missing when no row has one.
  pub intraday_unrealized_total-merge_positions :
      (m : MergeInputs F) (rows : List (FlexRow F))
      → intraday_unrealized_total (merge_positions m rows [])
        ≡ sum_present (present (map (λ r. r.fifo_pnl_unrealized) rows))
  unfolding intraday_unrealized_total merge_positions
  intraday_unrealized_total-merge_positions m rows =
      ap (λ cs. sum_present (present cs)) (contributions_settled m rows)

  -- Leaving out a settled fill leaves the kept fills and their sum as they are.
  pub dedupe_live_realized_settled_fill :
      (ids : List Text) (before after : List (LiveExecution F)) (e : LiveExecution F)
      → is_settled_exec ids e ≡ true
      → dedupe_live_realized ids (before ++ e ∷ after) ≡ dedupe_live_realized ids (before ++ after)
  unfolding dedupe_live_realized
  dedupe_live_realized_settled_fill ids before after e h =
      ap
        (λ (included : List (LiveExecution F)).
          (included, sum_floats (present (map (λ x. x.realized_pnl) included))))
        (filter_skips (λ x. not (is_settled_exec ids x)) before after e (rw h))

  -- A live fill whose id has settled counts for nothing: the totals are those without it, wherever
  -- it stands among the live fills.
  pub overlay_totals_settled_fill :
      (flex_rows : List (FlexRow F)) (views : List (PositionView F))
      (before after : List (LiveExecution F)) (e : LiveExecution F) (settled_exec_ids : List Text)
      (realized : Option F) (shares : Option (PairKey → Option F))
      → is_settled_exec settled_exec_ids e ≡ true
      → overlay_totals flex_rows views (before ++ e ∷ after) settled_exec_ids realized shares
        ≡ overlay_totals flex_rows views (before ++ after) settled_exec_ids realized shares
  unfolding overlay_totals
  overlay_totals_settled_fill flex_rows views before after e settled_exec_ids realized shares h =
      ap (λ (d : List (LiveExecution F) × F). totals_from flex_rows views d.1 realized shares)
        (dedupe_live_realized_settled_fill settled_exec_ids before after e h)
