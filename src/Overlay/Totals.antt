-- ===== src/Overlay/Totals.antt =====
-- The totals of src/services/intraday_overlay.py.
use ngv_trader.Prelude.{
  ℕ, Bool, true, false, not, ◌||◌, Option, none, some, is_some, List, [], ◌∷◌, map, present, any,
  filter, Text, text_eq, leb, FloatOps, sum_floats, sum_present, or_zero, is_truthy, if◌then◌else◌,
}
use ngv_trader.Settle.Rows.{LiveExecution}
use ngv_trader.Overlay.Rows.{OverlaySource, FlexRow, PositionView, PairKey, flex_key}
pub mod Laws

abbrev pub is_live_source : OverlaySource → Bool
is_live_source OverlaySource.live = true
is_live_source OverlaySource.settled = false

abbrev later : ℕ → Option ℕ → ℕ
later t none = t
later t (some u) = if leb u t then t else u

unfoldable pub latest : List ℕ → Option ℕ
latest [] = none
latest (t ∷ ts) = some (later t (latest ts))

module _ {F : Type 0} where
  -- The unrealized figure that a view adds to the intraday total.
  unfoldable pub intraday_contribution : PositionView F → Option F
  intraday_contribution view =
      if is_live_source view.source
      then elim view.live_unrealized [ none ↦ view.settled_unrealized | some x ↦ some x ]
      else view.settled_unrealized

  -- `marks_as_of`
  unfoldable pub marks_as_of : List (PositionView F) → Option ℕ
  unfolding latest
  marks_as_of views = latest (present (map (λ v. v.mark_ts) views))

  -- `e.ib_exec_id in settled_exec_ids`
  abbrev pub is_settled_exec : List Text → LiveExecution F → Bool
  is_settled_exec settled_exec_ids e = any (λ id. text_eq id e.ib_exec_id) settled_exec_ids

module _ {F : Type 0} ⦃fl : FloatOps F⦄ where
  unfoldable pub intraday_unrealized_total : List (PositionView F) → Option F
  unfolding intraday_contribution
  intraday_unrealized_total views = sum_present (present (map intraday_contribution views))

  unfoldable pub settled_unrealized_total : List (PositionView F) → Option F
  settled_unrealized_total views = sum_present (present (map (λ v. v.settled_unrealized) views))

  unfoldable pub dedupe_live_realized :
      List Text → List (LiveExecution F) → List (LiveExecution F) × F
  dedupe_live_realized settled_exec_ids live_execs =
      let included = filter (λ e. not (is_settled_exec settled_exec_ids e)) live_execs in
      (included, sum_floats (present (map (λ e. e.realized_pnl) included)))

  -- `flex_shares.get(key, 0.0)`, or 1.0 if there are no shares.
  abbrev pub share_of : Option (PairKey → Option F) → PairKey → F
  share_of none key = fl.one_value
  share_of (some shares) key = elim (shares key) [ none ↦ fl.zero_value | some s ↦ s ]

  abbrev pub scaled_unrealized : Option (PairKey → Option F) → FlexRow F → Option F
  scaled_unrealized shares row = elim row.fifo_pnl_unrealized [
    | none ↦ none
    | some x ↦ some (fl.times x (share_of shares (flex_key row)))
  ]

  -- `a is not None or b is not None`, and the sum with 0.0 for what is missing.
  abbrev pub add_known : Option F → Option F → Option F
  add_known none none = none
  add_known (some a) b = some (fl.plus (or_zero (some a)) (or_zero b))
  add_known none (some b) = some (fl.plus (or_zero none) (or_zero (some b)))

pub record OverlayTotals (F : Type 0) : Type 0 where
  pub settled_unrealized : Option F
  pub intraday_unrealized : Option F
  pub intraday_realized : Option F
  pub intraday_total : Option F
  pub marks_as_of : Option ℕ

module _ {F : Type 0} ⦃fl : FloatOps F⦄ where
  -- The totals from the realized sum of the live fills that have not settled.
  unfoldable pub totals_from :
      List (FlexRow F)
      → List (PositionView F)
      → F
      → Option F
      → Option (PairKey → Option F)
      → OverlayTotals F
  unfolding intraday_unrealized_total marks_as_of
  totals_from flex_rows views live_realized realized flex_shares =
      let intraday_unrealized = intraday_unrealized_total views in
      let intraday_realized : Option F =
        if is_some realized || is_truthy live_realized
        then some (fl.plus (or_zero realized) live_realized)
        else none in
      record {
        settled_unrealized = sum_present (present (map (scaled_unrealized flex_shares) flex_rows));
        intraday_unrealized = intraday_unrealized;
        intraday_realized = intraday_realized;
        intraday_total = add_known intraday_unrealized intraday_realized;
        marks_as_of = marks_as_of views;
      }

  unfoldable pub overlay_totals :
      List (FlexRow F)
      → List (PositionView F)
      → List (LiveExecution F)
      → List Text
      → Option F
      → Option (PairKey → Option F)
      → OverlayTotals F
  unfolding totals_from dedupe_live_realized
  overlay_totals flex_rows views live_execs settled_exec_ids realized flex_shares =
      totals_from flex_rows views (dedupe_live_realized settled_exec_ids live_execs).1 realized
        flex_shares
