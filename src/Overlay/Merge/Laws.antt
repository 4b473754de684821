-- ===== src/Overlay/Merge/Laws.antt =====
-- Which positions a merge shows, and from which feed.
use mathlib.Core.List.{map-append}
use ngv_trader.Prelude.{
  ◌≡◌, refl, ap, ◌∙◌, inl, inr, Bool, not, ◌&&◌, Option, none, some, List, [], ◌∷◌, ◌++◌, map,
  filter, All, All-append, FloatOps, Bool-cases,
}
use ngv_trader.Overlay.Clock.{is_live_stale}
use ngv_trader.Overlay.Rows.{
  OverlaySource, FlexRow, LiveRow, PositionView, flex_key, live_key, view_key,
}
use ngv_trader.Overlay.Merge.{
  MergeInputs, flex_at, has_current_capture, is_seen, live_view, live_views, settled_views,
  merge_positions,
}

module _ {F : Type 0} ⦃fl : FloatOps F⦄ where
  -- A snapshot row that is shown on its own: no live row has its key, and its account has no
  -- current capture from which its absence would follow.
  abbrev pub is_shown_settled : MergeInputs F → List (LiveRow F) → FlexRow F → Bool
  is_shown_settled m live_rows flex =
      not (is_seen live_rows (flex_key flex))
      && not (has_current_capture m live_rows flex.account_id)

  live_views-keys :
      (m : MergeInputs F) (flex_rows : List (FlexRow F)) (rows : List (LiveRow F))
      → map view_key (live_views m flex_rows rows) ≡ map live_key rows
  unfolding live_views
  live_views-keys m flex_rows [] = refl
  live_views-keys m flex_rows (row ∷ rows) =
      ap (λ ks. live_key row ∷ ks) (live_views-keys m flex_rows rows)

  settled_views-keys :
      (m : MergeInputs F) (live_rows : List (LiveRow F)) (rows : List (FlexRow F))
      → map view_key (settled_views m live_rows rows)
        ≡ map flex_key (filter (is_shown_settled m live_rows) rows)
  unfolding settled_views
  settled_views-keys m live_rows [] = refl
  settled_views-keys m live_rows (flex ∷ rows) =
      elim (Bool-cases (is_seen live_rows (flex_key flex))) [
        | inl seen ↦ rw seen (settled_views-keys m live_rows rows)
        | inr unseen ↦ elim (Bool-cases (has_current_capture m live_rows flex.account_id)) [
          | inl closed ↦ rw (unseen, closed) (settled_views-keys m live_rows rows)
          | inr kept ↦
              rw (unseen, kept)
                (ap (λ ks. flex_key flex ∷ ks) (settled_views-keys m live_rows rows))
        ]
      ]

  -- A merge shows each live row once, in order, and then exactly those snapshot rows whose key no
  -- live row has and whose account has no capture that the snapshot has not superseded.
  pub merge_positions-keys :
      (m : MergeInputs F) (flex_rows : List (FlexRow F)) (live_rows : List (LiveRow F))
      → map view_key (merge_positions m flex_rows live_rows)
        ≡ map live_key live_rows ++ map flex_key (filter (is_shown_settled m live_rows) flex_rows)
  unfolding merge_positions
  merge_positions-keys m flex_rows live_rows =
      map-append view_key (live_views m flex_rows live_rows) (settled_views m live_rows flex_rows)
      ∙ (ap (λ ks. ks ++ map view_key (settled_views m live_rows flex_rows))
            (live_views-keys m flex_rows live_rows)
          ∙ ap (λ ks. map live_key live_rows ++ ks) (settled_views-keys m live_rows flex_rows))

  -- A view that says `settled` carries no live figure.
  abbrev IsFigure : OverlaySource → Option F → Type 0
  IsFigure OverlaySource.live unrealized = Unit
  IsFigure OverlaySource.settled unrealized = unrealized ≡ none

  abbrev pub IsConsistent : PositionView F → Type 0
  IsConsistent v = IsFigure v.source v.live_unrealized

  live_view-IsConsistent :
      (m : MergeInputs F) (flex : Option (FlexRow F)) (row : LiveRow F)
      → IsConsistent (live_view m flex row)
  unfolding live_view
  live_view-IsConsistent m none row =
      elim (Bool-cases (is_live_stale m.denver m.now (some row.fetched_at) none)) [
        | inl stale ↦ rw stale tt
        | inr fresh ↦ rw fresh tt
      ]
  live_view-IsConsistent m (some flex) row =
      elim (Bool-cases (is_live_stale m.denver m.now (some row.fetched_at) flex.fetched_at)) [
        | inl stale ↦ rw stale refl
        | inr fresh ↦ rw fresh tt
      ]

  live_views-IsConsistent :
      (m : MergeInputs F) (flex_rows : List (FlexRow F)) (rows : List (LiveRow F))
      → All IsConsistent (live_views m flex_rows rows)
  unfolding live_views
  live_views-IsConsistent m flex_rows [] = tt
  live_views-IsConsistent m flex_rows (row ∷ rows) = (
    live_view-IsConsistent m (flex_at flex_rows (live_key row)) row,
    live_views-IsConsistent m flex_rows rows,
  )

  settled_views-IsConsistent :
      (m : MergeInputs F) (live_rows : List (LiveRow F)) (rows : List (FlexRow F))
      → All IsConsistent (settled_views m live_rows rows)
  unfolding settled_views
  settled_views-IsConsistent m live_rows [] = tt
  settled_views-IsConsistent m live_rows (flex ∷ rows) =
      let rest = settled_views-IsConsistent m live_rows rows in
      elim (Bool-cases (is_seen live_rows (flex_key flex))) [
        | inl seen ↦ rw seen rest
        | inr unseen ↦ elim (Bool-cases (has_current_capture m live_rows flex.account_id)) [
          | inl closed ↦ rw (unseen, closed) rest
          | inr kept ↦ rw (unseen, kept) (refl, rest)
        ]
      ]

  -- In a merge, a view whose source is the snapshot carries no live unrealized figure.
  pub merge_positions-IsConsistent :
      (m : MergeInputs F) (flex_rows : List (FlexRow F)) (live_rows : List (LiveRow F))
      → All IsConsistent (merge_positions m flex_rows live_rows)
  unfolding merge_positions
  merge_positions-IsConsistent m flex_rows live_rows =
      All-append IsConsistent (live_views m flex_rows live_rows)
        (settled_views m live_rows flex_rows) (live_views-IsConsistent m flex_rows live_rows)
        (settled_views-IsConsistent m live_rows flex_rows)
