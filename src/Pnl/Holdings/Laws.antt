-- ===== src/Pnl/Holdings/Laws.antt =====
-- What a holding counts, and the views that an apportionment keeps.
use ngv_trader.Prelude.{
  ℕ, ◌≡◌, ◌⊎◌, ◌&&◌, arith, refl, ap, Bool, true, false, not, Bool-cases, inl, inr, Option, none,
  some, or_else, List, [], ◌∷◌, ◌++◌, map, filter_skips, FloatOps, if◌then◌else◌,
}
use ngv_trader.Overlay.Rows.{FlexRow, PositionView, PairKey, key_eq, flex_key, view_key}
use ngv_trader.Overlay.Totals.{is_live_source}
use ngv_trader.Pnl.Execution.{GroupExecution, execution_lifecycle, is_summary}
use ngv_trader.Settle.Rows.{ExecRole}
use ngv_trader.Pnl.Holdings.{
  at_key, signed_quantity, counts_settled, settled_fills, live_fills, settled_holding,
  total_holding, flex_shares, held_fraction, held_if_any, position_share, share_or_zero,
  apportion_to_group,
}

pub at_key-apart :
    (key : PairKey) (account_id : ℕ) (con_id : Option ℕ)
    → ¬ ((account_id ≡ key.0) × (con_id ≡ some key.1))
    → at_key key account_id con_id ≡ false
at_key-apart key account_id none h = refl
at_key-apart key account_id (some con_id) h = elim (Bool-cases (key_eq (account_id, con_id) key)) [
  | inl e ↦
      let same_account : account_id ≡ key.0 = ground arith in
      let same_contract : con_id ≡ key.1 = ground arith in
      absurd (h (same_account, ap some same_contract))
  | inr e ↦ e
]

no_both : (a b c : Bool) → (a ≡ false) ⊎ ((b ≡ false) ⊎ (c ≡ false)) → (a && b && c) ≡ false
no_both a b c (inl h) = ground arith
no_both a b c (inr (inl h)) = ground arith
no_both a b c (inr (inr h)) = ground arith

module _ {F : Type 0} ⦃fl : FloatOps F⦄ where
  -- A fill that says nothing of what is held at a position: of another account or contract, the
  -- summary of a combo, or a revision that another one superseded.
  abbrev pub IsIgnored : PairKey → GroupExecution F → Type 0
  IsIgnored key ex =
      (¬ ((ex.account_id ≡ key.0) × (ex.con_id ≡ some key.1)))
      ⊎ ((ex.exec_role ≡ some ExecRole.combo_summary) ⊎ (ex.is_canonical ≡ false))

  ignored-counts_settled :
      (key : PairKey) (ex : GroupExecution F) → IsIgnored key ex → counts_settled key ex ≡ false
  ignored-counts_settled key ex (inl apart) =
      no_both (at_key key ex.account_id ex.con_id) (not (is_summary ex.exec_role)) ex.is_canonical
        (inl (at_key-apart key ex.account_id ex.con_id apart))
  ignored-counts_settled key ex (inr (inl summary)) =
      no_both (at_key key ex.account_id ex.con_id) (not (is_summary ex.exec_role)) ex.is_canonical
        (inr (inl (ap (λ role. not (is_summary role)) summary)))
  ignored-counts_settled key ex (inr (inr superseded)) =
      no_both (at_key key ex.account_id ex.con_id) (not (is_summary ex.exec_role)) ex.is_canonical
        (inr (inr superseded))

  -- A fill of another account or contract, the summary of a combo or a superseded revision counts
  -- for nothing in a settled holding, wherever it stands among the fills.
  pub settled_holding_skips :
      (before after : List (GroupExecution F)) (ex : GroupExecution F) (key : PairKey)
      → IsIgnored key ex
      → settled_holding (before ++ ex ∷ after) key ≡ settled_holding (before ++ after) key
  unfolding settled_holding settled_fills
  settled_holding_skips before after ex key h =
      ap
        (λ (rows : List (GroupExecution F)).
          held_if_any
            (map (λ x. (signed_quantity x.side x.quantity, execution_lifecycle x.raw)) rows))
        (filter_skips (counts_settled key) before after ex (ignored-counts_settled key ex h))

  -- A share of zero or none stays so when a share of zero is the default.
  or_else_zero :
      (later : Option F) (here : Bool)
      → share_or_zero later ≡ fl.zero_value
      → share_or_zero (or_else later (if here then some fl.zero_value else none)) ≡ fl.zero_value
  or_else_zero none true h = refl
  or_else_zero none false h = refl
  or_else_zero (some x) here h = h

  flex_shares_no_fills :
      (rows : List (FlexRow F)) (key : PairKey)
      → share_or_zero (flex_shares rows (settled_holding []) key) ≡ fl.zero_value
  unfolding flex_shares settled_holding settled_fills held_fraction
  flex_shares_no_fills [] key = refl
  flex_shares_no_fills (row ∷ rows) key =
      or_else_zero (flex_shares rows (settled_holding []) key) (key_eq (flex_key row) key)
        (flex_shares_no_fills rows key)

  no_share :
      (flex_rows : List (FlexRow F)) (view : PositionView F)
      → position_share flex_rows (settled_holding []) (total_holding [] []) view ≡ fl.zero_value
  unfolding total_holding settled_fills live_fills held_fraction
  no_share flex_rows view = elim (Bool-cases (is_live_source view.source)) [
    | inl e ↦ rw e
    | inr e ↦ rw (e, flex_shares_no_fills flex_rows (view_key view))
  ]

  -- A group without fills has no views, if zero is equal to itself.
  apportion_to_group_no_fills :
      (flex_rows : List (FlexRow F)) (views : List (PositionView F))
      → fl.same fl.zero_value fl.zero_value ≡ true
      → apportion_to_group flex_rows (settled_holding []) (total_holding [] []) views ≡ []
  unfolding apportion_to_group
  apportion_to_group_no_fills flex_rows [] h = refl
  apportion_to_group_no_fills flex_rows (v ∷ views) h =
      rw (no_share flex_rows v, h) (apportion_to_group_no_fills flex_rows views h)
