-- ===== src/Pnl/Execution/Laws.antt =====
-- What the realized total of a group counts.
use ngv_trader.Prelude.{
  ◌≡◌, ◌≢◌, refl, ap, Bool, true, false, not, ◌||◌, Option, none, some, List, [], ◌∷◌, ◌++◌, map,
  present, FloatOps, filter_skips,
}
use ngv_trader.Settle.Rows.{ExecRole}
use ngv_trader.Pnl.Execution.{
  GroupExecution, execution_realized_pnl, realized_of, summary_row, standalone_row, fill_row,
  is_summary, is_combo_leg, realized_pnl_total, total_of,
}

leg-not_summary : (r : Option ExecRole) → is_combo_leg r ≡ true → is_summary r ≡ false
leg-not_summary none e = refl
leg-not_summary (some ExecRole.combo_summary) e = cc
leg-not_summary (some ExecRole.leg) e = refl
leg-not_summary (some ExecRole.standalone) e = refl

leg-not_standalone :
    (r : Option ExecRole) → is_combo_leg r ≡ true → not (is_summary r || is_combo_leg r) ≡ false
leg-not_standalone none e = cc
leg-not_standalone (some ExecRole.combo_summary) e = refl
leg-not_standalone (some ExecRole.leg) e = refl
leg-not_standalone (some ExecRole.standalone) e = cc

module _ {F : Type 0} ⦃fl : FloatOps F⦄ where
  realized_of-insert :
      (test : GroupExecution F → Bool) (before after : List (GroupExecution F))
      (ex : GroupExecution F)
      → test ex ≡ false
      → realized_of test (before ++ ex ∷ after) ≡ realized_of test (before ++ after)
  unfolding realized_of
  realized_of-insert test before after ex e =
      ap (λ rows. present (map (λ x. execution_realized_pnl x.raw) rows))
        (filter_skips test before after ex e)

  total_of_fills :
      (summaries standalone fills more : List F)
      → summaries ≢ []
      → total_of summaries standalone fills ≡ total_of summaries standalone more
  total_of_fills [] standalone fills more h = absurd (h refl)
  total_of_fills (x ∷ xs) standalone fills more h = refl

  -- Where a summary has a figure, a leg counts for nothing: the total is that without it, wherever
  -- the leg stands.
  pub realized_pnl_total_leg :
      (before after : List (GroupExecution F)) (ex : GroupExecution F)
      → is_combo_leg ex.exec_role ≡ true
      → realized_of summary_row (before ++ after) ≢ []
      → realized_pnl_total (before ++ ex ∷ after) ≡ realized_pnl_total (before ++ after)
  unfolding realized_pnl_total
  realized_pnl_total_leg before after ex is_leg has_summary =
      rw
        (
          realized_of-insert summary_row before after ex (leg-not_summary ex.exec_role is_leg),
          realized_of-insert standalone_row before after ex
              (leg-not_standalone ex.exec_role is_leg),
        )
        (total_of_fills (realized_of summary_row (before ++ after))
          (realized_of standalone_row (before ++ after))
          (realized_of fill_row (before ++ ex ∷ after)) (realized_of fill_row (before ++ after))
          has_summary)
