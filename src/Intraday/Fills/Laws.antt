-- ===== src/Intraday/Fills/Laws.antt =====
-- What the upserts of live fills keep.
use ngv_trader.Prelude.{
  ℕ, ◌≡◌, ◌⊎◌, refl, sym, ap, ◌∙◌, inl, inr, Bool-cases, some, Option-cases, List, [], ◌∷◌, Among,
  Text, text_eq, text_eq-true, FloatOps,
}
use ngv_trader.Intraday.Rows.{IbFill, IbExecution, LiveFill}
use ngv_trader.Intraday.Marks.{fill_realized_pnl}
use ngv_trader.Intraday.Fills.{
  LiveTables, refreshed, upsert_fill, write_live_fill, write_each, write_live_fills, in_window,
  time_in_window, live_execution_values,
}

module _ {F : Type 0} where
  -- A row of the fill has a realized profit of which `P` holds.
  abbrev pub HasProfit : Text → (F → Type 0) → List (LiveFill F) → Type 0
  HasProfit id P rows =
      (row : LiveFill F) × (profit : F) × Among row rows
      × (row.ib_exec_id ≡ id)
      × (row.realized_pnl ≡ some profit)
      × P profit

  HasProfit-later :
      (id : Text) (P : F → Type 0) (first : LiveFill F) (rows : List (LiveFill F))
      → HasProfit id P rows
      → HasProfit id P (first ∷ rows)
  HasProfit-later id P first rows (row, profit, there, same, kept, p) =
      (row, profit, inr there, same, kept, p)

  -- What a write keeps of the row that it overwrites.
  refreshed_keeps :
      (id : Text) (P : F → Type 0) (new old : LiveFill F) (profit : F) (rows : List (LiveFill F))
      → ((x : F) → new.realized_pnl ≡ some x → P x)
      → old.ib_exec_id ≡ id
      → old.realized_pnl ≡ some profit
      → P profit
      → HasProfit id P (refreshed new old ∷ rows)
  unfolding refreshed
  refreshed_keeps id P new old profit rows h same kept p = elim (Option-cases new.realized_pnl) [
    | inl e ↦ (refreshed new old, profit, inl refl, same, rw (e, kept) refl, p)
    | inr (x, e) ↦ (refreshed new old, x, inl refl, same, rw e refl, h x e)
  ]

  upsert_fill_keeps :
      (id : Text) (P : F → Type 0) (new : LiveFill F) (rows : List (LiveFill F))
      → (new.ib_exec_id ≡ id → (x : F) → new.realized_pnl ≡ some x → P x)
      → HasProfit id P rows
      → HasProfit id P (upsert_fill new rows)
  unfolding upsert_fill
  upsert_fill_keeps id P new [] h (row, profit, there, same, kept, p) = absurd there
  upsert_fill_keeps id P new (old ∷ rows) h (row, profit, inl here, same, kept, p) =
      elim (Bool-cases (text_eq old.ib_exec_id new.ib_exec_id)) [
        | inl e ↦
            let equal : old.ib_exec_id ≡ new.ib_exec_id = text_eq-true _ _ e in
            rw e (
              refreshed_keeps id P new old profit rows
                (h (sym equal ∙ (ap (λ r. r.ib_exec_id) (sym here) ∙ same)))
                (ap (λ r. r.ib_exec_id) (sym here) ∙ same)
                (ap (λ r. r.realized_pnl) (sym here) ∙ kept) p)
        | inr e ↦ rw e (row, profit, inl here, same, kept, p)
      ]
  upsert_fill_keeps id P new (old ∷ rows) h (row, profit, inr there, same, kept, p) =
      elim (Bool-cases (text_eq old.ib_exec_id new.ib_exec_id)) [
        | inl e ↦ rw e (row, profit, inr there, same, kept, p)
        | inr e ↦ rw e (
            HasProfit-later id P old (upsert_fill new rows)
              (upsert_fill_keeps id P new rows h (row, profit, there, same, kept, p)))
      ]

  module _ ⦃fl : FloatOps F⦄ where
    -- A fill of the batch reports the profit for the id.
    abbrev pub IsReported : Text → List (IbFill F) → F → Type 0
    IsReported id fills profit =
        (fill : IbFill F) × (execution : IbExecution F) × Among fill fills
        × (fill.execution ≡ some execution)
        × (execution.exec_id ≡ id)
        × (fill_realized_pnl fill ≡ some profit)

    IsReported-later :
        (id : Text) (first : IbFill F) (fills : List (IbFill F)) (profit : F)
        → IsReported id fills profit
        → IsReported id (first ∷ fills) profit
    IsReported-later id first fills profit (fill, execution, there, known, same, says) =
        (fill, execution, inr there, known, same, says)

    in_window-execution :
        (window_start : ℕ) (fill : IbFill F) (execution : IbExecution F) (exec_time : ℕ)
        → in_window window_start fill ≡ some (execution, exec_time)
        → fill.execution ≡ some execution
    unfolding time_in_window
    in_window-execution window_start fill execution exec_time h =
        elim (Option-cases fill.execution) [
          | inl e ↦ absurd (cc (rw e at h))
          | inr (found, e) ↦ elim (Option-cases (time_in_window window_start found)) [
            | inl t ↦ absurd (cc (rw (e, in_window, t) at h))
            | inr (time, t) ↦ cc (e, rw (e, in_window, t) at h)
          ]
        ]

    write_each_keeps :
        (now window_start : ℕ) (batch fills : List (IbFill F)) (lookup : List (Text × ℕ))
        (db : LiveTables F) (id : Text) (P : F → Type 0)
        → ((x : F) → IsReported id fills x → P x)
        → HasProfit id P db.fills
        → HasProfit id P (write_each now window_start batch fills lookup db).1.fills
    unfolding write_each write_live_fill live_execution_values
    write_each_keeps now window_start batch [] lookup db id P reported h = h
    write_each_keeps now window_start batch (fill ∷ fills) lookup db id P reported h =
        let later : (x : F) → IsReported id fills x → P x =
          λ x r. reported x (IsReported-later id fill fills x r) in
        elim (Option-cases (in_window window_start fill)) [
          | inl e ↦
              rw (write_each, e)
                (write_each_keeps now window_start batch fills lookup db id P later h)
          | inr ((execution, exec_time), e) ↦
              let next =
                write_live_fill now window_start batch fill execution exec_time lookup db in
              let known = in_window-execution window_start fill execution exec_time e in
              rw (write_each, e)
                (write_each_keeps now window_start batch fills next.0 next.1 id P later (
                  upsert_fill_keeps id P _ db.fills
                    (λ same x r. reported x (fill, execution, inl refl, known, same, r)) h))
        ]

    -- A live fill that had a realized profit has, after a sync, that profit or one that a fill of the
    -- batch with the same execution id reports.
    pub write_live_fills-HasProfit :
        (now window_start : ℕ) (fills : List (IbFill F)) (lookup : List (Text × ℕ))
        (db : LiveTables F) (id : Text) (profit : F)
        → HasProfit id (λ x. x ≡ profit) db.fills
        → HasProfit id
            (λ x. (x ≡ profit) ⊎ IsReported id fills x)
            (write_live_fills now window_start fills lookup db).1.fills
    unfolding write_live_fills
    write_live_fills-HasProfit now window_start fills lookup db id profit
          (row, kept, there, same, is_kept, equal) =
        write_each_keeps now window_start fills fills lookup db id
          (λ x. (x ≡ profit) ⊎ IsReported id fills x) (λ x r. inr r)
          (row, kept, there, same, is_kept, inl equal)
