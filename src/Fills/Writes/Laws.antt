-- ===== src/Fills/Writes/Laws.antt =====
-- The execution ids of the table after writes.
use ngv_trader.Prelude.{
  ℕ, ◌+◌, ◌≡◌, ◌≤◌, refl, ap, ◌∙◌, inl, inr, Bool, true, false, not, List, [], ◌∷◌, map, length,
  Text, text_mem, Bool-cases, ◌==◌, arith,
}
use ngv_trader.Fills.Rows.{Books, Execution}
use ngv_trader.Fills.Writes.{
  count_of, upsert, has_exec_id, retag_fills, has_summary, retag_trade, retag_combo_legs,
}
use ngv_trader.Fills.Writes.Ids.{add_id, add_id_behind}

pub count_of_le : (b : Bool) → count_of b ≤ 1
count_of_le true = omega arith
count_of_le false = omega arith

module _ {F : Type 0} where
  abbrev pub ids_of : List (Execution F) → List Text
  ids_of rows = map (λ row. row.ib_exec_id) rows

  -- An update that keeps the id of a row.
  abbrev pub KeepsId : (Execution F → Execution F) → Type 0
  KeepsId update = (row : Execution F) → (update row).ib_exec_id ≡ row.ib_exec_id

  module _ (row : Execution F) (update : Execution F → Execution F) (keeps : KeepsId update) where
    pub upsert_inserts :
        (rows : List (Execution F))
        → (upsert row update rows).0 ≡ not (text_mem row.ib_exec_id (ids_of rows))
    unfolding upsert
    upsert_inserts [] = refl
    upsert_inserts (old ∷ rows) = elim (Bool-cases (has_exec_id row.ib_exec_id old)) [
      | inl e ↦ rw e refl
      | inr e ↦ rw e (upsert_inserts rows)
    ]

    pub upsert-ids_of :
        (rows : List (Execution F))
        → ids_of (upsert row update rows).1 ≡ add_id row.ib_exec_id (ids_of rows)
    unfolding upsert
    upsert-ids_of [] = refl
    upsert-ids_of (old ∷ rows) =
        let kept = ids_of rows in
        elim (Bool-cases (has_exec_id row.ib_exec_id old)) [
          | inl e ↦ rw (e, keeps old) refl
          | inr e ↦ rw e (
              ap (λ ids. old.ib_exec_id ∷ ids) (upsert-ids_of rows)
              ∙ add_id_behind row.ib_exec_id old.ib_exec_id kept)
        ]

  pub length-upsert :
      (row : Execution F) (update : Execution F → Execution F) (rows : List (Execution F))
      → length (upsert row update rows).1 ≡ length rows + count_of (upsert row update rows).0
  unfolding upsert
  length-upsert row update [] = refl
  length-upsert row update (old ∷ rows) = elim (Bool-cases (has_exec_id row.ib_exec_id old)) [
    | inl e ↦ rw e (omega arith)
    | inr e ↦ rw e (omega (arith, length-upsert row update rows))
  ]

  -- Tagging legs keeps the ids.
  retag_fills-ids_of :
      (trade_id : ℕ) (rows : List (Execution F)) → ids_of (retag_fills trade_id rows) ≡ ids_of rows
  unfolding retag_fills
  retag_fills-ids_of trade_id [] = refl
  retag_fills-ids_of trade_id (row ∷ rows) = elim (Bool-cases (row.trade_id == trade_id)) [
    | inl e ↦ rw e (ap (λ ids. row.ib_exec_id ∷ ids) (retag_fills-ids_of trade_id rows))
    | inr e ↦ rw e (ap (λ ids. row.ib_exec_id ∷ ids) (retag_fills-ids_of trade_id rows))
  ]

  retag_trade-ids_of :
      (trade_id : ℕ) (books : Books F)
      → ids_of (retag_trade trade_id books).executions ≡ ids_of books.executions
  unfolding retag_trade
  retag_trade-ids_of trade_id books = elim (Bool-cases (has_summary trade_id books.executions)) [
    | inl e ↦ rw e (retag_fills-ids_of trade_id books.executions)
    | inr e ↦ rw e refl
  ]

  pub retag_combo_legs-ids_of :
      (trade_ids : List ℕ) (books : Books F)
      → ids_of (retag_combo_legs trade_ids books).executions ≡ ids_of books.executions
  unfolding retag_combo_legs
  retag_combo_legs-ids_of [] books = refl
  retag_combo_legs-ids_of (trade_id ∷ trade_ids) books =
      retag_combo_legs-ids_of trade_ids (retag_trade trade_id books)
      ∙ retag_trade-ids_of trade_id books
