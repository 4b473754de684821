-- ===== src/Fills/Ingest/Keeps.antt =====
-- The steps of an ingest that write no execution, and those that keep the ids of all.
use ngv_trader.Prelude.{
  filter, find?, ℕ, ◌+◌, ◌≡◌, refl, ap, ◌∙◌, inl, inr, List, [], ◌∷◌, Text, Bool-cases,
  Option-cases, lookup_text, FloatOps,
}
use ngv_trader.Fills.Rows.{Books, Execution, ParentTrade, NormalizedFill, FillSource}
use ngv_trader.Fills.Canonical.{enforce_canonical_flags, flag_rows, highest_revision, is_of_base}
use ngv_trader.Fills.Writes.Laws.{ids_of}
use ngv_trader.Fills.Parents.{
  ensure_account, has_code, summary_parent, match_parent_trade, resolve_combo_parent,
  resolve_parent_trade,
}
use ngv_trader.Fills.Ingest.{IngestRun, account_id_of, place_fill, enforce_all, recompute_all}

module _ {F : Type 0} where
  flag_rows-ids_of :
      (account_id : ℕ) (base : Text) (best_id : ℕ) (rows : List (Execution F))
      → ids_of (flag_rows account_id base best_id rows) ≡ ids_of rows
  unfolding flag_rows
  flag_rows-ids_of account_id base best_id [] = refl
  flag_rows-ids_of account_id base best_id (row ∷ rows) =
      elim (Bool-cases (is_of_base account_id base row)) [
        | inl e ↦
            rw e (ap (λ ids. row.ib_exec_id ∷ ids) (flag_rows-ids_of account_id base best_id rows))
        | inr e ↦
            rw e (ap (λ ids. row.ib_exec_id ∷ ids) (flag_rows-ids_of account_id base best_id rows))
      ]

  enforce_canonical_flags-ids_of :
      (account_id : ℕ) (base : Text) (rows : List (Execution F))
      → ids_of (enforce_canonical_flags account_id base rows).1 ≡ ids_of rows
  unfolding enforce_canonical_flags
  enforce_canonical_flags-ids_of account_id base rows =
      elim (Option-cases (highest_revision (filter (is_of_base account_id base) rows))) [
        | inl e ↦ rw (enforce_canonical_flags, e) refl
        | inr (best, e) ↦
            rw (enforce_canonical_flags, e) (flag_rows-ids_of account_id base best.id rows)
      ]

  pub enforce_all-ids_of :
      (bases : List (ℕ × Text)) (changes : ℕ) (books : Books F)
      → ids_of (enforce_all bases changes books).1.executions ≡ ids_of books.executions
  unfolding enforce_all
  enforce_all-ids_of [] changes books = refl
  enforce_all-ids_of ((account_id, base) ∷ bases) changes books =
      let enforced = enforce_canonical_flags account_id base books.executions in
      enforce_all-ids_of bases (changes + enforced.0) (record books { executions = enforced.1 })
      ∙ enforce_canonical_flags-ids_of account_id base books.executions

  pub recompute_all-executions :
      ⦃fl : FloatOps F⦄ (now : ℕ) (trade_ids : List ℕ) (books : Books F)
      → (recompute_all now trade_ids books).executions ≡ books.executions
  unfolding recompute_all
  recompute_all-executions now [] books = refl
  recompute_all-executions now (trade_id ∷ trade_ids) books =
      recompute_all-executions now trade_ids _

  -- What a step that writes no execution keeps.
  abbrev pub Keeps : IngestRun F → IngestRun F → Type 0
  Keeps run after = (after.books.executions ≡ run.books.executions) × (after.result ≡ run.result)

  pub account_id_of-Keeps : (code : Text) (run : IngestRun F) → Keeps run (account_id_of code run).1
  unfolding account_id_of ensure_account
  account_id_of-Keeps code run = elim (Option-cases (lookup_text code run.accounts)) [
    | inr (id, e) ↦ rw (account_id_of, e) (refl, refl)
    | inl e ↦ elim (Option-cases (find? (has_code code) run.books.accounts)) [
      | inl none_yet ↦ rw (account_id_of, e, ensure_account, none_yet) (refl, refl)
      | inr (a, found) ↦ rw (account_id_of, e, ensure_account, found) (refl, refl)
    ]
  ]

  module _ ⦃fl : FloatOps F⦄ where
    resolve_combo_parent-executions :
        (fill : NormalizedFill F) (key : Text) (account_id : ℕ) (source : FillSource) (now : ℕ)
        (cache : List (Text × ParentTrade F)) (books : Books F)
        → (resolve_combo_parent fill key account_id source now cache books).2.executions
          ≡ books.executions
    unfolding resolve_combo_parent
    resolve_combo_parent-executions fill key account_id source now cache books =
        elim (Option-cases (lookup_text key cache)) [
          | inr (t, e) ↦ rw (resolve_combo_parent, e) refl
          | inl e ↦ elim (Option-cases (summary_parent account_id key books)) [
            | inr (t, g) ↦ rw (resolve_combo_parent, e, g) refl
            | inl g ↦ rw (resolve_combo_parent, e, g) refl
          ]
        ]

    resolve_parent_trade-executions :
        (trade_date : ℕ → Text) (fill : NormalizedFill F) (account_id : ℕ) (source : FillSource)
        (now : ℕ) (books : Books F)
        → (resolve_parent_trade trade_date fill account_id source now books).1.executions
          ≡ books.executions
    unfolding resolve_parent_trade
    resolve_parent_trade-executions trade_date fill account_id source now books =
        elim (Option-cases (match_parent_trade trade_date fill account_id source books.trades)) [
          | inr (t, e) ↦ rw (resolve_parent_trade, e) refl
          | inl e ↦ rw (resolve_parent_trade, e) refl
        ]

    pub place_fill-Keeps :
        (trade_date : ℕ → Text) (source : FillSource) (now : ℕ) (fill : NormalizedFill F)
        (account_id : ℕ) (run : IngestRun F)
        → Keeps run (place_fill trade_date source now fill account_id run).1
    unfolding place_fill
    place_fill-Keeps trade_date source now fill account_id run =
        elim (Option-cases fill.combo_key) [
          | inr (key, e) ↦
              rw (place_fill, e)
                (
                  resolve_combo_parent-executions fill key account_id source now run.combo_parents
                      run.books,
                  refl,
                )
          | inl e ↦
              rw (place_fill, e)
                (
                  resolve_parent_trade-executions trade_date fill account_id source now run.books,
                  refl,
                )
        ]
