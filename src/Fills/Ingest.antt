-- ===== src/Fills/Ingest.antt =====
-- The pipeline of src/services/fill_ingest.py: `_IngestRun` and `ingest_fills`. `trade_date` is the
-- date of an instant as the source formats it, `whole` is `int(a)` of a float that equals it,
-- sizes being finite.
use ngv_trader.Prelude.{
  ℕ, suc, ◌+◌, ◌-◌, Bool, true, false, Option, none, some, List, [], ◌∷◌, ◌++◌, Text, text, text_eq,
  lookup_text, any, ◌==◌, FloatOps, if◌then◌else◌,
}
use ngv_trader.Fills.Rows.{Books, ParentTrade, NormalizedFill, FillSource}
use ngv_trader.Fills.Canonical.{enforce_canonical_flags}
use ngv_trader.Fills.Aggregates.{recompute_trade_aggregates}
use ngv_trader.Fills.Parents.{
  ensure_account, resolve_combo_parent, resolve_parent_trade, backfill_contract_fields,
}
use ngv_trader.Fills.Writes.{count_of, upsert_execution, retag_combo_legs}
use ngv_trader.Fills.Combo.{synthesize_combo_summary}
pub mod Keeps
pub mod Combos
pub mod Parents
pub mod Written
pub mod Laws
pub mod Again

-- `IngestResult`; the touched trades in the order of their first touch.
pub record IngestResult : Type 0 where
  pub upserted : ℕ
  pub inserted : ℕ
  pub canonical_changes : ℕ
  pub combo_summaries : ℕ
  pub touched_trade_ids : List ℕ

-- `IngestResult.updated`, which never falls below 0.
unfoldable pub updated : IngestResult → ℕ
updated result = result.upserted - result.inserted

-- `_IngestRun`, with the tables in place of the session.
pub record IngestRun (F : Type 0) : Type 0 where
  pub books : Books F
  pub result : IngestResult
  pub accounts : List (Text × ℕ)
  pub combo_parents : List (Text × ParentTrade F)
  pub legs_by_combo : List (Text × List (NormalizedFill F))
  pub affected_bases : List (ℕ × Text)

abbrev no_result : IngestResult
no_result = record {
  upserted = 0;
  inserted = 0;
  canonical_changes = 0;
  combo_summaries = 0;
  touched_trade_ids = [];
}

-- `touched_trade_ids.add(trade_id)`
abbrev touched : ℕ → List ℕ → List ℕ
touched trade_id ids = if any (λ id. id == trade_id) ids then ids else ids ++ trade_id ∷ []

-- `legs_by_combo.setdefault(key, []).append(leg)`
unfoldable pub add_leg :
    {F : Type 0}
    → Text
    → NormalizedFill F
    → List (Text × List (NormalizedFill F))
    → List (Text × List (NormalizedFill F))
add_leg key leg [] = (key, leg ∷ []) ∷ []
add_leg key leg ((k, legs) ∷ combos) =
    let rest = add_leg key leg combos in
    if text_eq k key then (k, legs ++ leg ∷ []) ∷ combos else (k, legs) ∷ rest

module _ {F : Type 0} where
  abbrev pub start_run : Books F → IngestRun F
  start_run books = record {
    books = books;
    result = no_result;
    accounts = [];
    combo_parents = [];
    legs_by_combo = [];
    affected_bases = [];
  }

  -- `_IngestRun.account_id`
  unfoldable pub account_id_of : Text → IngestRun F → ℕ × IngestRun F
  unfolding ensure_account
  account_id_of account_code run = elim (lookup_text account_code run.accounts) [
    | some id ↦ (id, run)
    | none ↦
        let (id, books) = ensure_account account_code none run.books in
        (id, record run { books = books; accounts = run.accounts ++ (account_code, id) ∷ [] })
  ]

  -- `_IngestRun.record`
  unfoldable pub record_write : ℕ → ℕ → Text → Bool → IngestRun F → IngestRun F
  record_write trade_id account_id exec_id_base inserted run = record run {
    result = record run.result {
      upserted = run.result.upserted + 1;
      inserted = run.result.inserted + count_of inserted;
      touched_trade_ids = touched trade_id run.result.touched_trade_ids;
    };
    affected_bases = run.affected_bases ++ (account_id, exec_id_base) ∷ [];
  }

  module _ ⦃fl : FloatOps F⦄ where
    -- A fill whose key is given: a combo leg goes under its shared parent, another fill under its own.
    abbrev place_by_key :
        (ℕ → Text)
        → FillSource
        → ℕ
        → NormalizedFill F
        → ℕ
        → IngestRun F
        → Option Text
        → ℕ × IngestRun F
    unfolding resolve_combo_parent resolve_parent_trade backfill_contract_fields add_leg
    place_by_key trade_date source now fill account_id run (some key) =
        let (trade, cache, books) =
          resolve_combo_parent fill key account_id source now run.combo_parents run.books in
        (
          trade.id,
          record run {
            books = books;
            combo_parents = cache;
            legs_by_combo = add_leg key fill run.legs_by_combo;
          },
        )
    place_by_key trade_date source now fill account_id run none =
        let (trade, books) = resolve_parent_trade trade_date fill account_id source now run.books in
        (
          trade.id,
          record run {
            books = record books { trades = backfill_contract_fields trade.id fill books.trades };
          },
        )

    -- The parent's id, and the run.
    unfoldable pub place_fill :
        (ℕ → Text) → FillSource → ℕ → NormalizedFill F → ℕ → IngestRun F → ℕ × IngestRun F
    unfolding resolve_combo_parent resolve_parent_trade backfill_contract_fields add_leg
    place_fill trade_date source now fill account_id run =
        place_by_key trade_date source now fill account_id run fill.combo_key

    unfoldable pub write_fill :
        (ℕ → Text) → FillSource → ℕ → NormalizedFill F → IngestRun F → IngestRun F
    unfolding account_id_of place_fill upsert_execution record_write
    write_fill trade_date source now fill run =
        let (account_id, run) = account_id_of fill.account_code run in
        let (trade_id, run) = place_fill trade_date source now fill account_id run in
        let ((exec_id_base, inserted), books) =
          upsert_execution account_id trade_id fill source now run.books in
        record_write trade_id account_id exec_id_base inserted (record run { books = books })

    unfoldable pub write_fills :
        (ℕ → Text) → FillSource → ℕ → List (NormalizedFill F) → IngestRun F → IngestRun F
    unfolding write_fill
    write_fills trade_date source now [] run = run
    write_fills trade_date source now (fill ∷ fills) run =
        write_fills trade_date source now fills (write_fill trade_date source now fill run)

    unfoldable pub write_combo_summary :
        (F → Option ℕ)
        → FillSource
        → ℕ
        → Text
        → List (NormalizedFill F)
        → ParentTrade F
        → IngestRun F
        → IngestRun F
    unfolding synthesize_combo_summary record_write
    write_combo_summary whole source now key legs parent run =
        elim (synthesize_combo_summary whole parent key legs source now run.books) [
          | none ↦ run
          | some ((exec_id_base, inserted), books) ↦
              record_write parent.id parent.account_id exec_id_base inserted (record run {
                books = books;
                result = record run.result { combo_summaries = run.result.combo_summaries + 1 };
              })
        ]

    -- Every combo of the run has its parent in the cache.
    unfoldable pub write_combo_summaries :
        (F → Option ℕ)
        → FillSource
        → ℕ
        → List (Text × List (NormalizedFill F))
        → IngestRun F
        → IngestRun F
    unfolding write_combo_summary
    write_combo_summaries whole source now [] run = run
    write_combo_summaries whole source now ((key, legs) ∷ combos) run =
        write_combo_summaries whole source now combos (elim (lookup_text key run.combo_parents) [
          | none ↦ run
          | some parent ↦ write_combo_summary whole source now key legs parent run
        ])

  -- `_enforce_canonical_flags` for each of the bases: the changes, and the executions.
  unfoldable pub enforce_all : List (ℕ × Text) → ℕ → Books F → ℕ × Books F
  unfolding enforce_canonical_flags
  enforce_all [] changes books = (changes, books)
  enforce_all ((account_id, exec_id_base) ∷ bases) changes books =
      let (changed, rows) = enforce_canonical_flags account_id exec_id_base books.executions in
      enforce_all bases (changes + changed) (record books { executions = rows })

  module _ ⦃fl : FloatOps F⦄ where
    unfoldable pub recompute_all : ℕ → List ℕ → Books F → Books F
    unfolding recompute_trade_aggregates
    recompute_all now [] books = books
    recompute_all now (trade_id ∷ trade_ids) books = recompute_all now trade_ids (record books {
      trades = recompute_trade_aggregates now trade_id books.executions books.trades;
    })

    unfoldable pub finish : FillSource → ℕ → Bool → IngestRun F → IngestResult × Books F
    unfolding enforce_all retag_combo_legs recompute_all
    finish source now skip_aggregate_recompute run =
        let (changes, books) = enforce_all run.affected_bases 0 run.books in
        let result = record run.result { canonical_changes = changes } in
        let touched_ids = run.result.touched_trade_ids in
        let books =
          if source.retag_legs_after_ingest then retag_combo_legs touched_ids books else books in
        let books =
          if skip_aggregate_recompute then books else recompute_all now touched_ids books in
        (result, books)

    unfoldable pub ingest_fills :
        (ℕ → Text)
        → (F → Option ℕ)
        → List (NormalizedFill F)
        → FillSource
        → ℕ
        → Bool
        → Books F
        → IngestResult × Books F
    unfolding write_fills write_combo_summaries finish
    ingest_fills trade_date whole fills source now skip_aggregate_recompute books =
        let run = write_fills trade_date source now fills (start_run books) in
        finish source now skip_aggregate_recompute
          (write_combo_summaries whole source now run.legs_by_combo run)
