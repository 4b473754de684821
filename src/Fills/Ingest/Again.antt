-- ===== src/Fills/Ingest/Again.antt =====
-- Ingesting the same fills twice.
use ngv_trader.Prelude.{
  Bool, ℕ, ◌≡◌, refl, sym, ap, ◌∙◌, inl, inr, Option, none, Option-cases, List, [], ◌∷◌, ◌++◌,
  length, Text, lookup_text, All, FloatOps, arith, subst,
}
use mathlib.Core.List.{append-nil}
use ngv_trader.Fills.Rows.{Books, NormalizedFill, FillSource}
use ngv_trader.Fills.Parents.{ensure_account}
use ngv_trader.Fills.Writes.Laws.{ids_of}
use ngv_trader.Fills.Writes.Ids.{add_ids, add_ids_twice}
use ngv_trader.Fills.Ingest.{
  IngestRun, finish, start_run, account_id_of, place_fill, write_fill, write_fills,
  write_combo_summaries, ingest_fills, updated,
}
use ngv_trader.Fills.Ingest.Combos.{summaries_of}
use ngv_trader.Fills.Ingest.Laws.{
  ingest_fills-IsIngested, exec_ids, length-ids_of, write_fills_counts,
}

no_texts : (ts : List Text) → length ts ≡ 0 → ts ≡ []
no_texts [] h = refl
no_texts (t ∷ ts) h = absurd (omega arith)

module _ {F : Type 0} where
  account_id_of-legs :
      (code : Text) (run : IngestRun F)
      → (account_id_of code run).1.legs_by_combo ≡ run.legs_by_combo
  unfolding account_id_of ensure_account
  account_id_of-legs code run = elim (Option-cases (lookup_text code run.accounts)) [
    | inr (id, e) ↦ rw (account_id_of, e) refl
    | inl e ↦ rw (account_id_of, e) refl
  ]

  module _ ⦃fl : FloatOps F⦄ where
    abbrev pub IsPlain : NormalizedFill F → Type 0
    IsPlain fill = fill.combo_key ≡ none

    write_fill-legs :
        (trade_date : ℕ → Text) (source : FillSource) (now : ℕ) (fill : NormalizedFill F)
        (run : IngestRun F)
        → IsPlain fill
        → (write_fill trade_date source now fill run).legs_by_combo ≡ run.legs_by_combo
    unfolding write_fill place_fill
    write_fill-legs trade_date source now fill run plain =
        rw (write_fill, place_fill, plain) (account_id_of-legs fill.account_code run)

    write_fills-legs :
        (trade_date : ℕ → Text) (source : FillSource) (now : ℕ) (fills : List (NormalizedFill F))
        (run : IngestRun F)
        → All IsPlain fills
        → (write_fills trade_date source now fills run).legs_by_combo ≡ run.legs_by_combo
    unfolding write_fills
    write_fills-legs trade_date source now [] run plain = refl
    write_fills-legs trade_date source now (fill ∷ fills) run plain =
        write_fills-legs trade_date source now fills (write_fill trade_date source now fill run)
          plain.1
        ∙ write_fill-legs trade_date source now fill run plain.0

    ingest_fills_no_combos :
        (trade_date : ℕ → Text) (whole : F → Option ℕ) (fills : List (NormalizedFill F))
        (source : FillSource) (now : ℕ) (skip : Bool) (books : Books F)
        → All IsPlain fills
        → (ingest_fills trade_date whole fills source now skip books).0.combo_summaries ≡ 0
    unfolding ingest_fills write_combo_summaries finish
    ingest_fills_no_combos trade_date whole fills source now skip books plain =
        let run = write_fills trade_date source now fills (start_run books) in
        let no_legs : run.legs_by_combo ≡ [] =
          write_fills-legs trade_date source now fills (start_run books) plain in
        subst (λ legs. (write_combo_summaries whole source now legs run).result.combo_summaries ≡ 0)
          (sym no_legs) (write_fills_counts trade_date source now fills books)

    ids_after_plain :
        (trade_date : ℕ → Text) (whole : F → Option ℕ) (fills : List (NormalizedFill F))
        (source : FillSource) (now : ℕ) (skip : Bool) (books : Books F)
        → All IsPlain fills
        → ids_of (ingest_fills trade_date whole fills source now skip books).1.executions
          ≡ add_ids (exec_ids fills) (ids_of books.executions)
    ids_after_plain trade_date whole fills source now skip books plain =
        let done = ingest_fills-IsIngested trade_date whole fills source now skip books in
        let alone : summaries_of fills ≡ [] = no_texts (summaries_of fills) (
          sym done.combos
          ∙ ingest_fills_no_combos trade_date whole fills source now skip books plain) in
        done.ids_after
        ∙ ap (λ ids. add_ids ids (ids_of books.executions))
            (ap (λ more. exec_ids fills ++ more) alone ∙ append-nil (exec_ids fills))

    -- Fills without a combo that are ingested a second time, at any later time, add no execution:
    -- the second run inserts none and reports every fill as updated.
    pub ingest_fills_again :
        (trade_date : ℕ → Text) (whole : F → Option ℕ) (fills : List (NormalizedFill F))
        (source : FillSource) (now later : ℕ) (skip : Bool) (books : Books F)
        → All IsPlain fills
        → let once = (ingest_fills trade_date whole fills source now skip books).1 in
          let (again, twice) = ingest_fills trade_date whole fills source later skip once in
          (again.inserted ≡ 0)
          × (updated again ≡ length fills)
          × (ids_of twice.executions ≡ ids_of once.executions)
    ingest_fills_again trade_date whole fills source now later skip books plain =
        let once = (ingest_fills trade_date whole fills source now skip books).1 in
        let result = ingest_fills trade_date whole fills source later skip once in
        let same : ids_of result.1.executions ≡ ids_of once.executions =
          ids_after_plain trade_date whole fills source later skip once plain
          ∙ (ap (add_ids (exec_ids fills))
                (ids_after_plain trade_date whole fills source now skip books plain)
              ∙ (add_ids_twice (exec_ids fills) (ids_of books.executions)
                  ∙ sym (ids_after_plain trade_date whole fills source now skip books plain))) in
        let long : length result.1.executions ≡ length once.executions =
          sym (length-ids_of result.1.executions)
          ∙ (ap length same ∙ length-ids_of once.executions) in
        let done = ingest_fills-IsIngested trade_date whole fills source later skip once in
        let none_new : result.0.inserted ≡ 0 = omega (arith, long, done.grows) in
        let no_combo = ingest_fills_no_combos trade_date whole fills source later skip once plain in
        (
          none_new,
          omega (arith, none_new, done.balanced, done.upserted, done.combos, no_combo),
          same,
        )
