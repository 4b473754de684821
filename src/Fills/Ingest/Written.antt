-- ===== src/Fills/Ingest/Written.antt =====
-- The execution ids and the counts of a run, write by write.
use ngv_trader.Prelude.{
  ℕ, ◌+◌, ◌≡◌, ◌≤◌, refl, sym, ap, ◌∙◌, Option, List, [], ◌∷◌, ◌++◌, map, length, length-append,
  Text, FloatOps, arith, subst,
}
use ngv_trader.Fills.Rows.{Execution, ParentTrade, NormalizedFill, FillSource}
use ngv_trader.Fills.Writes.{upsert, write_row, upsert_execution, execution_of, overwritten}
use ngv_trader.Fills.Writes.Laws.{count_of_le, ids_of, KeepsId, upsert-ids_of, length-upsert}
use ngv_trader.Fills.Writes.Ids.{add_id, add_ids, add_ids-append}
use ngv_trader.Fills.Combo.{synthesize_combo_summary, summary_of, resummarized}
use ngv_trader.Fills.Ingest.{
  IngestRun, account_id_of, record_write, place_fill, write_fill, write_fills, write_combo_summary,
  write_combo_summaries,
}
use mathlib.Core.List.{append-nil, append_assoc}
use ngv_trader.Fills.Ingest.Combos.{summary_id, summary_ids}
use ngv_trader.Fills.Ingest.Parents.{HaveParents}
use ngv_trader.Fills.Ingest.Keeps.{Keeps, account_id_of-Keeps, place_fill-Keeps}

module _ {F : Type 0} where
  module _ ⦃fl : FloatOps F⦄ where
    -- The run after the writes of rows with the given ids, of which some were summaries.
    pub record HasWritten (before : List (Execution F)) (ids : List Text) (summaries : ℕ)
        (run : IngestRun F) : Type 0 where
      pub ids_after : ids_of run.books.executions ≡ add_ids ids (ids_of before)
      pub upserted : run.result.upserted ≡ length ids
      pub grows : length run.books.executions ≡ length before + run.result.inserted
      pub inserted_le : run.result.inserted ≤ run.result.upserted
      pub combos : run.result.combo_summaries ≡ summaries

    HasWritten-Keeps :
        (before : List (Execution F)) (ids : List Text) (n : ℕ) (run after : IngestRun F)
        → Keeps run after
        → HasWritten before ids n run
        → HasWritten before ids n after
    HasWritten-Keeps before ids n run after keep h = record {
      ids_after = ap ids_of keep.0 ∙ h.ids_after;
      upserted = ap (λ r. r.upserted) keep.1 ∙ h.upserted;
      grows = ap length keep.0 ∙ (h.grows ∙ ap (λ r. length before + r.inserted) (sym keep.1));
      inserted_le = subst (λ r. r.inserted ≤ r.upserted) (sym keep.1) h.inserted_le;
      combos = ap (λ r. r.combo_summaries) keep.1 ∙ h.combos;
    }

    -- One more row is written and recorded.
    HasWritten-write_row :
        (before : List (Execution F)) (ids : List Text) (n : ℕ) (run : IngestRun F)
        (row : Execution F) (update : Execution F → Execution F) (trade_id account_id : ℕ)
        (base : Text)
        → KeepsId update
        → HasWritten before ids n run
        → HasWritten before (ids ++ row.ib_exec_id ∷ []) n (
            record_write trade_id account_id base
              (write_row row update run.books).0
              (record run { books = (write_row row update run.books).1 }))
    unfolding record_write write_row add_ids
    HasWritten-write_row before ids n run row update trade_id account_id base keeps h =
        let written = upsert-ids_of row update keeps run.books.executions in
        let longer = length-upsert row update run.books.executions in
        record {
          ids_after =
              written
              ∙ (ap (add_id row.ib_exec_id) h.ids_after
                  ∙ sym (add_ids-append ids (row.ib_exec_id ∷ []) (ids_of before)));
          upserted = omega (arith, h.upserted, length-append ids (row.ib_exec_id ∷ []));
          grows = omega (arith, longer, h.grows);
          inserted_le =
              omega (arith, h.inserted_le, count_of_le (upsert row update run.books.executions).0);
          combos = h.combos;
        }

    write_fill-HasWritten :
        (trade_date : ℕ → Text) (source : FillSource) (now : ℕ) (fill : NormalizedFill F)
        (before : List (Execution F)) (ids : List Text) (n : ℕ) (run : IngestRun F)
        → HasWritten before ids n run
        → HasWritten before
            (ids ++ fill.ib_exec_id ∷ [])
            n
            (write_fill trade_date source now fill run)
    unfolding write_fill upsert_execution execution_of overwritten
    write_fill-HasWritten trade_date source now fill before ids n run h =
        let (account_id, run1) = account_id_of fill.account_code run in
        let (trade_id, run2) = place_fill trade_date source now fill account_id run1 in
        let h1 =
          HasWritten-Keeps before ids n run run1 (account_id_of-Keeps fill.account_code run) h in
        let h2 =
          HasWritten-Keeps before ids n run1 run2
            (place_fill-Keeps trade_date source now fill account_id run1) h1 in
        let row = execution_of run2.books.next_execution_id account_id trade_id fill source now in
        HasWritten-write_row before ids n run2 row (overwritten trade_id fill source now) trade_id
          account_id row.exec_id_base (λ r. refl) h2

    pub write_fills-HasWritten :
        (trade_date : ℕ → Text) (source : FillSource) (now : ℕ) (fills : List (NormalizedFill F))
        (before : List (Execution F)) (ids : List Text) (n : ℕ) (run : IngestRun F)
        → HasWritten before ids n run
        → HasWritten before
            (ids ++ map (λ fill. fill.ib_exec_id) fills)
            n
            (write_fills trade_date source now fills run)
    unfolding write_fills
    write_fills-HasWritten trade_date source now [] before ids n run h =
        subst (λ new. HasWritten before new n run) (sym (append-nil ids)) h
    write_fills-HasWritten trade_date source now (fill ∷ fills) before ids n run h =
        let after =
          write_fills trade_date source now fills (write_fill trade_date source now fill run) in
        subst (λ new. HasWritten before new n after)
          (append_assoc ids (fill.ib_exec_id ∷ []) (map (λ f. f.ib_exec_id) fills))
          (write_fills-HasWritten trade_date source now fills before (ids ++ fill.ib_exec_id ∷ []) n
            (write_fill trade_date source now fill run)
            (write_fill-HasWritten trade_date source now fill before ids n run h))

    HasWritten-summary :
        (before : List (Execution F)) (ids : List Text) (n : ℕ) (run : IngestRun F)
        → HasWritten before ids n run
        → HasWritten before ids (n + 1) (record run {
          result = record run.result { combo_summaries = run.result.combo_summaries + 1 };
        })
    HasWritten-summary before ids n run h = record {
      ids_after = h.ids_after;
      upserted = h.upserted;
      grows = h.grows;
      inserted_le = h.inserted_le;
      combos = ap (λ k. k + 1) h.combos;
    }

    write_combo_summary-HasWritten :
        (whole : F → Option ℕ) (source : FillSource) (now : ℕ) (key : Text)
        (legs : List (NormalizedFill F)) (parent : ParentTrade F) (before : List (Execution F))
        (ids : List Text) (n : ℕ) (run : IngestRun F)
        → HasWritten before ids n run
        → HasWritten before
            (ids ++ summary_id key legs)
            (n + length (summary_id key legs))
            (write_combo_summary whole source now key legs parent run)
    unfolding write_combo_summary synthesize_combo_summary summary_of resummarized
    write_combo_summary-HasWritten whole source now key [] parent before ids n run h =
        let same : n + 0 ≡ n = omega arith in rw (append-nil ids, same) h
    write_combo_summary-HasWritten whole source now key (leg ∷ []) parent before ids n run h =
        let same : n + 0 ≡ n = omega arith in rw (append-nil ids, same) h
    write_combo_summary-HasWritten whole source now key (leg ∷ next ∷ legs) parent before ids n run
          h =
        let row =
          summary_of whole run.books.next_execution_id parent key leg (next ∷ legs) source now in
        let counted = record run {
          result = record run.result { combo_summaries = run.result.combo_summaries + 1 };
        } in
        HasWritten-write_row before ids (n + 1) counted row (resummarized row) parent.id
          parent.account_id row.exec_id_base (λ r. refl) (HasWritten-summary before ids n run h)

    write_combo_summary-parents :
        (whole : F → Option ℕ) (source : FillSource) (now : ℕ) (key : Text)
        (legs : List (NormalizedFill F)) (parent : ParentTrade F) (run : IngestRun F)
        → (write_combo_summary whole source now key legs parent run).combo_parents
          ≡ run.combo_parents
    unfolding write_combo_summary synthesize_combo_summary record_write
    write_combo_summary-parents whole source now key [] parent run = refl
    write_combo_summary-parents whole source now key (leg ∷ []) parent run = refl
    write_combo_summary-parents whole source now key (leg ∷ next ∷ legs) parent run = refl

    -- Each combo with a parent gets its summary.
    pub write_combo_summaries-HasWritten :
        (whole : F → Option ℕ) (source : FillSource) (now : ℕ)
        (combos : List (Text × List (NormalizedFill F))) (before : List (Execution F))
        (ids : List Text) (n : ℕ) (run : IngestRun F)
        → HaveParents run.combo_parents combos
        → HasWritten before ids n run
        → HasWritten before
            (ids ++ summary_ids combos)
            (n + length (summary_ids combos))
            (write_combo_summaries whole source now combos run)
    unfolding write_combo_summaries
    write_combo_summaries-HasWritten whole source now [] before ids n run parents h =
        let same : n + 0 ≡ n = omega arith in rw (append-nil ids, same) h
    write_combo_summaries-HasWritten whole source now ((key, legs) ∷ combos) before ids n run
          parents h =
        let (parent, e) = parents.0 in
        let next = write_combo_summary whole source now key legs parent run in
        let one = summary_id key legs in
        let rest = summary_ids combos in
        let first =
          write_combo_summary-HasWritten whole source now key legs parent before ids n run h in
        let all =
          write_combo_summaries-HasWritten whole source now combos before (ids ++ one)
            (n + length one) next
            (subst (λ cache. HaveParents cache combos)
              (sym (write_combo_summary-parents whole source now key legs parent run)) parents.1)
            first in
        let same : n + length (one ++ rest) ≡ n + length one + length rest =
          omega (arith, length-append one rest) in
        rw (write_combo_summaries, e, sym (append_assoc ids one rest), same) all
