-- ===== src/Fills/Ingest/Laws.antt =====
-- What an ingest leaves: which executions the table has, and what it reports.
use ngv_trader.Prelude.{
  ℕ, ◌+◌, ◌≡◌, refl, sym, ap, ◌∙◌, inl, inr, Bool, true, false, Option, List, [], ◌∷◌, ◌++◌, map,
  length, length-append, Text, Bool-cases, FloatOps, if◌then◌else◌, arith, subst,
}
use ngv_trader.Fills.Rows.{Books, Execution, NormalizedFill, FillSource}
use ngv_trader.Fills.Writes.{retag_combo_legs}
use ngv_trader.Fills.Writes.Laws.{ids_of, retag_combo_legs-ids_of}
use ngv_trader.Fills.Writes.Ids.{add_ids, AreDistinct, add_ids-AreDistinct}
use ngv_trader.Fills.Ingest.{
  IngestResult, IngestRun, start_run, write_fills, write_combo_summaries, enforce_all, finish,
  ingest_fills, updated,
}
use ngv_trader.Fills.Ingest.Combos.{summary_ids, summaries_of, combos_from, with_legs-combos_from}
use ngv_trader.Fills.Ingest.Parents.{write_fills-IsCollected}
use ngv_trader.Fills.Ingest.Keeps.{enforce_all-ids_of, recompute_all-executions}
use ngv_trader.Fills.Ingest.Written.{
  HasWritten, write_fills-HasWritten, write_combo_summaries-HasWritten,
}

module _ {F : Type 0} where
  pub length-ids_of : (rows : List (Execution F)) → length (ids_of rows) ≡ length rows
  length-ids_of [] = refl
  length-ids_of (row ∷ rows) = omega (arith, length-ids_of rows)

  module _ ⦃fl : FloatOps F⦄ where
    finish-ids_of :
        (source : FillSource) (now : ℕ) (skip : Bool) (run : IngestRun F)
        → ids_of (finish source now skip run).1.executions ≡ ids_of run.books.executions
    unfolding finish
    finish-ids_of source now skip run =
        let enforced = enforce_all run.affected_bases 0 run.books in
        let ids = run.result.touched_trade_ids in
        let first : ids_of enforced.1.executions ≡ ids_of run.books.executions =
          enforce_all-ids_of run.affected_bases 0 run.books in
        let retagged =
          if source.retag_legs_after_ingest then retag_combo_legs ids enforced.1 else enforced.1 in
        let second : ids_of retagged.executions ≡ ids_of enforced.1.executions =
          if_keeps source.retag_legs_after_ingest enforced.1 (retag_combo_legs ids enforced.1)
            (retag_combo_legs-ids_of ids enforced.1) in
        elim (Bool-cases skip) [
          | inl e ↦ rw (finish, e) (second ∙ first)
          | inr e ↦
              rw (finish, e)
                (ap ids_of (recompute_all-executions now ids retagged) ∙ (second ∙ first))
        ]
      where
        if_keeps :
            (b : Bool) (books after : Books F)
            → ids_of after.executions ≡ ids_of books.executions
            → ids_of (if b then after else books).executions ≡ ids_of books.executions
        if_keeps true books after h = h
        if_keeps false books after h = refl

    abbrev pub exec_ids : List (NormalizedFill F) → List Text
    exec_ids fills = map (λ fill. fill.ib_exec_id) fills

    -- The tables after an ingest of the fills, and its report. The summaries are those of the batch's
    -- combos of two legs and more, in the order of their first legs.
    pub record IsIngested (fills : List (NormalizedFill F)) (before : Books F)
        (result : IngestResult) (after : Books F) : Type 0 where
      pub ids_after :
          ids_of after.executions
          ≡ add_ids (exec_ids fills ++ summaries_of fills) (ids_of before.executions)
      pub combos : result.combo_summaries ≡ length (summaries_of fills)
      pub upserted : result.upserted ≡ length fills + length (summaries_of fills)
      pub grows : length after.executions ≡ length before.executions + result.inserted
      pub balanced : result.inserted + updated result ≡ result.upserted

    finish-IsIngested :
        (fills : List (NormalizedFill F)) (before : Books F) (source : FillSource) (now : ℕ)
        (skip : Bool) (run : IngestRun F)
        → HasWritten before.executions
            (exec_ids fills ++ summaries_of fills)
            (0 + length (summaries_of fills))
            run
        → IsIngested fills before (finish source now skip run).0 (finish source now skip run).1
    unfolding finish updated
    finish-IsIngested fills before source now skip run h =
        let after = (finish source now skip run).1.executions in
        let same : ids_of after ≡ ids_of run.books.executions = finish-ids_of source now skip run in
        let long : length after ≡ length run.books.executions =
          sym (length-ids_of after) ∙ (ap length same ∙ length-ids_of run.books.executions) in
        record {
          ids_after = same ∙ h.ids_after;
          combos = omega (arith, h.combos);
          upserted = omega (
            arith,
            h.upserted,
            length-append (exec_ids fills) (summaries_of fills),
            length-exec_ids fills,
          );
          grows = long ∙ h.grows;
          balanced = omega (arith, h.inserted_le);
        }
      where
        length-exec_ids : (fs : List (NormalizedFill F)) → length (exec_ids fs) ≡ length fs
        length-exec_ids [] = refl
        length-exec_ids (f ∷ fs) = omega (arith, length-exec_ids fs)

    start_run-HasWritten : (books : Books F) → HasWritten books.executions [] 0 (start_run books)
    unfolding add_ids
    start_run-HasWritten books = record {
      ids_after = refl;
      upserted = refl;
      grows = omega arith;
      inserted_le = omega arith;
      combos = refl;
    }

    pub write_fills_counts :
        (trade_date : ℕ → Text) (source : FillSource) (now : ℕ) (fills : List (NormalizedFill F))
        (books : Books F)
        → (write_fills trade_date source now fills (start_run books)).result.combo_summaries ≡ 0
    write_fills_counts trade_date source now fills books =
        let written =
          write_fills-HasWritten trade_date source now fills books.executions [] 0 (start_run books)
            (start_run-HasWritten books) in
        written.combos

    -- An ingest leaves exactly the executions that were there and, once each, those of the fills and
    -- a summary of every combo with two legs or more in the batch, under the id that the combo's key
    -- and its legs' ids give; it counts every fill and summary as upserted, as inserted exactly the
    -- rows by which the table has grown, and as updated the others.
    pub ingest_fills-IsIngested :
        (trade_date : ℕ → Text) (whole : F → Option ℕ) (fills : List (NormalizedFill F))
        (source : FillSource) (now : ℕ) (skip : Bool) (books : Books F)
        → let (result, after) = ingest_fills trade_date whole fills source now skip books in
          IsIngested fills books result after
    unfolding ingest_fills
    ingest_fills-IsIngested trade_date whole fills source now skip books =
        let run = write_fills trade_date source now fills (start_run books) in
        let written =
          write_fills-HasWritten trade_date source now fills books.executions [] 0 (start_run books)
            (start_run-HasWritten books) in
        let (collected, parents) =
          write_fills-IsCollected trade_date source now fills [] (start_run books) (refl, tt) in
        let combos : run.legs_by_combo ≡ combos_from [] fills =
          collected ∙ with_legs-combos_from fills [] tt in
        let after = write_combo_summaries whole source now run.legs_by_combo run in
        let h =
          write_combo_summaries-HasWritten whole source now run.legs_by_combo books.executions
            (exec_ids fills) 0 run parents written in
        finish-IsIngested fills books source now skip after (
          subst
            (λ cs.
              HasWritten books.executions (exec_ids fills ++ summary_ids cs)
                (0 + length (summary_ids cs)) after)
            combos h)

    -- If no execution id stood twice in the table, none does after an ingest.
    pub ingest_fills-AreDistinct :
        (trade_date : ℕ → Text) (whole : F → Option ℕ) (fills : List (NormalizedFill F))
        (source : FillSource) (now : ℕ) (skip : Bool) (books : Books F)
        → AreDistinct (ids_of books.executions)
        → AreDistinct
            (ids_of (ingest_fills trade_date whole fills source now skip books).1.executions)
    ingest_fills-AreDistinct trade_date whole fills source now skip books d =
        let done = ingest_fills-IsIngested trade_date whole fills source now skip books in
        subst AreDistinct (sym done.ids_after)
          (add_ids-AreDistinct (exec_ids fills ++ summaries_of fills) (ids_of books.executions) d)
