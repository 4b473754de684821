-- ===== src/Settle/Reconcile.antt =====
-- `reconcile_orphaned_live_executions` of src/services/live_reconcile.py.
use ngv_trader.Prelude.{
  ℕ, suc, ◌+◌, Bool, true, false, not, Option, none, some, List, [], ◌∷◌, ◌++◌, map, Text, text_eq,
  filter, any, ◌==◌, FloatOps, if◌then◌else◌,
}
use ngv_trader.Settle.Rows.{LiveExecution, TradeExecution, Store}
use ngv_trader.Settle.Match.{match_leg_strip, match_book_event, match_bag_summary}
use ngv_trader.Settle.Links.{carry_over_link_to_execution, carry_over_link_to_executions}
pub mod Laws

pub record Counts : Type 0 where
  pub leg_strip : ℕ
  pub book_event : ℕ
  pub bag_summary : ℕ
  pub links_carried : ℕ
  pub unmatched : ℕ

abbrev pub no_counts : Counts
no_counts = record {
  leg_strip = 0;
  book_event = 0;
  bag_summary = 0;
  links_carried = 0;
  unmatched = 0;
}

pub record Pass (F : Type 0) : Type 0 where
  pub store : Store F
  pub counts : Counts
  pub deferred : List (LiveExecution F)

module _ {F : Type 0} where
  -- `session.delete(live)`
  unfoldable pub delete_live : LiveExecution F → Store F → Store F
  delete_live live store = record store { live = filter (λ l. not (l.id == live.id)) store.live }

  -- The row's link is carried to its settled twin, and the row is deleted.
  unfoldable pub hand_over : LiveExecution F → TradeExecution F → Pass F → Pass F
  unfolding delete_live
  hand_over live settled pass =
      let (carried, store) = carry_over_link_to_execution live.ib_exec_id settled.id pass.store in
      record pass {
        store = delete_live live store;
        counts = record (pass.counts) { links_carried = pass.counts.links_carried + carried };
      }

  abbrev count_leg_strip : Pass F → Pass F
  count_leg_strip pass = record pass {
    counts = record (pass.counts) { leg_strip = pass.counts.leg_strip + 1 };
  }

  abbrev count_book_event : Pass F → Pass F
  count_book_event pass = record pass {
    counts = record (pass.counts) { book_event = pass.counts.book_event + 1 };
  }

  abbrev defer : LiveExecution F → Pass F → Pass F
  defer live pass = record pass { deferred = pass.deferred ++ live ∷ [] }

  -- The body of the second loop: a summary whose combo has settled goes, the rest stays.
  unfoldable pub reconcile_deferred : LiveExecution F → Pass F → Pass F
  unfolding delete_live
  reconcile_deferred live pass = elim (match_bag_summary pass.store live) [
    | none ↦ record pass { counts = record (pass.counts) { unmatched = pass.counts.unmatched + 1 } }
    | some legs ↦
        let (carried, store) =
          carry_over_link_to_executions live.ib_exec_id (map (λ leg. leg.id) legs) pass.store in
        record pass {
          store = delete_live live store;
          counts = record (pass.counts) {
            links_carried = pass.counts.links_carried + carried;
            bag_summary = pass.counts.bag_summary + 1;
          };
        }
  ]

  unfoldable pub each_deferred : List (LiveExecution F) → Pass F → Pass F
  each_deferred [] pass = pass
  each_deferred (live ∷ rows) pass = each_deferred rows (reconcile_deferred live pass)

  -- The live rows whose id has not settled.
  unfoldable pub orphans : Store F → List (LiveExecution F)
  orphans store =
      filter (λ live. not (any (λ s. text_eq s.ib_exec_id live.ib_exec_id) store.settled))
        store.live

module _ {F : Type 0} ⦃fl : FloatOps F⦄ where
  -- The body of the first loop.
  unfoldable pub reconcile_orphan : (ℕ → ℕ) → LiveExecution F → Pass F → Pass F
  reconcile_orphan date_of live pass = elim (match_leg_strip pass.store live) [
    | some settled ↦ count_leg_strip (hand_over live settled pass)
    | none ↦ elim (match_book_event date_of pass.store live) [
      | some settled ↦ count_book_event (hand_over live settled pass)
      | none ↦ defer live pass
    ]
  ]

  unfoldable pub each_orphan : (ℕ → ℕ) → List (LiveExecution F) → Pass F → Pass F
  each_orphan date_of [] pass = pass
  each_orphan date_of (live ∷ rows) pass =
      each_orphan date_of rows (reconcile_orphan date_of live pass)

  unfoldable pub reconcile_orphaned_live_executions : (ℕ → ℕ) → Store F → Counts × Store F
  unfolding orphans
  reconcile_orphaned_live_executions date_of store =
      let first =
        each_orphan date_of (orphans store)
          (record { store = store; counts = no_counts; deferred = [] }) in
      let second = each_deferred first.deferred first in (second.counts, second.store)
