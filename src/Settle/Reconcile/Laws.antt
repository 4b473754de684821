-- ===== src/Settle/Reconcile/Laws.antt =====
-- The books of one reconciliation: every orphan is counted once, and no group link is lost.
use ngv_trader.Prelude.{
  ℕ, ◌+◌, ◌≡◌, refl, sym, subst, ap, ◌∙◌, inl, inr, not, List, [], ◌∷◌, map, arith, length,
  length-append, Among, Among-filter, ◌==◌, Option-cases, FloatOps,
}
use ngv_trader.Settle.Rows.{LiveExecution, TradeExecution, Store}
use ngv_trader.Settle.Match.{match_leg_strip, match_book_event, match_bag_summary}
use ngv_trader.Settle.Links.{carry_over_link_to_execution, carry_over_link_to_executions}
use ngv_trader.Settle.Links.Laws.{
  IsUniqueLinks, carry_over_link_to_execution-Grows, carry_over_link_to_executions-Grows,
}
use ngv_trader.Settle.Reconcile.{
  Counts, no_counts, Pass, delete_live, hand_over, reconcile_deferred, each_deferred, orphans,
  reconcile_orphan, each_orphan, reconcile_orphaned_live_executions,
}

abbrev pub purged : Counts → ℕ
purged c = c.leg_strip + c.book_event + c.bag_summary

module _ {F : Type 0} where
  -- What holds of a pass that began at `start`.
  pub record IsBalanced (start : Store F) (p : Pass F) : Type 0 where
    pub carried : length p.store.group_links ≡ length start.group_links + p.counts.links_carried
    pub unique : IsUniqueLinks start.group_links → IsUniqueLinks p.store.group_links
    pub same_settled : p.store.settled ≡ start.settled
    pub only_removed : (l : LiveExecution F) → Among l p.store.live → Among l start.live

  Among-deleted :
      (live l : LiveExecution F) (s t : Store F)
      → t.live ≡ s.live
      → Among l (delete_live live t).live
      → Among l s.live
  unfolding delete_live
  Among-deleted live l s t same m =
      rw same at (Among-filter (λ x. not (x.id == live.id)) l t.live m).0

  relabel :
      (start : Store F) (p q : Pass F)
      → IsBalanced start p
      → q.store ≡ p.store
      → q.counts.links_carried ≡ p.counts.links_carried
      → IsBalanced start q
  relabel start p q h es el = record {
    carried = omega (arith, h.carried, el, ap (λ (s : Store F). length s.group_links) es);
    unique = λ u. subst (λ (s : Store F). IsUniqueLinks s.group_links) (sym es) (h.unique u);
    same_settled = ap (λ (s : Store F). s.settled) es ∙ h.same_settled;
    only_removed = λ l m. h.only_removed l (subst (λ (s : Store F). Among l s.live) es m);
  }

  hand_over-IsBalanced :
      (start : Store F) (live : LiveExecution F) (settled : TradeExecution F) (p : Pass F)
      → IsBalanced start p
      → IsBalanced start (hand_over live settled p)
  unfolding hand_over
  hand_over-IsBalanced start live settled p h =
      let g = carry_over_link_to_execution-Grows live.ib_exec_id settled.id p.store in
      record {
        carried = omega (arith, g.added, h.carried);
        unique = λ u. g.unique (h.unique u);
        same_settled = g.same_settled ∙ h.same_settled;
        only_removed = λ l m. h.only_removed l (
            Among-deleted live l p.store
              (carry_over_link_to_execution live.ib_exec_id settled.id p.store).1 g.same_live m);
      }

  -- One row of the second loop is counted once, as a purged summary or as unmatched.
  reconcile_deferred-IsBalanced :
      (start : Store F) (live : LiveExecution F) (p : Pass F)
      → IsBalanced start p
      → let q = reconcile_deferred live p in
        IsBalanced start q
        × (purged q.counts + q.counts.unmatched ≡ purged p.counts + p.counts.unmatched + 1)
  unfolding reconcile_deferred
  reconcile_deferred-IsBalanced start live p h =
      elim (Option-cases (match_bag_summary p.store live)) [
        | inl stays ↦ rw (stays, reconcile_deferred) (relabel start p _ h refl refl, omega arith)
        | inr (legs, e) ↦
            let g =
              carry_over_link_to_executions-Grows live.ib_exec_id (map (λ leg. leg.id) legs)
                p.store in
            rw (e, reconcile_deferred)
              (
                record {
                  carried = omega (arith, g.added, h.carried);
                  unique = λ u. g.unique (h.unique u);
                  same_settled = g.same_settled ∙ h.same_settled;
                  only_removed = λ l m. h.only_removed l (
                      Among-deleted live l p.store
                        (carry_over_link_to_executions live.ib_exec_id (map (λ leg. leg.id) legs)
                          p.store).1
                        g.same_live m);
                },
                omega arith,
              )
      ]

  each_deferred-IsBalanced :
      (start : Store F) (rows : List (LiveExecution F)) (p : Pass F)
      → IsBalanced start p
      → let q = each_deferred rows p in
        IsBalanced start q
        × (purged q.counts + q.counts.unmatched
            ≡ purged p.counts + p.counts.unmatched + length rows)
  unfolding each_deferred
  each_deferred-IsBalanced start [] p h = (h, omega arith)
  each_deferred-IsBalanced start (live ∷ rows) p h =
      let (once, counted) = reconcile_deferred-IsBalanced start live p h in
      let (rest, counted') = each_deferred-IsBalanced start rows (reconcile_deferred live p) once in
      (rest, omega (arith, counted, counted'))

module _ {F : Type 0} ⦃fl : FloatOps F⦄ where
  -- One orphan is counted as purged, or deferred.
  reconcile_orphan-IsBalanced :
      (date_of : ℕ → ℕ) (start : Store F) (live : LiveExecution F) (p : Pass F)
      → IsBalanced start p
      → let q = reconcile_orphan date_of live p in
        IsBalanced start q
        × (purged q.counts + length q.deferred ≡ purged p.counts + length p.deferred + 1)
        × (q.counts.unmatched ≡ p.counts.unmatched)
  unfolding reconcile_orphan
  reconcile_orphan-IsBalanced date_of start live p h =
      elim (Option-cases (match_leg_strip p.store live)) [
        | inr (settled, e) ↦
            rw (e, reconcile_orphan)
              (
                relabel start (hand_over live settled p) _
                    (hand_over-IsBalanced start live settled p h) refl refl,
                unfold hand_over in omega arith,
                unfold hand_over in refl,
              )
        | inl no_leg ↦ elim (Option-cases (match_book_event date_of p.store live)) [
          | inr (settled, e) ↦
              rw (no_leg, e, reconcile_orphan)
                (
                  relabel start (hand_over live settled p) _
                      (hand_over-IsBalanced start live settled p h) refl refl,
                  unfold hand_over in omega arith,
                  unfold hand_over in refl,
                )
          | inl no_event ↦
              rw (no_leg, no_event, reconcile_orphan)
                (
                  relabel start p _ h refl refl,
                  omega (arith, length-append {0} p.deferred (live ∷ [])),
                  refl,
                )
        ]
      ]

  each_orphan-IsBalanced :
      (date_of : ℕ → ℕ) (start : Store F) (rows : List (LiveExecution F)) (p : Pass F)
      → IsBalanced start p
      → let q = each_orphan date_of rows p in
        IsBalanced start q
        × (purged q.counts + length q.deferred ≡ purged p.counts + length p.deferred + length rows)
        × (q.counts.unmatched ≡ p.counts.unmatched)
  unfolding each_orphan
  each_orphan-IsBalanced date_of start [] p h = (h, omega arith, refl)
  each_orphan-IsBalanced date_of start (live ∷ rows) p h =
      let (once, counted, same) = reconcile_orphan-IsBalanced date_of start live p h in
      let (rest, counted', same') =
        each_orphan-IsBalanced date_of start rows (reconcile_orphan date_of live p) once in
      (rest, omega (arith, counted, counted'), same' ∙ same)

  -- The outcome of a reconciliation of `store`: the counts and the new tables.
  pub record IsReconciled (store : Store F) (c : Counts) (after : Store F) : Type 0 where
    pub every_orphan_counted : purged c + c.unmatched ≡ length (orphans store)
    pub carried : length after.group_links ≡ length store.group_links + c.links_carried
    pub unique : IsUniqueLinks after.group_links
    pub same_settled : after.settled ≡ store.settled
    pub only_removed : (l : LiveExecution F) → Among l after.live → Among l store.live

  -- From a store in which no settled fill has two group links, a reconciliation counts each orphan
  -- exactly once, as a leg, a book event, a summary or
  -- unmatched; `links_carried` is the number of group links that it adds; still no settled fill has
  -- two group links; the settled fills are untouched, and live fills are only removed.
  pub reconcile_orphaned_live_executions-IsReconciled :
      (date_of : ℕ → ℕ) (store : Store F)
      → IsUniqueLinks store.group_links
      → let (c, after) = reconcile_orphaned_live_executions date_of store in
        IsReconciled store c after
  unfolding reconcile_orphaned_live_executions
  reconcile_orphaned_live_executions-IsReconciled date_of store unique_links =
      let begin : Pass F = record { store = store; counts = no_counts; deferred = [] } in
      let first = each_orphan date_of (orphans store) begin in
      let (h, counted, none_unmatched) =
        each_orphan-IsBalanced date_of store (orphans store) begin (record {
          carried = omega arith;
          unique = λ u. u;
          same_settled = refl;
          only_removed = λ l m. m;
        }) in
      let (k, counted') = each_deferred-IsBalanced store first.deferred first h in
      record {
        every_orphan_counted = omega (arith, counted, counted', none_unmatched);
        carried = k.carried;
        unique = k.unique unique_links;
        same_settled = k.same_settled;
        only_removed = k.only_removed;
      }
