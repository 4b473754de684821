-- ===== src/Settle/Purge/Laws.antt =====
-- What a purge takes from the live fills and what it leaves.
use ngv_trader.Prelude.{
  ℕ, ◌+◌, ◌≡◌, refl, sym, ap, ◌∙◌, subst, inl, inr, Bool, Bool-cases, true, false, not, some,
  Option-cases, List, [], ◌∷◌, map, filter, length, All, Text, arith,
}
use ngv_trader.Settle.Rows.{LiveExecution, LiveLink, Store}
use ngv_trader.Settle.Links.{apply_carry, carry_over_link_to_execution, to_count}
use ngv_trader.Settle.Links.Laws.{
  Grows, Grows-none, Grows-trans, apply_carry-Grows, carry_over_link_to_execution-Grows,
  IsUniqueLinks,
}
use ngv_trader.Settle.Purge.{
  settled_id_of, carry_links, in_scope, carry_over_settled_group_links, settled_combo_summaries,
  has_settled, carry_summaries, purge_ids, is_purged, delete_purged, is_nil, purge_settled,
}
use ngv_trader.Settle.Purge.Listed.{
  is_superseded, IsListed, has_settled_summary, superseded-IsListed, ids-IsListed,
  summaries-IsListed, kept_rows, split_length,
}

is_nil-true : (ids : List Text) → is_nil ids ≡ true → ids ≡ []
is_nil-true [] h = refl
is_nil-true (id ∷ ids) h = cc

module _ {F : Type 0} where
  carry_links-Grows :
      (links : List (LiveLink F)) (s : Store F)
      → let (count, t) = carry_links links s in Grows count s t
  unfolding carry_links
  carry_links-Grows [] s = Grows-none s
  carry_links-Grows (link ∷ links) s =
      elim (Option-cases (settled_id_of link.ib_exec_id s.settled)) [
        | inl e ↦ rw (carry_links, e) (carry_links-Grows links s)
        | inr (id, e) ↦
            let first = apply_carry link id s in
            rw (carry_links, e)
              (Grows-trans (to_count first.0) (carry_links links first.1).0 s first.1
                (carry_links links first.1).1 (apply_carry-Grows link id s)
                (carry_links-Grows links first.1))
      ]

  -- What the purge keeps while it carries links.
  record IsCarried (s t : Store F) : Type 0 where
    unique : IsUniqueLinks s.group_links → IsUniqueLinks t.group_links
    same_live : t.live ≡ s.live
    same_settled : t.settled ≡ s.settled

  carry_summaries-IsCarried :
      (summaries : List (Text × ℕ)) (s : Store F) → IsCarried s (carry_summaries summaries s)
  unfolding carry_summaries
  carry_summaries-IsCarried [] s = record { unique = λ u. u; same_live = refl; same_settled = refl }
  carry_summaries-IsCarried ((id, target) ∷ summaries) s =
      let first = carry_over_link_to_execution-Grows id target s in
      let t = (carry_over_link_to_execution id target s).1 in
      let rest = carry_summaries-IsCarried summaries t in
      record {
        unique = λ u. rest.unique (first.unique u);
        same_live = rest.same_live ∙ first.same_live;
        same_settled = rest.same_settled ∙ first.same_settled;
      }

  -- The tables after a purge that reported `count`.
  pub record IsPurged (before : Store F) (count : ℕ) (after : Store F) : Type 0 where
    pub none_left : All (λ live. is_superseded before live ≡ false) after.live
    pub counted : count + length after.live ≡ length before.live
    pub same_settled : after.settled ≡ before.settled
    pub unique : IsUniqueLinks before.group_links → IsUniqueLinks after.group_links

  superseded_ids :
      (store : Store F) → All (IsListed (purge_ids store) (is_superseded store)) store.live
  superseded_ids store =
      superseded-IsListed _ _ (has_settled store) (has_settled_summary store.settled) store.live
        (ids-IsListed (has_settled store) store.live) (summaries-IsListed store.settled store.live)

  delete_purged-IsPurged :
      (before carried : Store F)
      → IsCarried before carried
      → IsPurged before
          (delete_purged (purge_ids before) carried).0
          (delete_purged (purge_ids before) carried).1
  unfolding delete_purged
  delete_purged-IsPurged before carried h =
      let ids = purge_ids before in
      record {
        none_left =
            subst
              (λ rows.
                All (λ l. is_superseded before l ≡ false)
                  (filter (λ l. not (is_purged ids l)) rows))
              (sym h.same_live)
              (kept_rows ids (is_superseded before) before.live (superseded_ids before));
        counted = split_length (is_purged ids) carried.live ∙ ap length h.same_live;
        same_settled = h.same_settled;
        unique = h.unique;
      }

  none_listed :
      (p : LiveExecution F → Bool) (rows : List (LiveExecution F))
      → All (IsListed [] p) rows
      → All (λ l. p l ≡ false) rows
  none_listed p [] h = tt
  none_listed p (l ∷ rows) h = elim (Bool-cases (p l)) [
    | inl e ↦ cc (h.0 e)
    | inr e ↦ (e, none_listed p rows h.1)
  ]

  -- After a purge no live fill is left that has settled under its own id, and no live spread summary
  -- of which a settled summary has the account and the instant. The answer counts the fills that
  -- went, the settled fills stay as they are, and a settled fill still has at most one group link if
  -- it had.
  pub purge_settled-IsPurged :
      (store : Store F) → let (count, after) = purge_settled store in IsPurged store count after
  unfolding purge_settled carry_over_settled_group_links
  purge_settled-IsPurged store = elim (Bool-cases (is_nil (purge_ids store))) [
    | inl e ↦
        let none_ids = is_nil-true (purge_ids store) e in
        rw (purge_settled, e)
          (record {
            none_left = none_listed (is_superseded store) store.live (
                subst (λ ids. All (IsListed ids (is_superseded store)) store.live) none_ids
                  (superseded_ids store));
            counted = omega arith;
            same_settled = refl;
            unique = λ u. u;
          })
    | inr e ↦
        let links =
          filter (in_scope (some (map (λ l. l.ib_exec_id) (filter (has_settled store) store.live))))
            store.live_links in
        let first = carry_links-Grows links store in
        let rest =
          carry_summaries-IsCarried (settled_combo_summaries store.live store.settled)
            (carry_links links store).1 in
        rw (purge_settled, e)
          (delete_purged-IsPurged store _ (record {
            unique = λ u. rest.unique (first.unique u);
            same_live = rest.same_live ∙ first.same_live;
            same_settled = rest.same_settled ∙ first.same_settled;
          }))
  ]
