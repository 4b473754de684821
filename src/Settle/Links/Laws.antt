-- ===== src/Settle/Links/Laws.antt =====
-- A carry keeps one group link to an execution, and its count is the number of new group links.
use ngv_trader.Prelude.{
  ℕ, ◌+◌, ◌≡◌, refl, ◌∙◌, inl, inr, Bool, true, false, ◌||◌, List, [], ◌∷◌, ◌++◌, arith, length,
  length-append, any, Text, ◌==◌, Bool-cases, Option-cases,
}
use ngv_trader.Settle.Rows.{LiveLink, GroupLink, Store}
use ngv_trader.Settle.Links.{
  insert_group_execution, delete_live_link, apply_carry, carry_over_link_to_execution, insert_all,
  carry_over_link_to_executions, to_count, distinct_from, link_of, group_link_of, carry_to_all,
}

module _ {F : Type 0} where
  -- Some group holds the execution.
  abbrev pub is_held : ℕ → List (GroupLink F) → Bool
  is_held trade_execution_id = any (λ g. g.trade_execution_id == trade_execution_id)

  -- The unique constraint on `trade_execution_id`.
  abbrev pub IsUniqueLinks : List (GroupLink F) → Type 0
  IsUniqueLinks [] = Unit
  IsUniqueLinks (g ∷ gs) = (is_held g.trade_execution_id gs ≡ false) × IsUniqueLinks gs

  is_held-append_one :
      (n : ℕ) (gs : List (GroupLink F)) (g : GroupLink F)
      → is_held n (gs ++ g ∷ []) ≡ (is_held n gs || (g.trade_execution_id == n))
  is_held-append_one n [] g = ground arith
  is_held-append_one n (h ∷ gs) g = ground (arith, is_held-append_one n gs g)

  IsUniqueLinks-append_one :
      (gs : List (GroupLink F)) (g : GroupLink F)
      → is_held g.trade_execution_id gs ≡ false
      → IsUniqueLinks gs
      → IsUniqueLinks (gs ++ g ∷ [])
  IsUniqueLinks-append_one [] g h u = (refl, tt)
  IsUniqueLinks-append_one (k ∷ gs) g h u = (
    ground (arith, is_held-append_one k.trade_execution_id gs g),
    IsUniqueLinks-append_one gs g (ground arith) u.1,
  )

  -- From one store to another: `count` new group links and still one to an execution; the live and
  -- the settled rows are untouched.
  pub record Grows (count : ℕ) (s t : Store F) : Type 0 where
    pub added : length t.group_links ≡ length s.group_links + count
    pub unique : IsUniqueLinks s.group_links → IsUniqueLinks t.group_links
    pub same_live : t.live ≡ s.live
    pub same_settled : t.settled ≡ s.settled

  pub Grows-none : (s : Store F) → Grows 0 s s
  Grows-none s = record {
    added = omega arith;
    unique = λ u. u;
    same_live = refl;
    same_settled = refl;
  }

  pub Grows-trans : (m n : ℕ) (s t u : Store F) → Grows m s t → Grows n t u → Grows (m + n) s u
  Grows-trans m n s t u g h = record {
    added = omega (arith, g.added, h.added);
    unique = λ k. h.unique (g.unique k);
    same_live = h.same_live ∙ g.same_live;
    same_settled = h.same_settled ∙ g.same_settled;
  }

  insert-Grows :
      (link : LiveLink F) (target : ℕ) (s : Store F)
      → let (b, t) = insert_group_execution link target s in
        Grows (to_count b) s t × (is_held target t.group_links ≡ true)
  unfolding insert_group_execution
  insert-Grows link target s = elim (Bool-cases (is_held target s.group_links)) [
    | inl held ↦ rw (held, insert_group_execution) (Grows-none s, held)
    | inr free ↦
        rw (free, insert_group_execution)
          (
            record {
              added = length-append s.group_links (group_link_of link target ∷ []);
              unique = IsUniqueLinks-append_one s.group_links (group_link_of link target) free;
              same_live = refl;
              same_settled = refl;
            },
            ground (arith, is_held-append_one target s.group_links (group_link_of link target)),
          )
  ]

  delete_live_link-Grows :
      (link : LiveLink F) (n : ℕ) (s t : Store F)
      → Grows n s t
      → Grows n s (delete_live_link link t)
  unfolding delete_live_link
  delete_live_link-Grows link n s t g = record {
    added = g.added;
    unique = g.unique;
    same_live = g.same_live;
    same_settled = g.same_settled;
  }

  insert_all-Grows :
      (link : LiveLink F) (targets : List ℕ) (s : Store F)
      → let (count, t) = insert_all link targets s in Grows count s t
  unfolding insert_all
  insert_all-Grows link [] s = Grows-none s
  insert_all-Grows link (target ∷ targets) s =
      let (b, t) = insert_group_execution link target s in
      let (count, u) = insert_all link targets t in
      Grows-trans (to_count b) count s t u (insert-Grows link target s).0
        (insert_all-Grows link targets t)

  pub apply_carry-Grows :
      (link : LiveLink F) (target : ℕ) (s : Store F)
      → let (b, t) = apply_carry link target s in Grows (to_count b) s t
  unfolding apply_carry
  apply_carry-Grows link target s =
      let (b, t) = insert_group_execution link target s in
      delete_live_link-Grows link (to_count b) s t (insert-Grows link target s).0

  carry_to_all-Grows :
      (link : LiveLink F) (targets : List ℕ) (s : Store F)
      → let (count, t) = carry_to_all link targets s in Grows count s t
  unfolding carry_to_all
  carry_to_all-Grows link [] s = Grows-none s
  carry_to_all-Grows link (target ∷ targets) s =
      let (count, t) = insert_all link (target ∷ targets) s in
      delete_live_link-Grows link count s t (insert_all-Grows link (target ∷ targets) s)

  pub carry_over_link_to_execution-Grows :
      (live_ib_exec_id : Text) (target : ℕ) (s : Store F)
      → let (count, t) = carry_over_link_to_execution live_ib_exec_id target s in Grows count s t
  unfolding carry_over_link_to_execution
  carry_over_link_to_execution-Grows live_ib_exec_id target s =
      elim (Option-cases (link_of live_ib_exec_id s)) [
        | inl untagged ↦ rw (untagged, carry_over_link_to_execution) (Grows-none s)
        | inr (link, e) ↦ rw (e, carry_over_link_to_execution) (apply_carry-Grows link target s)
      ]

  -- A carry-over of a live fill's claim to settled fills answers the number of group links that it
  -- adds; no settled fill gets a second group link, and the live and settled fills are untouched.
  pub carry_over_link_to_executions-Grows :
      (live_ib_exec_id : Text) (targets : List ℕ) (s : Store F)
      → let (count, t) = carry_over_link_to_executions live_ib_exec_id targets s in Grows count s t
  unfolding carry_over_link_to_executions
  carry_over_link_to_executions-Grows live_ib_exec_id targets s =
      elim (Option-cases (link_of live_ib_exec_id s)) [
        | inl untagged ↦ rw (untagged, carry_over_link_to_executions) (Grows-none s)
        | inr (link, e) ↦
            rw (e, carry_over_link_to_executions)
              (carry_to_all-Grows link (distinct_from [] targets) s)
      ]
