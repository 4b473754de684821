-- ===== src/Settle/Purge.antt =====
-- The purge of the intraday sync (`_settled_combo_summaries` and `_purge_settled` of
-- src/services/intraday_sync_tws.py) with `carry_over_settled_group_links` of
-- src/services/group_link_carryover.py: live fills that have settled go, and their group links move.
use ngv_trader.Prelude.{
  ℕ, ◌+◌, Bool, true, false, not, ◌&&◌, ◌||◌, Option, none, some, is_some, or_else, List, [], ◌∷◌,
  ◌++◌, map, filter, find?, any, length, Text, text, text_eq, text_mem, option_eq, ◌==◌,
  if◌then◌else◌,
}
use ngv_trader.Settle.Rows.{LiveExecution, TradeExecution, LiveLink, Store}
use ngv_trader.Settle.Links.{apply_carry, carry_over_link_to_execution, to_count}
pub mod Listed
pub mod Laws

abbrev pub is_bag : Option Text → Bool
is_bag sec_type = option_eq text_eq sec_type (some (text "BAG"))

abbrev pub is_nil : List Text → Bool
is_nil [] = true
is_nil (_ ∷ _) = false

-- A summary with a counterpart joins the map.
abbrev pub add_summary : Bool → Text → Option ℕ → List (Text × ℕ) → List (Text × ℕ)
add_summary true live_exec_id (some id) rest = (live_exec_id, id) ∷ rest
add_summary true live_exec_id none rest = rest
add_summary false live_exec_id id rest = rest

module _ {F : Type 0} where
  -- `exec_id_by_ib.get(ib_exec_id)`
  unfoldable pub settled_id_of : Text → List (TradeExecution F) → Option ℕ
  settled_id_of ib_exec_id [] = none
  settled_id_of ib_exec_id (s ∷ settled) =
      or_else (settled_id_of ib_exec_id settled)
        (if text_eq s.ib_exec_id ib_exec_id then some s.id else none)

  -- The loop over the links: one whose fill has not settled stays.
  unfoldable pub carry_links : List (LiveLink F) → Store F → ℕ × Store F
  unfolding settled_id_of apply_carry
  carry_links [] store = (0, store)
  carry_links (link ∷ links) store = elim (settled_id_of link.ib_exec_id store.settled) [
    | none ↦ carry_links links store
    | some trade_execution_id ↦
        let (inserted, store) = apply_carry link trade_execution_id store in
        let (more, store) = carry_links links store in (to_count inserted + more, store)
  ]

  abbrev in_scope : Option (List Text) → LiveLink F → Bool
  in_scope none link = true
  in_scope (some settled_ids) link = text_mem link.ib_exec_id settled_ids

  unfoldable pub carry_over_settled_group_links : Option (List Text) → Store F → ℕ × Store F
  unfolding carry_links
  carry_over_settled_group_links settled_ids store =
      carry_links (filter (in_scope settled_ids) store.live_links) store

  abbrev pub is_bag_at : LiveExecution F → TradeExecution F → Bool
  is_bag_at live s =
      is_bag s.sec_type && (s.account_id == live.account_id && s.executed_at == live.exec_time)

  -- `settled_by_key.get((account_id, exec_time))`: of several summaries the last one.
  unfoldable pub settled_summary_of : LiveExecution F → List (TradeExecution F) → Option ℕ
  settled_summary_of live [] = none
  settled_summary_of live (s ∷ settled) =
      or_else (settled_summary_of live settled) (if is_bag_at live s then some s.id else none)

  -- The live summaries with their settled counterparts.
  unfoldable pub settled_combo_summaries :
      List (LiveExecution F) → List (TradeExecution F) → List (Text × ℕ)
  unfolding settled_summary_of
  settled_combo_summaries [] settled = []
  settled_combo_summaries (live ∷ rows) settled =
      add_summary (is_bag live.sec_type) live.ib_exec_id (settled_summary_of live settled)
        (settled_combo_summaries rows settled)

  abbrev pub has_settled : Store F → LiveExecution F → Bool
  has_settled store live = any (λ s. text_eq s.ib_exec_id live.ib_exec_id) store.settled

  unfoldable pub carry_summaries : List (Text × ℕ) → Store F → Store F
  unfolding carry_over_link_to_execution
  carry_summaries [] store = store
  carry_summaries ((live_exec_id, id) ∷ summaries) store =
      carry_summaries summaries (carry_over_link_to_execution live_exec_id id store).1

  abbrev pub purge_ids : Store F → List Text
  purge_ids store =
      map (λ live. live.ib_exec_id) (filter (has_settled store) store.live)
      ++ map (λ entry. entry.0) (settled_combo_summaries store.live store.settled)

  abbrev pub is_purged : List Text → LiveExecution F → Bool
  is_purged ids live = text_mem live.ib_exec_id ids

  unfoldable pub delete_purged : List Text → Store F → ℕ × Store F
  delete_purged ids store = (
    length (filter (is_purged ids) store.live),
    record store { live = filter (λ live. not (is_purged ids live)) store.live },
  )

  -- The number of the deleted rows, and the tables.
  unfoldable pub purge_settled : Store F → ℕ × Store F
  unfolding carry_over_settled_group_links settled_combo_summaries carry_summaries delete_purged
  purge_settled store =
      let settled_ids = map (λ live. live.ib_exec_id) (filter (has_settled store) store.live) in
      let summaries = settled_combo_summaries store.live store.settled in
      if is_nil (purge_ids store)
      then (0, store)
      else delete_purged (purge_ids store)
          (carry_summaries summaries (carry_over_settled_group_links (some settled_ids) store).1)
