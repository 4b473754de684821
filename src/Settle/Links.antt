-- ===== src/Settle/Links.antt =====
-- src/services/group_link_carryover.py: a live fill's group assignment moves to settled fills. The
-- tag and task links that the same calls move (src/services/item_links.py) are other tables.
use ngv_trader.Prelude.{
  ℕ, ◌+◌, Bool, true, false, not, Option, none, some, List, [], ◌∷◌, ◌++◌, Text, text_eq, filter,
  any, find?, ◌==◌, if◌then◌else◌,
}
use ngv_trader.Settle.Rows.{LiveLink, GroupLink, Store}
pub mod Laws

abbrev pub to_count : Bool → ℕ
to_count inserted = if inserted then 1 else 0

-- `list(dict.fromkeys(ids))`: the first occurrence of each id, in order.
unfoldable pub distinct_from : List ℕ → List ℕ → List ℕ
distinct_from seen [] = []
distinct_from seen (x ∷ xs) =
    let repeated = any (λ y. y == x) seen in
    let rest = distinct_from (if repeated then seen else x ∷ seen) xs in
    if repeated then rest else x ∷ rest

module _ {F : Type 0} where
  abbrev pub group_link_of : LiveLink F → ℕ → GroupLink F
  group_link_of link trade_execution_id = record {
    trade_group_id = link.trade_group_id;
    trade_execution_id = trade_execution_id;
    source = link.source;
    created_by = link.created_by;
    confidence = link.confidence;
    assigned_at = link.assigned_at;
  }

  -- `_insert_group_execution`: an execution that a group holds already is left alone.
  unfoldable pub insert_group_execution : LiveLink F → ℕ → Store F → Bool × Store F
  insert_group_execution link trade_execution_id store =
      if any (λ g. g.trade_execution_id == trade_execution_id) store.group_links
      then (false, store)
      else (
        true,
        record store {
          group_links = store.group_links ++ group_link_of link trade_execution_id ∷ [];
        },
      )

  -- `session.delete(link)`: a live link is known by its `ib_exec_id`, which is unique.
  unfoldable pub delete_live_link : LiveLink F → Store F → Store F
  delete_live_link link store = record store {
    live_links = filter (λ l. not (text_eq l.ib_exec_id link.ib_exec_id)) store.live_links;
  }

  unfoldable pub apply_carry : LiveLink F → ℕ → Store F → Bool × Store F
  unfolding insert_group_execution delete_live_link
  apply_carry link trade_execution_id store =
      let (inserted, store') = insert_group_execution link trade_execution_id store in
      (inserted, delete_live_link link store')

  abbrev link_of : Text → Store F → Option (LiveLink F)
  link_of live_ib_exec_id store = find? (λ l. text_eq l.ib_exec_id live_ib_exec_id) store.live_links

  unfoldable pub carry_over_link_to_execution : Text → ℕ → Store F → ℕ × Store F
  unfolding apply_carry
  carry_over_link_to_execution live_ib_exec_id trade_execution_id store =
      elim (link_of live_ib_exec_id store) [
        | none ↦ (0, store)
        | some link ↦
            let (inserted, store') = apply_carry link trade_execution_id store in
            (to_count inserted, store')
      ]

  -- The loop that inserts a link for each target and counts the new ones.
  unfoldable pub insert_all : LiveLink F → List ℕ → Store F → ℕ × Store F
  unfolding insert_group_execution
  insert_all link [] store = (0, store)
  insert_all link (target ∷ targets) store =
      let (inserted, store') = insert_group_execution link target store in
      let (count, store'') = insert_all link targets store' in (to_count inserted + count, store'')

  -- With no target the live link stays.
  unfoldable pub carry_to_all : LiveLink F → List ℕ → Store F → ℕ × Store F
  unfolding insert_all delete_live_link
  carry_to_all link [] store = (0, store)
  carry_to_all link (target ∷ targets) store =
      let (count, store') = insert_all link (target ∷ targets) store in
      (count, delete_live_link link store')

  unfoldable pub carry_over_link_to_executions : Text → List ℕ → Store F → ℕ × Store F
  unfolding carry_to_all distinct_from
  carry_over_link_to_executions live_ib_exec_id trade_execution_ids store =
      elim (link_of live_ib_exec_id store) [
        | none ↦ (0, store)
        | some link ↦ carry_to_all link (distinct_from [] trade_execution_ids) store
      ]
