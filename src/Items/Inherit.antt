-- ===== src/Items/Inherit.antt =====
-- `inherit_order_links` of src/services/item_links.py: a late partial fill gets the tags and tasks of
-- the other live fills of its order.
use ngv_trader.Prelude.{
  ℕ, ◌+◌, Bool, true, false, ◌&&◌, Option, none, some, is_none, or_empty, List, [], ◌∷◌, ◌++◌, any,
  filter, Text, text_eq, ◌==◌, if◌then◌else◌,
}
use ngv_trader.Settle.Rows.{LiveExecution}
use ngv_trader.Items.Refs.{EntityType, ItemRef, LinkColumns, entity_eq, live_item, live_order_key}
use ngv_trader.Items.Links.{TagLink, TaskLink, LinkTables, attach_tag, attach_task, count_of}
pub mod Laws

-- `d[key] = value`: a new key goes to the end.
unfoldable pub put_entry : ℕ → Text → List (ℕ × Text) → List (ℕ × Text)
put_entry key value [] = (key, value) ∷ []
put_entry key value ((k, v) ∷ d) =
    let rest = put_entry key value d in if k == key then (k, value) ∷ d else (k, v) ∷ rest

-- `d.update(e)`
unfoldable pub update_entries : List (ℕ × Text) → List (ℕ × Text) → List (ℕ × Text)
unfolding put_entry
update_entries d [] = d
update_entries d ((k, v) ∷ e) = update_entries (put_entry k v d) e

abbrev is_live_row : Text → EntityType → LinkColumns → Bool
is_live_row ib_exec_id entity_type columns =
    entity_eq entity_type EntityType.live_execution
    && text_eq (or_empty columns.ib_exec_id) ib_exec_id

-- `tags_by_exec` and `tasks_by_exec` at one id: who attached each.
unfoldable pub tags_by_exec : Text → List (ℕ × Text) → List TagLink → List (ℕ × Text)
unfolding put_entry
tags_by_exec ib_exec_id d [] = d
tags_by_exec ib_exec_id d (l ∷ links) =
    tags_by_exec ib_exec_id
      (if is_none l.ended_at && is_live_row ib_exec_id l.entity_type l.columns
        then put_entry l.tag_id l.created_by d
        else d)
      links

unfoldable pub tasks_by_exec : Text → List (ℕ × Text) → List TaskLink → List (ℕ × Text)
unfolding put_entry
tasks_by_exec ib_exec_id d [] = d
tasks_by_exec ib_exec_id d (l ∷ links) =
    tasks_by_exec ib_exec_id
      (if is_live_row ib_exec_id l.entity_type l.columns
        then put_entry l.task_id l.created_by d
        else d)
      links

abbrev bool_eq : Bool → Bool → Bool
bool_eq true true = true
bool_eq false false = true
bool_eq _ _ = false

abbrev key_eq : ℕ × Bool × ℕ → ℕ × Bool × ℕ → Bool
key_eq (a, b, c) (x, y, z) = a == x && bool_eq b y && c == z

abbrev has_entry : ℕ → List (ℕ × Text) → Bool
has_entry key d = any (λ entry. entry.0 == key) d

-- The tags of the order that the fill has not, attached.
unfoldable pub inherit_tags :
    ℕ → ItemRef → List (ℕ × Text) → List (ℕ × Text) → LinkTables → ℕ × LinkTables
unfolding attach_tag
inherit_tags now item own [] db = (0, db)
inherit_tags now item own ((tag_id, created_by) ∷ order_tags) db =
    let (added, db) =
      if has_entry tag_id own then (false, db) else attach_tag now tag_id item created_by db in
    let (more, db) = inherit_tags now item own order_tags db in (count_of added + more, db)

unfoldable pub inherit_tasks :
    ℕ → ItemRef → List (ℕ × Text) → List (ℕ × Text) → LinkTables → ℕ × LinkTables
unfolding attach_task
inherit_tasks now item own [] db = (0, db)
inherit_tasks now item own ((task_id, created_by) ∷ order_tasks) db =
    let (added, db) =
      if has_entry task_id own then (false, db) else attach_task now task_id item created_by db in
    let (more, db) = inherit_tasks now item own order_tasks db in (count_of added + more, db)

module _ {F : Type 0} where
  abbrev is_of_key : ℕ × Bool × ℕ → LiveExecution F → Bool
  is_of_key key live = elim (live_order_key live) [ none ↦ false | some k ↦ key_eq key k ]

  abbrev of_more :
      List (LiveExecution F) → List (List (LiveExecution F)) → List (List (LiveExecution F))
  of_more (a ∷ b ∷ fills) groups = (a ∷ b ∷ fills) ∷ groups
  of_more _ groups = groups

  -- The fills of each order with more than one, in the order of their first fills.
  unfoldable pub order_groups :
      List (LiveExecution F)
      → List (ℕ × Bool × ℕ)
      → List (LiveExecution F)
      → List (List (LiveExecution F))
  unfolding live_order_key
  order_groups lives seen [] = []
  order_groups lives seen (live ∷ rest) = elim (live_order_key live) [
    | none ↦ order_groups lives seen rest
    | some key ↦
        let later = order_groups lives (key ∷ seen) rest in
        let known = order_groups lives seen rest in
        if any (key_eq key) seen then known else of_more (filter (is_of_key key) lives) later
  ]

  unfoldable pub order_tags :
      List TagLink → List (ℕ × Text) → List (LiveExecution F) → List (ℕ × Text)
  unfolding update_entries tags_by_exec
  order_tags links d [] = d
  order_tags links d (live ∷ fills) =
      order_tags links (update_entries d (tags_by_exec live.ib_exec_id [] links)) fills

  unfoldable pub order_tasks :
      List TaskLink → List (ℕ × Text) → List (LiveExecution F) → List (ℕ × Text)
  unfolding update_entries tasks_by_exec
  order_tasks links d [] = d
  order_tasks links d (live ∷ fills) =
      order_tasks links (update_entries d (tasks_by_exec live.ib_exec_id [] links)) fills

  -- The fills of one order; `before` are the tables when the pass began.
  unfoldable pub inherit_fills :
      ℕ
      → LinkTables
      → List (ℕ × Text)
      → List (ℕ × Text)
      → List (LiveExecution F)
      → LinkTables
      → ℕ × LinkTables
  unfolding inherit_tags inherit_tasks tags_by_exec tasks_by_exec
  inherit_fills now before tags tasks [] db = (0, db)
  inherit_fills now before tags tasks (live ∷ fills) db =
      let id = live.ib_exec_id in
      let (tagged, db) =
        inherit_tags now (live_item live) (tags_by_exec id [] before.tag_links) tags db in
      let (tasked, db) =
        inherit_tasks now (live_item live) (tasks_by_exec id [] before.task_links) tasks db in
      let (more, db) = inherit_fills now before tags tasks fills db in (tagged + tasked + more, db)

  unfoldable pub inherit_groups :
      ℕ → LinkTables → List (List (LiveExecution F)) → LinkTables → ℕ × LinkTables
  unfolding inherit_fills order_tags order_tasks
  inherit_groups now before [] db = (0, db)
  inherit_groups now before (fills ∷ groups) db =
      let (added, db) =
        inherit_fills now before (order_tags before.tag_links [] fills)
          (order_tasks before.task_links [] fills) fills db in
      let (more, db) = inherit_groups now before groups db in (added + more, db)

  unfoldable pub inherit_order_links : ℕ → List (LiveExecution F) → LinkTables → ℕ × LinkTables
  unfolding inherit_groups order_groups
  inherit_order_links now lives db = inherit_groups now db (order_groups lives [] lives) db
