-- ===== src/Items/Carry.antt =====
-- The tags and tasks of a live fill when it settles (`carry_over_item_links` and
-- `carry_over_settled_item_links` of src/services/item_links.py).
use ngv_trader.Prelude.{
  ℕ, ◌+◌, Bool, true, false, not, ◌&&◌, ◌||◌, Option, none, some, is_none, List, [], ◌∷◌, ◌++◌, any,
  filter, map, Text, text_eq, text_mem, option_eq, ◌==◌, if◌then◌else◌,
}
use ngv_trader.Fills.Rows.{Execution}
use ngv_trader.Items.Refs.{EntityType, ItemRef, LinkColumns, entity_eq, trade_item}
use ngv_trader.Items.Links.{TagLink, TaskLink, LinkTables, attach_tag, attach_task, count_of}
pub mod Laws
pub mod Settled

-- The `where` of the two queries on links.
abbrev pub is_of_live : Text → EntityType → LinkColumns → Bool
is_of_live live_ib_exec_id entity_type columns =
    entity_eq entity_type EntityType.live_execution
    && option_eq text_eq columns.ib_exec_id (some live_ib_exec_id)

abbrev pub is_live_tag : Text → TagLink → Bool
is_live_tag live_ib_exec_id l = is_of_live live_ib_exec_id l.entity_type l.columns

abbrev pub is_live_task : Text → TaskLink → Bool
is_live_task live_ib_exec_id l = is_of_live live_ib_exec_id l.entity_type l.columns

-- `dict.fromkeys`: the first of equal ids is kept.
unfoldable pub distinct : List ℕ → List ℕ → List ℕ
distinct seen [] = []
distinct seen (n ∷ ns) =
    let kept = distinct (n ∷ seen) ns in
    let skipped = distinct seen ns in if any (λ m. m == n) seen then skipped else n ∷ kept

abbrev is_in : List ℕ → ℕ → Bool
is_in ids id = any (λ m. m == id) ids

unfoldable pub trade_ids_of : {F : Type 0} → List ℕ → List (Execution F) → List ℕ
unfolding distinct
trade_ids_of execution_ids executions =
    distinct [] (map (λ ex. ex.trade_id) (filter (λ ex. is_in execution_ids ex.id) executions))

-- The open tags of the live fill, attached to a trade.
unfoldable pub attach_tags : ℕ → ItemRef → List TagLink → LinkTables → ℕ × LinkTables
unfolding attach_tag
attach_tags now item [] db = (0, db)
attach_tags now item (l ∷ links) db =
    let (added, db) =
      if is_none l.ended_at then attach_tag now l.tag_id item l.created_by db else (false, db) in
    let (more, db) = attach_tags now item links db in (count_of added + more, db)

unfoldable pub attach_tasks : ℕ → ItemRef → List TaskLink → LinkTables → ℕ × LinkTables
unfolding attach_task
attach_tasks now item [] db = (0, db)
attach_tasks now item (l ∷ links) db =
    let (added, db) = attach_task now l.task_id item l.created_by db in
    let (more, db) = attach_tasks now item links db in (count_of added + more, db)

unfoldable pub carry_to_trades :
    ℕ → List TagLink → List TaskLink → List ℕ → LinkTables → ℕ × LinkTables
unfolding attach_tags attach_tasks
carry_to_trades now tag_links task_links [] db = (0, db)
carry_to_trades now tag_links task_links (trade_id ∷ trade_ids) db =
    let (tags, db) = attach_tags now (trade_item trade_id) tag_links db in
    let (tasks, db) = attach_tasks now (trade_item trade_id) task_links db in
    let (more, db) = carry_to_trades now tag_links task_links trade_ids db in
    (tags + tasks + more, db)

-- The links of the fill: what is attached meanwhile is on trades.
unfoldable pub drop_live_links : Text → LinkTables → LinkTables
drop_live_links live_ib_exec_id db = record db {
  tag_links = filter (λ l. not (is_live_tag live_ib_exec_id l)) db.tag_links;
  task_links = filter (λ l. not (is_live_task live_ib_exec_id l)) db.task_links;
}

abbrev pub is_nil : {A : Type 0} → List A → Bool
is_nil [] = true
is_nil (_ ∷ _) = false

module _ {F : Type 0} where
  unfoldable pub carry_over_item_links :
      ℕ → List (Execution F) → Text → List ℕ → LinkTables → ℕ × LinkTables
  unfolding trade_ids_of carry_to_trades drop_live_links
  carry_over_item_links now executions live_ib_exec_id trade_execution_ids db =
      let tag_links = filter (is_live_tag live_ib_exec_id) db.tag_links in
      let task_links = filter (is_live_task live_ib_exec_id) db.task_links in
      let trade_ids = trade_ids_of trade_execution_ids executions in
      if (is_nil tag_links && is_nil task_links) || is_nil trade_ids
      then (0, db)
      else let (added, db) = carry_to_trades now tag_links task_links trade_ids db in
        (added, drop_live_links live_ib_exec_id db)

  abbrev has_live_link : LinkTables → Execution F → Bool
  has_live_link db ex =
      any (is_live_tag ex.ib_exec_id) db.tag_links || any (is_live_task ex.ib_exec_id) db.task_links

  abbrev is_settled_id : Option (List Text) → Execution F → Bool
  is_settled_id none ex = true
  is_settled_id (some ids) ex = text_mem ex.ib_exec_id ids

  unfoldable pub carry_each :
      ℕ → List (Execution F) → List (Execution F) → LinkTables → ℕ × LinkTables
  unfolding carry_over_item_links
  carry_each now executions [] db = (0, db)
  carry_each now executions (ex ∷ settled) db =
      let (added, db) = carry_over_item_links now executions ex.ib_exec_id (ex.id ∷ []) db in
      let (more, db) = carry_each now executions settled db in (added + more, db)

  -- Live links whose fill has settled under the same id, among the given ids if there are any.
  unfoldable pub carry_over_settled_item_links :
      ℕ → List (Execution F) → Option (List Text) → LinkTables → ℕ × LinkTables
  unfolding carry_each
  carry_over_settled_item_links now executions settled_ids db =
      carry_each now executions
        (filter (λ ex. is_settled_id settled_ids ex && has_live_link db ex) executions) db
