-- ===== src/Items/Inherit/Laws.antt =====
-- Inheritance within an order keeps the links that are there, and no tag is open twice on an item.
use ngv_trader.Prelude.{
  ℕ, ◌≡◌, refl, sym, ◌∙◌, subst, inl, inr, Bool-cases, any, Bool, true, false, List, [], ◌∷◌, Text,
  if◌then◌else◌,
}
use ngv_trader.Settle.Rows.{LiveExecution}
use ngv_trader.Items.Refs.{ItemRef, live_item}
use ngv_trader.Items.Links.{LinkTables, attach_tag, attach_task, is_task}
use ngv_trader.Items.Links.Laws.{AtMostOne, attach_tag-IsAttached}
use ngv_trader.Items.Inherit.{
  has_entry, inherit_tags, inherit_tasks, inherit_fills, inherit_groups, inherit_order_links,
  tags_by_exec, tasks_by_exec, order_tags, order_tasks, order_groups,
}

inherit_tags-AtMostOne :
    (now : ℕ) (item : ItemRef) (own tags : List (ℕ × Text)) (db : LinkTables)
    → AtMostOne db.tag_links
    → AtMostOne (inherit_tags now item own tags db).1.tag_links
unfolding inherit_tags
inherit_tags-AtMostOne now item own [] db h = h
inherit_tags-AtMostOne now item own ((tag_id, by) ∷ tags) db h =
    inherit_tags-AtMostOne now item own tags _ (one (has_entry tag_id own))
  where
    one :
        (b : Bool)
        → AtMostOne (if b then (false, db) else attach_tag now tag_id item by db).1.tag_links
    one true = h
    one false = (attach_tag-IsAttached now tag_id item by db h).at_most_one

attach_task_tags :
    (now task_id : ℕ) (item : ItemRef) (by : Text) (db : LinkTables)
    → (attach_task now task_id item by db).1.tag_links ≡ db.tag_links
unfolding attach_task
attach_task_tags now task_id item by db =
    elim (Bool-cases (any (is_task task_id item) db.task_links)) [
      | inl e ↦ rw (attach_task, e) refl
      | inr e ↦ rw (attach_task, e) refl
    ]

inherit_tasks_tags :
    (now : ℕ) (item : ItemRef) (own tasks : List (ℕ × Text)) (db : LinkTables)
    → (inherit_tasks now item own tasks db).1.tag_links ≡ db.tag_links
unfolding inherit_tasks
inherit_tasks_tags now item own [] db = refl
inherit_tasks_tags now item own ((task_id, by) ∷ tasks) db =
    inherit_tasks_tags now item own tasks _ ∙ one (has_entry task_id own)
  where
    one :
        (b : Bool)
        → (if b then (false, db) else attach_task now task_id item by db).1.tag_links ≡ db.tag_links
    one true = refl
    one false = attach_task_tags now task_id item by db

module _ {F : Type 0} where
  inherit_fills-AtMostOne :
      (now : ℕ) (before : LinkTables) (tags tasks : List (ℕ × Text))
      (fills : List (LiveExecution F)) (db : LinkTables)
      → AtMostOne db.tag_links
      → AtMostOne (inherit_fills now before tags tasks fills db).1.tag_links
  unfolding inherit_fills
  inherit_fills-AtMostOne now before tags tasks [] db h = h
  inherit_fills-AtMostOne now before tags tasks (live ∷ fills) db h =
      let own = tags_by_exec live.ib_exec_id [] before.tag_links in
      let tagged = (inherit_tags now (live_item live) own tags db).1 in
      let own_tasks = tasks_by_exec live.ib_exec_id [] before.task_links in
      let kept = inherit_tasks_tags now (live_item live) own_tasks tasks tagged in
      inherit_fills-AtMostOne now before tags tasks fills _
        (subst AtMostOne (sym kept) (inherit_tags-AtMostOne now (live_item live) own tags db h))

  inherit_groups-AtMostOne :
      (now : ℕ) (before : LinkTables) (groups : List (List (LiveExecution F))) (db : LinkTables)
      → AtMostOne db.tag_links
      → AtMostOne (inherit_groups now before groups db).1.tag_links
  unfolding inherit_groups
  inherit_groups-AtMostOne now before [] db h = h
  inherit_groups-AtMostOne now before (fills ∷ groups) db h =
      inherit_groups-AtMostOne now before groups _ (
        inherit_fills-AtMostOne now before (order_tags before.tag_links [] fills)
          (order_tasks before.task_links [] fills) fills db h)

  -- The inheritance of links within an order opens no tag a second time on an item.
  pub inherit_order_links-AtMostOne :
      (now : ℕ) (lives : List (LiveExecution F)) (db : LinkTables)
      → AtMostOne db.tag_links
      → AtMostOne (inherit_order_links now lives db).1.tag_links
  unfolding inherit_order_links
  inherit_order_links-AtMostOne now lives db h =
      inherit_groups-AtMostOne now db (order_groups lives [] lives) db h
