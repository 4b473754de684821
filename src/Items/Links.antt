-- ===== src/Items/Links.antt =====
-- Attaching, detaching and merging (src/services/item_links.py). Rows are looked at in the order of
-- the table, and new rows stand at its end; `now` is the value of `now_utc()`.
use ngv_trader.Prelude.{
  ℕ, ◌+◌, Bool, true, false, not, ◌&&◌, Option, none, some, is_none, List, [], ◌∷◌, ◌++◌, any,
  filter, length, Text, ◌==◌, if◌then◌else◌,
}
use ngv_trader.Items.Refs.{EntityType, ItemRef, LinkColumns, link_columns, link_filter, link_item}
pub mod Laws
pub mod Moves

pub record TagLink : Type 0 where
  pub id : ℕ
  pub tag_id : ℕ
  pub entity_type : EntityType
  pub columns : LinkColumns
  pub created_by : Text
  pub assigned_at : ℕ
  pub ended_at : Option ℕ

pub record TaskLink : Type 0 where
  pub id : ℕ
  pub task_id : ℕ
  pub entity_type : EntityType
  pub columns : LinkColumns
  pub created_by : Text
  pub created_at : ℕ

-- The two tables, with the next id of each.
pub record LinkTables : Type 0 where
  pub tag_links : List TagLink
  pub task_links : List TaskLink
  pub next_tag_link_id : ℕ
  pub next_task_link_id : ℕ

unfoldable pub new_tag_link : ℕ → ℕ → ItemRef → Text → ℕ → Option ℕ → TagLink
new_tag_link id tag_id item created_by assigned_at ended_at = record {
  id = id;
  tag_id = tag_id;
  entity_type = item.entity_type;
  columns = link_columns item;
  created_by = created_by;
  assigned_at = assigned_at;
  ended_at = ended_at;
}

abbrev pub is_open_tag : ℕ → ItemRef → TagLink → Bool
is_open_tag tag_id item link =
    link.tag_id == tag_id && is_none link.ended_at && link_filter item link.entity_type link.columns

abbrev pub add_tag_link : ℕ → ItemRef → Text → ℕ → Option ℕ → LinkTables → LinkTables
add_tag_link tag_id item created_by assigned_at ended_at db = record db {
  tag_links =
      db.tag_links
      ++ new_tag_link db.next_tag_link_id tag_id item created_by assigned_at ended_at ∷ [];
  next_tag_link_id = db.next_tag_link_id + 1;
}

unfoldable pub attach_tag : ℕ → ℕ → ItemRef → Text → LinkTables → Bool × LinkTables
unfolding new_tag_link
attach_tag now tag_id item created_by db =
    if any (is_open_tag tag_id item) db.tag_links
    then (false, db)
    else (true, add_tag_link tag_id item created_by now none db)

-- The number of the deleted rows, and the tables.
unfoldable pub detach_tag : ℕ → ItemRef → LinkTables → ℕ × LinkTables
detach_tag tag_id item db = (
  length (filter (is_open_tag tag_id item) db.tag_links),
  record db { tag_links = filter (λ l. not (is_open_tag tag_id item l)) db.tag_links },
)

abbrev pub is_task : ℕ → ItemRef → TaskLink → Bool
is_task task_id item link =
    link.task_id == task_id && link_filter item link.entity_type link.columns

unfoldable pub attach_task : ℕ → ℕ → ItemRef → Text → LinkTables → Bool × LinkTables
attach_task now task_id item created_by db =
    if any (is_task task_id item) db.task_links then (false, db) else (
      true,
      record db {
        task_links =
            db.task_links
            ++ record {
              id = db.next_task_link_id;
              task_id = task_id;
              entity_type = item.entity_type;
              columns = link_columns item;
              created_by = created_by;
              created_at = now;
            }
              ∷ [];
        next_task_link_id = db.next_task_link_id + 1;
      },
    )

unfoldable pub detach_task : ℕ → ItemRef → LinkTables → ℕ × LinkTables
detach_task task_id item db = (
  length (filter (is_task task_id item) db.task_links),
  record db { task_links = filter (λ l. not (is_task task_id item l)) db.task_links },
)

abbrev pub is_row : ℕ → TagLink → Bool
is_row id link = link.id == id

unfoldable pub delete_tag_link : ℕ → LinkTables → LinkTables
delete_tag_link id db = record db { tag_links = filter (λ l. not (is_row id l)) db.tag_links }

abbrev pub count_of : Bool → ℕ
count_of true = 1
count_of false = 0

-- One link of the merge: an open one is attached, an ended one is copied with its dates.
unfoldable pub copy_tag_link : ℕ → ℕ → TagLink → LinkTables → ℕ × LinkTables
unfolding attach_tag new_tag_link
copy_tag_link now target_tag_id link db =
    let item = link_item link.entity_type link.columns in
    elim link.ended_at [
      | none ↦
          let (added, db) = attach_tag now target_tag_id item link.created_by db in
          (count_of added, db)
      | some ended ↦
          (1, add_tag_link target_tag_id item link.created_by link.assigned_at (some ended) db)
    ]

unfoldable pub move_each : ℕ → ℕ → List TagLink → LinkTables → ℕ × LinkTables
unfolding copy_tag_link delete_tag_link
move_each now target_tag_id [] db = (0, db)
move_each now target_tag_id (link ∷ links) db =
    let (copied, db) = copy_tag_link now target_tag_id link db in
    let (moved, db) = move_each now target_tag_id links (delete_tag_link link.id db) in
    (copied + moved, db)

abbrev pub is_of_tag : ℕ → TagLink → Bool
is_of_tag tag_id link = link.tag_id == tag_id

unfoldable pub move_tag_links : ℕ → ℕ → ℕ → LinkTables → ℕ × LinkTables
unfolding move_each
move_tag_links now source_tag_id target_tag_id db =
    move_each now target_tag_id (filter (is_of_tag source_tag_id) db.tag_links) db
