-- ===== src/Items/Refs.antt =====
-- Item references (src/services/item_refs.py): the typed key that tags and tasks attach to. The table
-- of entity types is a function by clauses on the type.
use ngv_trader.Prelude.{
  ℕ, suc, Bool, true, false, not, ◌&&◌, Option, none, some, is_some, List, [], ◌∷◌, ◌++◌, any,
  filter, find?, map, Text, text_eq, option_eq, is_empty, ◌==◌, if◌then◌else◌,
}
use ngv_trader.Settle.Rows.{LiveExecution}
pub mod Laws

pub data EntityType : Type 0 where
  trade trade_group task strategy position live_execution : EntityType

abbrev entity_rank : EntityType → ℕ
entity_rank EntityType.trade = 0
entity_rank EntityType.trade_group = 1
entity_rank EntityType.task = 2
entity_rank EntityType.strategy = 3
entity_rank EntityType.position = 4
entity_rank EntityType.live_execution = 5

abbrev pub entity_eq : EntityType → EntityType → Bool
entity_eq a b = entity_rank a == entity_rank b

pub record ItemRef : Type 0 where
  pub entity_type : EntityType
  pub id : Option ℕ
  pub account_id : Option ℕ
  pub con_id : Option ℕ
  pub ib_exec_id : Option Text

-- The key columns of a link row; those that a type does not use are NULL.
pub record LinkColumns : Type 0 where
  pub trade_id : Option ℕ
  pub trade_group_id : Option ℕ
  pub task_id : Option ℕ
  pub strategy_id : Option ℕ
  pub account_id : Option ℕ
  pub con_id : Option ℕ
  pub ib_exec_id : Option Text

abbrev no_columns : LinkColumns
no_columns = record {
  trade_id = none;
  trade_group_id = none;
  task_id = none;
  strategy_id = none;
  account_id = none;
  con_id = none;
  ib_exec_id = none;
}

-- `EntitySpec.link_columns`: the key columns and, of a live fill, the denormalized ones.
abbrev pub columns_at : EntityType → ItemRef → LinkColumns
columns_at EntityType.trade item = record no_columns { trade_id = item.id }
columns_at EntityType.trade_group item = record no_columns { trade_group_id = item.id }
columns_at EntityType.task item = record no_columns { task_id = item.id }
columns_at EntityType.strategy item = record no_columns { strategy_id = item.id }
columns_at EntityType.position item = record no_columns {
  account_id = item.account_id;
  con_id = item.con_id;
}
columns_at EntityType.live_execution item = record no_columns {
  account_id = item.account_id;
  con_id = item.con_id;
  ib_exec_id = item.ib_exec_id;
}

unfoldable pub link_columns : ItemRef → LinkColumns
link_columns item = columns_at item.entity_type item

-- `EntitySpec.filter_clauses`
abbrev pub key_matches : EntityType → LinkColumns → ItemRef → Bool
key_matches EntityType.trade columns item = option_eq ◌==◌ columns.trade_id item.id
key_matches EntityType.trade_group columns item = option_eq ◌==◌ columns.trade_group_id item.id
key_matches EntityType.task columns item = option_eq ◌==◌ columns.task_id item.id
key_matches EntityType.strategy columns item = option_eq ◌==◌ columns.strategy_id item.id
key_matches EntityType.position columns item =
    option_eq ◌==◌ columns.account_id item.account_id && option_eq ◌==◌ columns.con_id item.con_id
key_matches EntityType.live_execution columns item =
    option_eq text_eq columns.ib_exec_id item.ib_exec_id

-- `link_filter` on a row's type and columns.
unfoldable pub link_filter : ItemRef → EntityType → LinkColumns → Bool
link_filter item entity_type columns =
    entity_eq entity_type item.entity_type && key_matches entity_type columns item

abbrev item_at : EntityType → LinkColumns → ItemRef
item_at entity_type columns = record {
  entity_type = entity_type;
  id = none;
  account_id = none;
  con_id = none;
  ib_exec_id = none;
}

-- `link_item`: the item that a link row points at.
unfoldable pub link_item : EntityType → LinkColumns → ItemRef
link_item EntityType.trade c = record (item_at EntityType.trade c) { id = c.trade_id }
link_item EntityType.trade_group c = record (item_at EntityType.trade_group c) {
  id = c.trade_group_id;
}
link_item EntityType.task c = record (item_at EntityType.task c) { id = c.task_id }
link_item EntityType.strategy c = record (item_at EntityType.strategy c) { id = c.strategy_id }
link_item EntityType.position c = record (item_at EntityType.position c) {
  account_id = c.account_id;
  con_id = c.con_id;
}
link_item EntityType.live_execution c = record (item_at EntityType.live_execution c) {
  account_id = c.account_id;
  con_id = c.con_id;
  ib_exec_id = c.ib_exec_id;
}

abbrev pub trade_item : ℕ → ItemRef
trade_item trade_id = record (item_at EntityType.trade no_columns) { id = some trade_id }

module _ {F : Type 0} where
  abbrev pub live_item : LiveExecution F → ItemRef
  live_item live = record {
    entity_type = EntityType.live_execution;
    id = none;
    account_id = some live.account_id;
    con_id = live.con_id;
    ib_exec_id = some live.ib_exec_id;
  }

  -- `live_order_key`: an id that is missing or 0 is no key.
  unfoldable pub live_order_key : LiveExecution F → Option (ℕ × Bool × ℕ)
  live_order_key live = elim live.ib_perm_id [
    | some (suc n) ↦ some (live.account_id, true, suc n)
    | _ ↦ elim live.ib_order_id [ some (suc n) ↦ some (live.account_id, false, suc n) | _ ↦ none ]
  ]
