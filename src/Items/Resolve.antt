-- ===== src/Items/Resolve.antt =====
-- The validation and the expansion of references (src/services/item_refs.py). The tables answer which
-- rows of the types with a row id there are.
use ngv_trader.Prelude.{
  ℕ, Bool, true, false, option_eq, ◌&&◌, Option, none, some, is_some, List, [], ◌∷◌, any, filter,
  find?, map, Text, text_eq, is_empty, ◌==◌, if◌then◌else◌,
}
use ngv_trader.Settle.Rows.{LiveExecution}
use ngv_trader.Items.Refs.{
  EntityType, ItemRef, entity_eq, link_columns, link_filter, live_item, live_order_key,
}

pub data ItemError : Type 0 where
  not_allowed missing_key not_found : ItemError

pub data Resolved (A : Type 0) : Type 0 where
  item : A → Resolved A
  failed : ItemError → Resolved A

abbrev empty_ref : EntityType → ItemRef
empty_ref entity_type = record {
  entity_type = entity_type;
  id = none;
  account_id = none;
  con_id = none;
  ib_exec_id = none;
}

-- `_resolver_for_row_id`
unfoldable pub resolve_row_id : (EntityType → ℕ → Bool) → ItemRef → Resolved ItemRef
resolve_row_id exists ref = elim ref.id [
  | none ↦ failed ItemError.missing_key
  | some id ↦
      if exists ref.entity_type id
      then item (record (empty_ref ref.entity_type) { id = some id })
      else failed ItemError.not_found
]

unfoldable pub resolve_position : ItemRef → Resolved ItemRef
resolve_position ref =
    if is_some ref.account_id && is_some ref.con_id
    then item (record (empty_ref EntityType.position) {
      account_id = ref.account_id;
      con_id = ref.con_id;
    })
    else failed ItemError.missing_key

-- `out[key] = item`: an item of a key that is there takes its place.
unfoldable pub put_item : ItemRef → List ItemRef → List ItemRef
unfolding link_filter
put_item new [] = new ∷ []
put_item new (old ∷ items) =
    let rest = put_item new items in
    if link_filter new old.entity_type (link_columns old) then new ∷ items else old ∷ rest

unfoldable pub put_items : List ItemRef → List ItemRef → List ItemRef
unfolding put_item
put_items [] out = out
put_items (new ∷ items) out = put_items items (put_item new out)

module _ {F : Type 0} where
  abbrev live_at : Text → List (LiveExecution F) → Option (LiveExecution F)
  live_at ib_exec_id lives = find? (λ l. text_eq l.ib_exec_id ib_exec_id) lives

  unfoldable pub resolve_live_execution : List (LiveExecution F) → ItemRef → Resolved ItemRef
  resolve_live_execution lives ref = elim ref.ib_exec_id [
    | none ↦ failed ItemError.missing_key
    | some ib_exec_id ↦
        if is_empty ib_exec_id
        then failed ItemError.missing_key
        else elim (live_at ib_exec_id lives) [
          | none ↦ failed ItemError.not_found
          | some live ↦ item (live_item live)
        ]
  ]

  abbrev resolve_by_type :
      EntityType → (EntityType → ℕ → Bool) → List (LiveExecution F) → ItemRef → Resolved ItemRef
  resolve_by_type EntityType.trade exists lives ref = resolve_row_id exists ref
  resolve_by_type EntityType.trade_group exists lives ref = resolve_row_id exists ref
  resolve_by_type EntityType.task exists lives ref = resolve_row_id exists ref
  resolve_by_type EntityType.strategy exists lives ref = resolve_row_id exists ref
  resolve_by_type EntityType.position exists lives ref = resolve_position ref
  resolve_by_type EntityType.live_execution exists lives ref = resolve_live_execution lives ref

  unfoldable pub resolve_item :
      List EntityType
      → (EntityType → ℕ → Bool)
      → List (LiveExecution F)
      → ItemRef
      → Resolved ItemRef
  unfolding resolve_row_id resolve_position resolve_live_execution
  resolve_item allowed exists lives ref =
      if any (entity_eq ref.entity_type) allowed
      then resolve_by_type ref.entity_type exists lives ref
      else failed ItemError.not_allowed

  abbrev id_matches : Bool → ℕ → LiveExecution F → Bool
  id_matches true value l = option_eq ◌==◌ l.ib_perm_id (some value)
  id_matches false value l = option_eq ◌==◌ l.ib_order_id (some value)

  -- `live_order_fills`: every live fill of the fill's order.
  unfoldable pub live_order_fills : List (LiveExecution F) → Text → List (LiveExecution F)
  unfolding live_order_key
  live_order_fills lives ib_exec_id = elim (live_at ib_exec_id lives) [
    | none ↦ []
    | some live ↦ elim (live_order_key live) [
      | none ↦ live ∷ []
      | some (account_id, is_perm, value) ↦
          filter (λ l. l.account_id == account_id && id_matches is_perm value l) lives
    ]
  ]

  -- `EntitySpec.expand`
  unfoldable pub expand_item : List (LiveExecution F) → ItemRef → List ItemRef
  unfolding live_order_fills
  expand_item lives ref =
      if entity_eq ref.entity_type EntityType.live_execution
      then elim ref.ib_exec_id [ none ↦ [] | some id ↦ map live_item (live_order_fills lives id) ]
      else ref ∷ []

  -- The first reference that fails ends the expansion.
  unfoldable pub expand_items :
      List EntityType
      → (EntityType → ℕ → Bool)
      → List (LiveExecution F)
      → List ItemRef
      → List ItemRef
      → Resolved (List ItemRef)
  unfolding resolve_item expand_item put_items
  expand_items allowed exists lives [] out = item out
  expand_items allowed exists lives (ref ∷ refs) out =
      elim (resolve_item allowed exists lives ref) [
        | failed error ↦ failed error
        | item resolved ↦
            expand_items allowed exists lives refs (put_items (expand_item lives resolved) out)
      ]
