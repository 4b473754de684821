-- ===== src/Tests/Flats.antt =====
-- Flat positions: a tag of a contract that is no longer held, and one of a contract that is; and a
-- reference to one fill of an order with two.
use ngv_trader.Prelude.{ℕ, ◌≡◌, refl, Bool, true, false, none, some, List, [], ◌∷◌, Text, text}
use ngv_trader.Tests.{whole_floats}
use ngv_trader.Settle.Rows.{ExecRole, LiveExecution}
use ngv_trader.Items.Refs.{EntityType, ItemRef, LinkColumns, live_item}
use ngv_trader.Items.Links.{TagLink}
use ngv_trader.Items.Resolve.{ItemError, Resolved, expand_items}
use ngv_trader.Items.Flat.{HeldRow, SettledRow, end_flat_position_tags}
use ngv_trader.Items.Flat.Laws.{IsSwept, end_flat_position_tags-IsSwept}

abbrev held_of : ℕ → HeldRow ℕ
held_of con_id = record { account_id = 7; con_id = con_id; position = 2 }

abbrev settled_rows : List (SettledRow ℕ)
settled_rows = record { held = held_of 50; as_of_date = some 12 } ∷ []

abbrev tag_of : ℕ → TagLink
tag_of con_id = record {
  id = con_id;
  tag_id = 3;
  entity_type = EntityType.position;
  columns = record {
    trade_id = none;
    trade_group_id = none;
    task_id = none;
    strategy_id = none;
    account_id = some 7;
    con_id = some con_id;
    ib_exec_id = none;
  };
  assigned_at = 10;
  created_by = text "me";
  ended_at = none;
}

abbrev same_day : ℕ → ℕ
same_day t = t

end_flat_position_tags-IsSwept_example :
    let (ended, after) =
      end_flat_position_tags same_day 20 [] settled_rows [] (tag_of 50 ∷ tag_of 60 ∷ []) in
    IsSwept same_day [] settled_rows [] (tag_of 50 ∷ tag_of 60 ∷ []) ended after
end_flat_position_tags-IsSwept_example =
    end_flat_position_tags-IsSwept same_day 20 [] settled_rows [] (tag_of 50 ∷ tag_of 60 ∷ [])

swept :
    end_flat_position_tags same_day 20 [] settled_rows [] (tag_of 50 ∷ tag_of 60 ∷ [])
    ≡ (1, tag_of 50 ∷ record (tag_of 60) { ended_at = some 20 } ∷ [])
unfolding end_flat_position_tags
swept = refl

abbrev live_fill : Text → LiveExecution ℕ
live_fill ib_exec_id = record {
  id = 1;
  account_id = 7;
  con_id = some 50;
  ib_exec_id = ib_exec_id;
  ib_perm_id = some 99;
  ib_order_id = none;
  exec_role = ExecRole.standalone;
  sec_type = none;
  exec_time = 86500;
  quantity = 1;
  price = 3;
  side = some (text "BOT");
  realized_pnl = none;
}

abbrev live_fills : List (LiveExecution ℕ)
live_fills = live_fill (text "e1.01") ∷ live_fill (text "e2.01") ∷ []

abbrev reference_to : Text → ItemRef
reference_to ib_exec_id = record {
  entity_type = EntityType.live_execution;
  id = none;
  account_id = none;
  con_id = none;
  ib_exec_id = some ib_exec_id;
}

abbrev no_rows : EntityType → ℕ → Bool
no_rows entity_type id = false

expanded :
    expand_items
      (EntityType.live_execution ∷ [])
      no_rows
      live_fills
      (reference_to (text "e2.01") ∷ reference_to (text "e1.01") ∷ [])
      []
    ≡ Resolved.item
        (live_item (live_fill (text "e1.01")) ∷ live_item (live_fill (text "e2.01")) ∷ [])
unfolding expand_items ngv_trader.Items.Refs.link_filter ngv_trader.Items.Refs.link_columns
    ngv_trader.Prelude.text_eq
expanded = refl

missing :
    expand_items
      (EntityType.live_execution ∷ [])
      no_rows
      live_fills
      (reference_to (text "e3.01") ∷ [])
      []
    ≡ Resolved.failed ItemError.not_found
unfolding expand_items ngv_trader.Prelude.text_eq
missing = refl
