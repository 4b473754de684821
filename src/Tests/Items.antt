-- ===== src/Tests/Items.antt =====
-- Tags: a merge of two tags, and a tagged live fill that settles.
use ngv_trader.Prelude.{
  ℕ, ◌≡◌, ◌≤◌, refl, Bool, true, false, none, some, List, [], ◌∷◌, filter, Text, text, arith, inl,
  inr, Bool-cases, ◌==◌, is_none,
}
use ngv_trader.Prelude.Int.{pos}
use ngv_trader.Settle.Rows.{ExecRole}
use ngv_trader.Fills.Rows.{Execution, reported}
use ngv_trader.Items.Refs.{EntityType, ItemRef, LinkColumns, link_columns, trade_item}
use ngv_trader.Items.Links.{LinkTables, attach_tag, move_tag_links, is_of_tag}
use ngv_trader.Items.Links.Laws.{AtMostOne, attach_tag-IsAttached}
use ngv_trader.Items.Links.Moves.{move_tag_links-AtMostOne}
use ngv_trader.Items.Carry.{carry_over_item_links}

abbrev no_links : LinkTables
no_links = record { tag_links = []; task_links = []; next_tag_link_id = 1; next_task_link_id = 1 }

abbrev fill : ItemRef
fill = record {
  entity_type = EntityType.live_execution;
  id = none;
  account_id = some 7;
  con_id = some 50;
  ib_exec_id = some (text "e1.01");
}

-- Tag 3 is on a trade and on a live fill.
abbrev tagged_once : LinkTables
tagged_once = (attach_tag 10 3 (trade_item 5) (text "me") no_links).1

abbrev tagged : LinkTables
tagged = (attach_tag 20 3 fill (text "me") tagged_once).1

tagged_once-AtMostOne : AtMostOne tagged_once.tag_links
tagged_once-AtMostOne =
    (attach_tag-IsAttached 10 3 (trade_item 5) (text "me") no_links
      (λ t i. omega arith)).at_most_one

tagged-AtMostOne : AtMostOne tagged.tag_links
tagged-AtMostOne =
    (attach_tag-IsAttached 20 3 fill (text "me") tagged_once tagged_once-AtMostOne).at_most_one

move_tag_links-AtMostOne_example :
    let after = (move_tag_links 30 3 4 tagged).1.tag_links in
    AtMostOne after × (filter (is_of_tag 3) after ≡ [])
move_tag_links-AtMostOne_example = move_tag_links-AtMostOne 30 3 4 tagged refl tagged-AtMostOne

abbrev settled : Execution ℕ
settled = record {
  id = 21;
  trade_id = 6;
  account_id = 7;
  ib_exec_id = text "e1.01";
  exec_id_base = text "e1.";
  exec_revision = pos 1;
  ib_perm_id = none;
  ib_order_id = none;
  order_ref = none;
  sec_type = none;
  con_id = some 50;
  exec_role = ExecRole.standalone;
  executed_at = 86500;
  quantity = 1;
  price = 3;
  side = none;
  exchange = none;
  currency = none;
  liquidity = none;
  commission = none;
  is_canonical = true;
  data_source = text "flex";
  flex_transaction_id = none;
  raw = reported none none;
  fetched_at = 1;
  created_at = 1;
  updated_at = 1;
}

carried_count : (carry_over_item_links 40 (settled ∷ []) (text "e1.01") (21 ∷ []) tagged).0 ≡ 1
unfolding carry_over_item_links ngv_trader.Items.Refs.link_filter link_columns
    ngv_trader.Prelude.text_eq
carried_count = refl
