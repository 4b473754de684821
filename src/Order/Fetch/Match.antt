-- ===== src/Order/Fetch/Match.antt =====
-- Which trades a fetch merges and which local order a trade belongs to.
use ngv_trader.Prelude.{
  ℕ, Bool, true, false, ◌&&◌, Option, none, some, or_else, List, [], ◌∷◌, ◌++◌, any, filter, find?,
  Text, text_eq, option_eq, or_empty, leb, ◌==◌, if◌then◌else◌,
}
use ngv_trader.Prelude.Int.{ℤ, pos, negsuc}
use ngv_trader.Order.Model.{Order}
use ngv_trader.Order.Broker.{Trade}
use ngv_trader.Order.Reference.{parse_order_ref}
use ngv_trader.Order.Fetch.Rows.{BrokerOrder}
pub mod Laws

module _ {F : Type 0} where
  -- `_trade_key(a) == _trade_key(b)`
  unfoldable pub same_trade_key : BrokerOrder F → BrokerOrder F → Bool
  same_trade_key a b =
      a.trade.perm_id == b.trade.perm_id
      && a.trade.order_id == b.trade.order_id
      && text_eq (or_empty a.trade.order_ref) (or_empty b.trade.order_ref)

  -- The trades of which no earlier one has the key.
  unfoldable pub merge_new : List (BrokerOrder F) → List (BrokerOrder F) → List (BrokerOrder F)
  unfolding same_trade_key
  merge_new seen [] = []
  merge_new seen (t ∷ ts) =
      let kept = merge_new (t ∷ seen) ts in
      let skipped = merge_new seen ts in if any (same_trade_key t) seen then skipped else t ∷ kept

  -- `_collect_recent_trades`, with the answers of the three requests.
  unfoldable pub collect_recent_trades :
      List (BrokerOrder F) → List (BrokerOrder F) → List (BrokerOrder F) → List (BrokerOrder F)
  unfolding merge_new
  collect_recent_trades open_trades all_open_trades completed =
      merge_new [] (open_trades ++ all_open_trades ++ completed)

  abbrev pub fresher : Order F → Option (Order F) → Order F
  fresher o none = o
  fresher o (some p) = if leb p.updated_at o.updated_at then o else p

  -- Latest update first; of orders of one instant the table's first.
  unfoldable pub last_updated : List (Order F) → Option (Order F)
  last_updated [] = none
  last_updated (o ∷ os) = some (fresher o (last_updated os))

  abbrev pub has_perm : ℕ → Order F → Bool
  has_perm perm_id o = option_eq ◌==◌ o.ib_perm_id (some perm_id)

  abbrev pub has_order_id : ℕ → Order F → Bool
  has_order_id order_id o = option_eq ◌==◌ o.ib_order_id (some order_id)

  -- `session.get(Order, id)` with the id of a reference.
  unfoldable pub order_named : Option ℤ → List (Order F) → Option (Order F)
  order_named (some (pos n)) orders = find? (λ o. o.id == n) orders
  order_named (some (negsuc n)) orders = none
  order_named none orders = none

  -- By reference, else by the permanent id, else by the id of the session.
  unfoldable pub find_matching_order : Trade F → List (Order F) → Option (Order F)
  unfolding order_named last_updated parse_order_ref
  find_matching_order trade orders =
      or_else (order_named (parse_order_ref trade.order_ref) orders) (
        or_else (last_updated (filter (has_perm trade.perm_id) orders))
          (last_updated (filter (has_order_id trade.order_id) orders)))
