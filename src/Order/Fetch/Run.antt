-- ===== src/Order/Fetch/Run.antt =====
-- `sync_orders_with_ib`, without the notification of the interface.
use ngv_trader.Prelude.{
  ℕ, ◌+◌, Bool, true, false, Option, none, some, List, [], ◌∷◌, ◌++◌, find?, length, Text, text,
  text_eq, is_empty, strip, ◌==◌, FloatOps, if◌then◌else◌,
}
use ngv_trader.Order.Model.{
  Order, OrderEvent, Work, Error, Result, ok, err, synced_create, broker_order_synced_create,
}
use ngv_trader.Order.Queue.{event_of}
use ngv_trader.Fills.Rows.{Account}
use ngv_trader.Order.Fetch.Rows.{BrokerOrder, SyncTables}
use ngv_trader.Order.Fetch.Match.{find_matching_order, collect_recent_trades}
use ngv_trader.Order.Fetch.Fields.{safe_quantity, order_of_trade}
use ngv_trader.Order.Fetch.Sync.{sync_trade_onto_order}
pub mod Laws

pub record SyncCounts : Type 0 where
  pub fetched_trades_count : ℕ
  pub created_orders_count : ℕ
  pub updated_orders_count : ℕ

-- `str(getattr(trade.order, "account", "") or "").strip() or "UNKNOWN"`
unfoldable account_code_of : Text → Text
unfolding strip
account_code_of account = let code = strip account in if is_empty code then text "UNKNOWN" else code

abbrev created : SyncCounts → SyncCounts
created c = record c { created_orders_count = c.created_orders_count + 1 }

abbrev updated_if : Bool → SyncCounts → SyncCounts
updated_if changed c = record c {
  updated_orders_count = if changed then c.updated_orders_count + 1 else c.updated_orders_count;
}

module _ {F : Type 0} where
  unfoldable pub ensure_order_account : Text → SyncTables F → ℕ × SyncTables F
  ensure_order_account account_code db =
      elim (find? (λ a. text_eq a.account account_code) db.accounts) [
        | some existing ↦ (existing.id, db)
        | none ↦ (
          db.next_account_id,
          record db {
            accounts =
                db.accounts
                ++ record {
                  id = db.next_account_id;
                  account = account_code;
                  flex_query_token_id = none;
                }
                  ∷ [];
            next_account_id = db.next_account_id + 1;
          },
        )
      ]

  -- The row of the session with the id of the order.
  unfoldable pub put_order : Order F → List (Order F) → List (Order F)
  put_order order [] = []
  put_order order (o ∷ os) = (if o.id == order.id then order else o) ∷ put_order order os

  -- `session.add(order)` with its event.
  unfoldable pub add_synced_order : ℕ → BrokerOrder F → Order F → SyncTables F → SyncTables F
  unfolding event_of
  add_synced_order now t order db =
      let message = synced_create t.trade.status order.ib_order_id order.ib_perm_id in
      record db {
        orders = db.orders ++ order ∷ [];
        events = db.events ++ event_of now broker_order_synced_create message order ∷ [];
        next_order_id = db.next_order_id + 1;
      }

  module _ ⦃fl : FloatOps F⦄ (rounded : F → Option ℕ) (now : ℕ) where
    -- A quantity that is not finite raises, after the account is made.
    unfoldable pub create_order_from_trade :
        BrokerOrder F → SyncTables F → Result (Unit {0}) × SyncTables F
    unfolding ensure_order_account account_code_of safe_quantity order_of_trade add_synced_order
    create_order_from_trade t db =
        let (account_id, db) = ensure_order_account (account_code_of t.account) db in
        elim (safe_quantity rounded t.total_quantity) [
          | none ↦ (err Error.not_finite, db)
          | some quantity ↦ (
            ok tt,
            add_synced_order now t (order_of_trade now db.next_order_id account_id t quantity) db,
          )
        ]

    -- The body of the loop.
    unfoldable pub sync_trade :
        BrokerOrder F → SyncCounts → SyncTables F → Result SyncCounts × SyncTables F
    unfolding find_matching_order create_order_from_trade sync_trade_onto_order put_order
    sync_trade t counts db = elim (find_matching_order t.trade db.orders) [
      | none ↦
          let (r, after) = create_order_from_trade t db in
          elim r [ err e ↦ (err e, after) | ok _ ↦ (ok (created counts), after) ]
      | some order ↦
          let (r, w) =
            sync_trade_onto_order rounded now t (record { order = order; events = db.events }) in
          let after = record db { orders = put_order w.order db.orders; events = w.events } in
          elim r [ err e ↦ (err e, after) | ok changed ↦ (ok (updated_if changed counts), after) ]
    ]

    -- The loop: a raise ends it.
    unfoldable pub sync_trades :
        List (BrokerOrder F) → SyncCounts → SyncTables F → Result SyncCounts × SyncTables F
    unfolding sync_trade
    sync_trades [] counts db = (ok counts, db)
    sync_trades (t ∷ ts) counts db =
        let (r, after) = sync_trade t counts db in
        elim r [ err e ↦ (err e, after) | ok counts ↦ sync_trades ts counts after ]

    unfoldable pub sync_orders :
        List (BrokerOrder F)
        → List (BrokerOrder F)
        → List (BrokerOrder F)
        → SyncTables F
        → Result SyncCounts × SyncTables F
    unfolding collect_recent_trades sync_trades
    sync_orders open_trades all_open_trades completed db =
        let trades = collect_recent_trades open_trades all_open_trades completed in
        sync_trades trades
          (record {
            fetched_trades_count = length trades;
            created_orders_count = 0;
            updated_orders_count = 0;
          })
          db
