-- ===== src/Tests/Fetches.antt =====
-- A fetch: one broker order that is known by its permanent id, and one that is new.
use ngv_trader.Prelude.{
  ℕ, ◌≡◌, Option, All, ◌+◌, ◌/◌, refl, true, false, none, some, List, [], ◌∷◌, ◌++◌, length, Text,
  text, absent, number,
}
use ngv_trader.Tests.{whole_floats}
use ngv_trader.Order.Status.{OrderStatus}
use ngv_trader.Order.Model.{Order, Work, Error, ok, err}
use ngv_trader.Order.Queue.Laws.{IsStamped}
use ngv_trader.Order.Fetch.Rows.{BrokerOrder, SyncTables}
use ngv_trader.Order.Fetch.Match.{find_matching_order, collect_recent_trades}
use ngv_trader.Order.Fetch.Fields.{safe_quantity}
use ngv_trader.Order.Fetch.Sync.{sync_trade_onto_order}
use ngv_trader.Order.Fetch.Sync.Laws.{HasQuantity}
use ngv_trader.Order.Fetch.Run.{SyncCounts, sync_orders, sync_trade, create_order_from_trade}
use ngv_trader.Order.Fetch.Run.Laws.{
  IsFetched, sync_orders-IsFetched, create_order_from_trade-find_matching_order,
}

abbrev same_number : ℕ → Option ℕ
same_number n = some n

abbrev known : Order ℕ
known = record {
  id = 1;
  account_id = 7;
  symbol = text "CL";
  sec_type = text "FUT";
  exchange = text "NYMEX";
  currency = text "USD";
  side = text "BUY";
  quantity = 2;
  order_type = text "MKT";
  limit_price = none;
  tif = text "DAY";
  status = OrderStatus.submitted;
  source = text "ui";
  con_id = none;
  local_symbol = none;
  trading_class = none;
  contract_month = none;
  contract_expiry = none;
  ib_order_id = some 4;
  ib_perm_id = some 900;
  filled_quantity = 0;
  avg_fill_price = none;
  last_error = none;
  request_text = none;
  submitted_at = some 50;
  completed_at = none;
  created_at = 40;
  updated_at = 50;
}

abbrev broker_order : ℕ → ℕ → Text → BrokerOrder ℕ
broker_order order_id perm_id status = record {
  trade = record {
    contract = record { con_id = 50; local_symbol = []; trading_class = []; last_trade_date = [] };
    order_ref = none;
    order_id = order_id;
    perm_id = perm_id;
    status = some status;
    avg_fill_price = number 70;
    filled = some 2;
    remaining = 0;
  };
  symbol = text "cl";
  sec_type = text "FUT";
  exchange = text "NYMEX";
  currency = text "USD";
  account = text " U1 ";
  action = some (text "BUY");
  total_quantity = number 2;
  order_type = text "MKT";
  lmt_price = number 0;
  tif = [];
}

abbrev tables : SyncTables ℕ
tables = record {
  accounts = [];
  orders = known ∷ [];
  events = [];
  next_account_id = 8;
  next_order_id = 2;
}

abbrev open_orders : List (BrokerOrder ℕ)
open_orders = broker_order 11 900 (text "Filled") ∷ broker_order 12 901 (text "Submitted") ∷ []

known-IsStamped : IsStamped known
known-IsStamped = record { submitted_stamped = λ _. refl; terminal_stamped = λ e. cc e }

abbrev filled_order : BrokerOrder ℕ
filled_order = broker_order 11 900 (text "Filled")

abbrev known_work : Work ℕ
known_work = record { order = known; events = [] }

-- A quantity that is not finite: the fetch ends at the first such trade.
abbrev never_finite : ℕ → Option ℕ
never_finite n = none

infinite_raises :
    (sync_trade_onto_order never_finite 60 filled_order known_work).0 ≡ err Error.not_finite
unfolding sync_trade_onto_order ngv_trader.Order.Worker.parse_float
infinite_raises = refl

has_quantity :
    (order_id perm_id : ℕ) (status : Text)
    → HasQuantity same_number (broker_order order_id perm_id status)
unfolding safe_quantity ngv_trader.Order.Worker.parse_float
has_quantity order_id perm_id status = (2, refl)

merged-HasQuantity :
    All (HasQuantity same_number) (collect_recent_trades open_orders open_orders [])
unfolding collect_recent_trades ngv_trader.Prelude.text_eq
merged-HasQuantity =
    (has_quantity 11 900 (text "Filled"), (has_quantity 12 901 (text "Submitted"), tt))

sync_orders-IsFetched_example :
    let n = length (collect_recent_trades open_orders open_orders []) in
    IsFetched n
      (record { fetched_trades_count = n; created_orders_count = 0; updated_orders_count = 0 })
      tables
      (sync_orders same_number 60 open_orders open_orders [] tables)
sync_orders-IsFetched_example =
    sync_orders-IsFetched same_number 60 open_orders open_orders [] tables merged-HasQuantity
      (known-IsStamped, tt)

abbrev new_order : BrokerOrder ℕ
new_order = record (broker_order 12 901 (text "Submitted")) { symbol = text "ES" }

abbrev no_counts : SyncCounts
no_counts = record { fetched_trades_count = 1; created_orders_count = 0; updated_orders_count = 0 }

abbrev tables_after : SyncTables ℕ
tables_after = (create_order_from_trade same_number 60 new_order tables).1

new_order-creates : create_order_from_trade same_number 60 new_order tables ≡ (ok tt, tables_after)
unfolding create_order_from_trade safe_quantity ngv_trader.Order.Worker.parse_float
new_order-creates = refl

new_order-HasQuantity : HasQuantity same_number new_order
unfolding safe_quantity ngv_trader.Order.Worker.parse_float
new_order-HasQuantity = (2, refl)

no_match : find_matching_order new_order.trade tables.orders ≡ none
unfolding find_matching_order
no_match = refl

create_order_from_trade-find_matching_order_example :
    ((order : Order ℕ) × (tables_after.orders ≡ tables.orders ++ order ∷ [])
      × (find_matching_order new_order.trade tables_after.orders ≡ some order))
    × (length (sync_trade same_number 60 new_order no_counts tables_after).1.orders
        ≡ length tables_after.orders)
create_order_from_trade-find_matching_order_example =
    create_order_from_trade-find_matching_order same_number 60 new_order no_counts tables
      tables_after no_match new_order-HasQuantity new_order-creates

-- Orders that were entered by hand have no number of a session: the client gives them 0.
abbrev manual_orders : List (BrokerOrder ℕ)
manual_orders = broker_order 0 900 (text "Submitted") ∷ broker_order 0 901 (text "Submitted") ∷ []

-- The second of two such orders is taken for the first one.
manual_orders_meet :
    (sync_orders same_number 60 manual_orders [] [] (record tables { orders = [] })).0
    ≡ ok (record { fetched_trades_count = 2; created_orders_count = 1; updated_orders_count = 1 })
unfolding sync_orders safe_quantity ngv_trader.Order.Worker.normalize_ib_status
    ngv_trader.Prelude.text_eq ngv_trader.Prelude.lower
    ngv_trader.Order.Status.can_transition_order_status
    ngv_trader.Order.Queue.transition_order_status ngv_trader.Order.Worker.parse_float
    ngv_trader.Order.Worker.filled_of
manual_orders_meet = refl
