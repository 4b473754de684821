-- ===== src/Tests/Orders.antt =====
-- Orders: a queue of three, of which the broker has one open.
use ngv_trader.Prelude.{ℕ, ◌≡◌, refl, Option, none, some, List, [], ◌∷◌, text, number, ◌+◌}
use ngv_trader.Prelude.Int.{pos}
use ngv_trader.Tests.{whole_floats}
use ngv_trader.Order.Status.{OrderStatus}
use ngv_trader.Order.Model.{Order, Work, err, not_qualified, order_reconciled}
use ngv_trader.Order.Broker.{Trade}
use ngv_trader.Order.Queue.Laws.{IsStamped}
use ngv_trader.Order.Reference.{make_order_ref, parse_order_ref}
use ngv_trader.Order.Reference.Laws.{parse_order_ref-make_order_ref}
use ngv_trader.Order.Worker.{apply_trade_progress, normalize_ib_status, filled_of}
use ngv_trader.Order.Worker.Laws.{Lands, apply_trade_progress-Lands}
use ngv_trader.Order.Process.{process_order}
use ngv_trader.Order.Process.Laws.{HasFailed, process_order-HasFailed}
use ngv_trader.Order.Reconcile.{reconcile_orders}
use ngv_trader.Order.Reconcile.Laws.{Finishes, reconcile_orders-Finishes}

abbrev order_of : ℕ → OrderStatus → Option ℕ → Order ℕ
order_of id status submitted_at = record {
  id = id;
  account_id = 7;
  symbol = text "CL";
  sec_type = text "FUT";
  exchange = text "NYMEX";
  currency = text "USD";
  side = text "BUY";
  quantity = 2;
  order_type = text "LMT";
  limit_price = some 70;
  tif = text "DAY";
  status = status;
  source = text "ui";
  con_id = none;
  local_symbol = none;
  trading_class = none;
  contract_month = none;
  contract_expiry = none;
  ib_order_id = none;
  ib_perm_id = none;
  filled_quantity = 0;
  avg_fill_price = none;
  last_error = none;
  request_text = none;
  submitted_at = submitted_at;
  completed_at = none;
  created_at = 100 + id;
  updated_at = 100;
}

abbrev sent : Order ℕ
sent = order_of 1 OrderStatus.submitted (some 100)

abbrev waiting : Order ℕ
waiting = order_of 2 OrderStatus.queued none

abbrev taken : Order ℕ
taken = order_of 3 OrderStatus.submitting none

-- The broker reports order 1 as filled.
abbrev filled_trade : Trade ℕ
filled_trade = record {
  contract = record {
    con_id = 55;
    local_symbol = text "CLZ6";
    trading_class = text "CL";
    last_trade_date = text "20261120";
  };
  order_ref = some (text "ngtrader-order-1");
  order_id = 11;
  perm_id = 12;
  status = some (text "Filled");
  avg_fill_price = number 70;
  filled = some 2;
  remaining = 0;
}

sent-IsStamped : IsStamped sent
sent-IsStamped = record { submitted_stamped = λ _. refl; terminal_stamped = λ h. cc }

waiting-IsStamped : IsStamped waiting
waiting-IsStamped = record { submitted_stamped = λ h. cc; terminal_stamped = λ h. cc }

taken-IsStamped : IsStamped taken
taken-IsStamped = record { submitted_stamped = λ h. cc; terminal_stamped = λ h. cc }

abbrev pub queue : List (Order ℕ)
queue = sent ∷ waiting ∷ taken ∷ []

abbrev trades : List (Trade ℕ)
trades = filled_trade ∷ []

reconcile_orders-Finishes_example : Finishes trades queue (reconcile_orders 900 trades queue [])
reconcile_orders-Finishes_example =
    reconcile_orders-Finishes 900 trades queue []
      (sent-IsStamped, (waiting-IsStamped, (taken-IsStamped, tt)))

abbrev work : Work ℕ
work = record { order = taken; events = [] }

process_order-HasFailed_example :
    HasFailed
      (process_order 900 (λ _. some (text "U1")) (λ o. err (not_qualified o.symbol)) [] work)
process_order-HasFailed_example =
    process_order-HasFailed 900 (λ _. some (text "U1")) (λ o. err (not_qualified o.symbol)) [] work
      refl

apply_trade_progress-Lands_example :
    Lands (normalize_ib_status (some (text "Filled")) (filled_of filled_trade)) (
      apply_trade_progress 900 filled_trade order_reconciled "Reconciled"
        (record { order = sent; events = [] }))
apply_trade_progress-Lands_example =
    apply_trade_progress-Lands 900 filled_trade order_reconciled "Reconciled"
      (record { order = sent; events = [] }) sent-IsStamped

parse_order_ref-make_order_ref_example : parse_order_ref (some (make_order_ref 40)) ≡ some (pos 40)
parse_order_ref-make_order_ref_example = parse_order_ref-make_order_ref 40
