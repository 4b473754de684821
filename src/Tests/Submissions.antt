-- ===== src/Tests/Submissions.antt =====
-- Order creation and a round of the worker on concrete rows.
use ngv_trader.Prelude.{
  ℕ, ◌≡◌, refl, arith, Bool, true, false, Option, none, some, List, [], ◌∷◌, Text, text, FloatOps,
}
use ngv_trader.Prelude.Int.{pos}
use ngv_trader.Tests.{whole_floats}
use ngv_trader.Tests.Orders.{queue}
use ngv_trader.Tests.JobRows.{one_row}
use ngv_trader.Order.Model.{Result, ok, err, not_qualified}
use ngv_trader.Order.Process.{IbOrder, build_ib_order}
use ngv_trader.Order.Create.{
  OrderCreateOutcome, OrderBook, create_queued_order, order_from, add_order,
}
use ngv_trader.Order.Ticket.{OrderCreateInput, normal_form}
use ngv_trader.Order.Create.Laws.{create_queued_order-build_ib_order}
use ngv_trader.Order.Create.Outcomes.{
  Ends, Repeats, create_queued_order-Ends, create_queued_order-twice,
}
use ngv_trader.Order.Submission.{
  submit_orders, order_fetch_sync, positions_sync, enqueue_follow_ups,
}
use ngv_trader.Order.Submission.Laws.{
  Submits, submit_orders-Submits, enqueue_follow_ups-active_count,
}
use ngv_trader.Jobs.Table.Laws.{active_count}

submit_orders-Submits_example :
    Submits 20 queue
      (submit_orders 900 (λ _. some (text "U1")) (λ o. err (not_qualified o.symbol)) [] 20 queue [])
submit_orders-Submits_example =
    submit_orders-Submits 900 (λ _. some (text "U1")) (λ o. err (not_qualified o.symbol)) [] 20
      queue []

enqueue_follow_ups-active_count_example :
    let js = (enqueue_follow_ups 900 0 2 one_row).jobs in
    (active_count order_fetch_sync js ≡ 1) × (active_count positions_sync js ≡ 1)
unfolding ngv_trader.Prelude.text_eq
enqueue_follow_ups-active_count_example =
    enqueue_follow_ups-active_count 900 0 2 one_row (omega arith) (omega arith) (omega arith)

abbrev ticket : OrderCreateInput ℕ
ticket = record {
  account_id = 7;
  symbol = text " cl ";
  side = text "buy";
  quantity = pos 2;
  sec_type = text "FUT";
  exchange = text "NYMEX";
  currency = text "USD";
  order_type = text "lmt";
  limit_price = some 70;
  tif = text "DAY";
  source = text "ui";
  request_text = none;
}

abbrev empty_book : OrderBook ℕ
empty_book = record { orders = []; events = []; next_id = 1 }

abbrev account_of : ℕ → Option Text
account_of _ = some (text "U1")

abbrev first_call : Result (OrderCreateOutcome ℕ) × OrderBook ℕ
first_call = create_queued_order 100 30 account_of ticket empty_book

abbrev made : OrderCreateOutcome ℕ
made = record { order = order_from 100 1 (normal_form ticket); account = text "U1"; created = true }

abbrev book_after : OrderBook ℕ
book_after = (add_order 100 (normal_form ticket) empty_book).1

first_call_creates : first_call ≡ (ok made, book_after)
unfolding create_queued_order ngv_trader.Prelude.upper ngv_trader.Prelude.strip
    ngv_trader.Prelude.starts_with ngv_trader.Prelude.text_eq
first_call_creates = refl

create_queued_order-twice_example :
    (p : OrderCreateOutcome ℕ) × (create_queued_order 125 30 account_of ticket book_after
      ≡ (ok p, book_after))
    × (p.created ≡ false)
    × Repeats 125 30 ticket book_after p.order book_after
unfolding order_from normal_form ngv_trader.Prelude.text_eq ngv_trader.Prelude.upper
    ngv_trader.Prelude.strip
create_queued_order-twice_example =
    create_queued_order-twice 100 125 30 account_of ticket empty_book book_after made
      first_call_creates refl refl (omega arith)

create_queued_order-build_ib_order_example :
    (ib : IbOrder ℕ) × (build_ib_order made.order (text "U1") ≡ ok ib)
create_queued_order-build_ib_order_example =
    create_queued_order-build_ib_order 100 30 account_of ticket empty_book book_after made
      (text "U1") first_call_creates refl

create_queued_order-Ends_example :
    Ends 125 30 ticket book_after (create_queued_order 125 30 account_of ticket book_after)
create_queued_order-Ends_example = create_queued_order-Ends 125 30 account_of ticket book_after
