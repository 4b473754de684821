-- ===== src/Order/Fetch/Run/Laws.antt =====
-- What a fetch leaves in the tables and how it counts.
use ngv_trader.Prelude.{
  ℕ, ◌+◌, ◌≡◌, ◌≤◌, refl, sym, ap, ◌∙◌, subst, inl, inr, Bool, true, false, Bool-cases, Option,
  none, some, Option-cases, List, [], ◌∷◌, ◌++◌, Text, length, length-append, find?, text_eq, All,
  All-among, All-append, FloatOps, ◌==◌, arith,
}
use ngv_trader.Order.Model.{Order, Work, Result, ok, err}
use ngv_trader.Order.Queue.Laws.{IsStamped}
use ngv_trader.Order.Create.Laws.{Result-cases}
use ngv_trader.Order.Fetch.Rows.{BrokerOrder, SyncTables}
use ngv_trader.Order.Fetch.Match.{find_matching_order, collect_recent_trades}
use ngv_trader.Order.Fetch.Match.Laws.{find_matching_order-Among, find_matching_order_last}
use ngv_trader.Order.Fetch.Fields.{safe_quantity, order_of_trade}
use ngv_trader.Order.Fetch.Sync.{sync_trade_onto_order}
use ngv_trader.Order.Fetch.Sync.Laws.{one_if, HasQuantity, sync_trade_onto_order_finite}
use ngv_trader.Order.Fetch.Run.{
  SyncCounts, add_synced_order, ensure_order_account, account_code_of, put_order,
  create_order_from_trade, created, updated_if, sync_trade, sync_trades, sync_orders,
}

updated_if_counts :
    (b : Bool) (c : SyncCounts)
    → (updated_if b c).updated_orders_count ≡ c.updated_orders_count + one_if b
updated_if_counts true c = refl
updated_if_counts false c = omega arith

one_if_le : (b : Bool) → one_if b ≤ 1
one_if_le true = omega arith
one_if_le false = omega arith

module _ {F : Type 0} where
  put_order-length : (o : Order F) (os : List (Order F)) → length (put_order o os) ≡ length os
  unfolding put_order
  put_order-length o [] = refl
  put_order-length o (p ∷ os) = omega (arith, put_order-length o os)

  put_order-All :
      (P : Order F → Type 0) (o : Order F) (os : List (Order F))
      → P o
      → All P os
      → All P (put_order o os)
  unfolding put_order
  put_order-All P o [] h hs = tt
  put_order-All P o (p ∷ os) h hs = elim (Bool-cases (p.id == o.id)) [
    | inl e ↦ rw e (h, put_order-All P o os h hs.1)
    | inr e ↦ rw e (hs.0, put_order-All P o os h hs.1)
  ]

  ensure_order_account-orders :
      (code : Text) (db : SyncTables F)
      → ((ensure_order_account code db).1.orders ≡ db.orders)
        × ((ensure_order_account code db).1.events ≡ db.events)
  unfolding ensure_order_account
  ensure_order_account-orders code db =
      elim (Option-cases (find? (λ a. text_eq a.account code) db.accounts)) [
        | inl e ↦ rw (ensure_order_account, e) (refl, refl)
        | inr (a, e) ↦ rw (ensure_order_account, e) (refl, refl)
      ]

  -- The end of a run that began with the counts and the tables, over some trades.
  pub record IsFetched (trades : ℕ) (c : SyncCounts) (db : SyncTables F)
      (p : Result SyncCounts × SyncTables F) : Type 0 where
    pub counts : SyncCounts
    pub returned : p.0 ≡ ok counts
    pub fetched : counts.fetched_trades_count ≡ c.fetched_trades_count
    pub orders_created :
        length p.1.orders + c.created_orders_count ≡ length db.orders + counts.created_orders_count
    pub one_event_each :
        length p.1.events + (c.created_orders_count + c.updated_orders_count)
        ≡ length db.events + (counts.created_orders_count + counts.updated_orders_count)
    pub at_most_trades :
        counts.created_orders_count + counts.updated_orders_count
        ≤ trades + (c.created_orders_count + c.updated_orders_count)
    pub all_stamped : All IsStamped p.1.orders

  module _ ⦃fl : FloatOps F⦄ (rounded : F → Option ℕ) (now : ℕ) where
    order_of_trade-IsStamped :
        (id account_id : ℕ) (t : BrokerOrder F) (n : ℕ)
        → IsStamped (order_of_trade now id account_id t n)
    unfolding order_of_trade
    order_of_trade-IsStamped id account_id t n = record {
      submitted_stamped = λ e. rw e refl;
      terminal_stamped = λ e. rw e refl;
    }

    add_synced_order-IsFetched :
        (t : BrokerOrder F) (order : Order F) (c : SyncCounts) (db db1 : SyncTables F)
        → db1.orders ≡ db.orders
        → db1.events ≡ db.events
        → IsStamped order
        → All IsStamped db.orders
        → IsFetched 1 c db (ok (created c), add_synced_order now t order db1)
    unfolding add_synced_order
    add_synced_order-IsFetched t order c db db1 same_orders same_events s h = record {
      counts = created c;
      returned = refl;
      fetched = refl;
      orders_created = omega (arith, length-append db1.orders (order ∷ []), ap length same_orders);
      one_event_each = omega (arith, length-append db1.events (_ ∷ []), ap length same_events);
      at_most_trades = omega arith;
      all_stamped =
          All-append IsStamped db1.orders (order ∷ []) (subst (All IsStamped) (sym same_orders) h)
            (s, tt);
    }

    -- The table after the creation of an order with a quantity.
    abbrev created_tables : BrokerOrder F → ℕ → SyncTables F → SyncTables F
    created_tables t n db =
        let (account_id, db1) = ensure_order_account (account_code_of t.account) db in
        add_synced_order now t (order_of_trade now db1.next_order_id account_id t n) db1

    create_order_from_trade_finite :
        (t : BrokerOrder F) (n : ℕ) (db : SyncTables F)
        → safe_quantity rounded t.total_quantity ≡ some n
        → create_order_from_trade rounded now t db ≡ (ok tt, created_tables t n db)
    unfolding create_order_from_trade
    create_order_from_trade_finite t n db e = rw (create_order_from_trade, e) refl

    -- What the loop makes of a creation.
    abbrev after_creation :
        SyncCounts → Result (Unit {0}) × SyncTables F → Result SyncCounts × SyncTables F
    after_creation c p = elim p.0 [ err e ↦ (err e, p.1) | ok _ ↦ (ok (created c), p.1) ]

    sync_trade_new :
        (t : BrokerOrder F) (n : ℕ) (c : SyncCounts) (db : SyncTables F)
        → find_matching_order t.trade db.orders ≡ none
        → safe_quantity rounded t.total_quantity ≡ some n
        → sync_trade rounded now t c db ≡ (ok (created c), created_tables t n db)
    unfolding sync_trade
    sync_trade_new t n c db e q =
        let unmatched : sync_trade rounded now t c db
            ≡ after_creation c (create_order_from_trade rounded now t db) =
          rw (sync_trade, e) refl in
        unmatched ∙ ap (after_creation c) (create_order_from_trade_finite t n db q)

    created_tables-IsFetched :
        (t : BrokerOrder F) (n : ℕ) (c : SyncCounts) (db : SyncTables F)
        → All IsStamped db.orders
        → IsFetched 1 c db (ok (created c), created_tables t n db)
    created_tables-IsFetched t n c db h =
        let (account_id, db1) = ensure_order_account (account_code_of t.account) db in
        let (same_orders, same_events) =
          ensure_order_account-orders (account_code_of t.account) db in
        add_synced_order-IsFetched t (order_of_trade now db1.next_order_id account_id t n) c db db1
          same_orders same_events (order_of_trade-IsStamped db1.next_order_id account_id t n) h

    sync_trade-IsFetched :
        (t : BrokerOrder F) (c : SyncCounts) (db : SyncTables F)
        → HasQuantity rounded t
        → All IsStamped db.orders
        → IsFetched 1 c db (sync_trade rounded now t c db)
    unfolding sync_trade
    sync_trade-IsFetched t c db q h = elim (Option-cases (find_matching_order t.trade db.orders)) [
      | inl e ↦
          subst (IsFetched 1 c db) (sym (sync_trade_new t q.0 c db e q.1))
            (created_tables-IsFetched t q.0 c db h)
      | inr (o, e) ↦
          let w : Work F = record { order = o; events = db.events } in
          let s =
            sync_trade_onto_order_finite rounded now t w q (
              All-among IsStamped o db.orders h
                (find_matching_order-Among t.trade db.orders o e)) in
          let after = (sync_trade_onto_order rounded now t w).1 in
          rw (sync_trade, e, s.returned)
            (record {
              counts = updated_if s.changed c;
              returned = refl;
              fetched = refl;
              orders_created =
                  ap (λ n. n + c.created_orders_count) (put_order-length after.order db.orders);
              one_event_each = omega (arith, s.logged, updated_if_counts s.changed c);
              at_most_trades = omega (arith, one_if_le s.changed, updated_if_counts s.changed c);
              all_stamped = put_order-All IsStamped after.order db.orders s.order_at.stamped h;
            })
    ]

    sync_trades-IsFetched :
        (ts : List (BrokerOrder F)) (c : SyncCounts) (db : SyncTables F)
        → All (HasQuantity rounded) ts
        → All IsStamped db.orders
        → IsFetched (length ts) c db (sync_trades rounded now ts c db)
    unfolding sync_trades
    sync_trades-IsFetched [] c db q h = record {
      counts = c;
      returned = refl;
      fetched = refl;
      orders_created = refl;
      one_event_each = refl;
      at_most_trades = omega arith;
      all_stamped = h;
    }
    sync_trades-IsFetched (t ∷ ts) c db q h =
        let first = sync_trade-IsFetched t c db q.0 h in
        let after = (sync_trade rounded now t c db).1 in
        let rest = sync_trades-IsFetched ts first.counts after q.1 first.all_stamped in
        rw (sync_trades, first.returned)
          (record {
            counts = rest.counts;
            returned = rest.returned;
            fetched = rest.fetched ∙ first.fetched;
            orders_created = omega (arith, first.orders_created, rest.orders_created);
            one_event_each = omega (arith, first.one_event_each, rest.one_event_each);
            at_most_trades = omega (arith, first.at_most_trades, rest.at_most_trades);
            all_stamped = rest.all_stamped;
          })

    -- A fetch over orders whose stamps fit their status does not raise, if every merged trade has a
    -- quantity that can be rounded. It counts the merged trades, as created exactly the orders by
    -- which the table grows, appends one event for each created and each updated order and none
    -- otherwise, counts at most one of the two for a trade, and leaves every order with the stamps of
    -- its status.
    pub sync_orders-IsFetched :
        (open_trades all_open_trades completed : List (BrokerOrder F)) (db : SyncTables F)
        → All (HasQuantity rounded) (collect_recent_trades open_trades all_open_trades completed)
        → All IsStamped db.orders
        → let n = length (collect_recent_trades open_trades all_open_trades completed) in
          IsFetched n
            (record {
              fetched_trades_count = n;
              created_orders_count = 0;
              updated_orders_count = 0;
            })
            db
            (sync_orders rounded now open_trades all_open_trades completed db)
    unfolding sync_orders
    sync_orders-IsFetched open_trades all_open_trades completed db q h =
        sync_trades-IsFetched (collect_recent_trades open_trades all_open_trades completed) _ db q h

    created_tables-find_matching_order :
        (t : BrokerOrder F) (n : ℕ) (db : SyncTables F)
        → find_matching_order t.trade db.orders ≡ none
        → (order : Order F) × ((created_tables t n db).orders ≡ db.orders ++ order ∷ [])
          × (find_matching_order t.trade (created_tables t n db).orders ≡ some order)
    unfolding add_synced_order order_of_trade
    created_tables-find_matching_order t n db h =
        let (account_id, db1) = ensure_order_account (account_code_of t.account) db in
        let same = (ensure_order_account-orders (account_code_of t.account) db).0 in
        let order = order_of_trade now db1.next_order_id account_id t n in
        let self : (t.trade.perm_id == t.trade.perm_id) ≡ true = ground arith in
        (
          order,
          ap (λ os. os ++ order ∷ []) same,
          ap (λ os. find_matching_order t.trade (os ++ order ∷ [])) same
              ∙ find_matching_order_last t.trade db.orders order h self,
        )

    -- If a trade that matched no order has created one, then in the tables after its creation the
    -- trade is matched with that order, the last one, and a sync of the same trade with those tables
    -- creates no further order, its quantity being such that it can be rounded.
    pub create_order_from_trade-find_matching_order :
        (t : BrokerOrder F) (c : SyncCounts) (db after : SyncTables F)
        → find_matching_order t.trade db.orders ≡ none
        → HasQuantity rounded t
        → create_order_from_trade rounded now t db ≡ (ok tt, after)
        → ((order : Order F) × (after.orders ≡ db.orders ++ order ∷ [])
            × (find_matching_order t.trade after.orders ≡ some order))
          × (length (sync_trade rounded now t c after).1.orders ≡ length after.orders)
    unfolding sync_trade
    create_order_from_trade-find_matching_order t c db after h q e =
        let made : created_tables t q.0 db ≡ after =
          cc (e, create_order_from_trade_finite t q.0 db q.1) in
        let (order, added, found) : (order : Order F) × (after.orders ≡ db.orders ++ order ∷ [])
            × (find_matching_order t.trade after.orders ≡ some order) =
          subst
            (λ (x : SyncTables F).
              (order : Order F) × (x.orders ≡ db.orders ++ order ∷ [])
              × (find_matching_order t.trade x.orders ≡ some order))
            made (created_tables-find_matching_order t q.0 db h) in
        ((order, added, found), again order found)
      where
        again :
            (order : Order F)
            → find_matching_order t.trade after.orders ≡ some order
            → length (sync_trade rounded now t c after).1.orders ≡ length after.orders
        again order m =
            let w : Work F = record { order = order; events = after.events } in
            elim (Result-cases (sync_trade_onto_order rounded now t w).0) [
              | inl (changed, r) ↦ rw (sync_trade, m, r) (put_order-length _ after.orders)
              | inr (x, r) ↦ rw (sync_trade, m, r) (put_order-length _ after.orders)
            ]
