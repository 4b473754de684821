-- ===== src/Fills/Writes.antt =====
-- Writing executions (`_upsert_execution`, `_retag_combo_legs` of src/services/fill_ingest.py).
use ngv_trader.Prelude.{
  ℕ, ◌+◌, Bool, true, false, not, ◌&&◌, Option, none, some, List, [], ◌∷◌, ◌++◌, any, filter, find?,
  Text, text, text_eq, option_eq, ◌==◌, if◌then◌else◌,
}
use ngv_trader.Settle.Rows.{ExecRole, is_combo_summary}
use ngv_trader.Fills.Rows.{
  Books, Execution, ParentTrade, NormalizedFill, FillSource, Payload, exec_role_of,
}
use ngv_trader.Fills.ExecId.{parse_exec_id}
pub mod Ids
pub mod Laws

abbrev pub count_of : Bool → ℕ
count_of true = 1
count_of false = 0

abbrev pub as_leg : ExecRole → ExecRole
as_leg ExecRole.standalone = ExecRole.leg
as_leg ExecRole.leg = ExecRole.leg
as_leg ExecRole.combo_summary = ExecRole.combo_summary

module _ {F : Type 0} where
  abbrev pub has_exec_id : Text → Execution F → Bool
  has_exec_id ib_exec_id row = text_eq ib_exec_id row.ib_exec_id

  -- `INSERT ... ON CONFLICT (ib_exec_id) DO UPDATE`: the row is put at the end, or the row that has
  -- its id is updated. Answers whether it was put.
  unfoldable pub upsert :
      Execution F → (Execution F → Execution F) → List (Execution F) → Bool × List (Execution F)
  upsert row update [] = (true, row ∷ [])
  upsert row update (old ∷ rows) =
      let (inserted, rest) = upsert row update rows in
      if has_exec_id row.ib_exec_id old then (false, update old ∷ rows) else (inserted, old ∷ rest)

  -- The id of a row is drawn before the conflict is seen.
  unfoldable pub write_row : Execution F → (Execution F → Execution F) → Books F → Bool × Books F
  unfolding upsert
  write_row row update books =
      let (inserted, executions) = upsert row update books.executions in
      (
        inserted,
        record books { executions = executions; next_execution_id = books.next_execution_id + 1 },
      )

  unfoldable pub execution_of : ℕ → ℕ → ℕ → NormalizedFill F → FillSource → ℕ → Execution F
  unfolding parse_exec_id exec_role_of
  execution_of id account_id trade_id fill source now =
      let (exec_id_base, exec_revision) = parse_exec_id fill.ib_exec_id in
      record {
        id = id;
        trade_id = trade_id;
        account_id = account_id;
        ib_exec_id = fill.ib_exec_id;
        exec_id_base = exec_id_base;
        exec_revision = exec_revision;
        ib_perm_id = fill.ib_perm_id;
        ib_order_id = fill.ib_order_id;
        order_ref = fill.order_ref;
        sec_type = fill.sec_type;
        con_id = fill.con_id;
        exec_role = exec_role_of fill;
        executed_at = fill.executed_at;
        quantity = fill.quantity;
        price = fill.price;
        side = fill.side;
        exchange = fill.exchange;
        currency = fill.currency;
        liquidity = fill.liquidity;
        commission = fill.commission;
        is_canonical = true;
        data_source = source.name;
        flex_transaction_id = fill.flex_transaction_id;
        raw = fill.raw;
        fetched_at = now;
        created_at = now;
        updated_at = now;
      }

  -- The `set_` of the statement.
  unfoldable pub overwritten : ℕ → NormalizedFill F → FillSource → ℕ → Execution F → Execution F
  unfolding exec_role_of
  overwritten trade_id fill source now row = record row {
    trade_id = trade_id;
    quantity = fill.quantity;
    price = fill.price;
    commission = fill.commission;
    sec_type = fill.sec_type;
    con_id = fill.con_id;
    exec_role = exec_role_of fill;
    data_source = source.name;
    flex_transaction_id = fill.flex_transaction_id;
    raw = fill.raw;
    fetched_at = now;
    updated_at = now;
  }

  -- The base of the fill's id, whether the row is new, and the books.
  unfoldable pub upsert_execution :
      ℕ → ℕ → NormalizedFill F → FillSource → ℕ → Books F → (Text × Bool) × Books F
  unfolding write_row execution_of overwritten
  upsert_execution account_id trade_id fill source now books =
      let row = execution_of books.next_execution_id account_id trade_id fill source now in
      let (inserted, books) = write_row row (overwritten trade_id fill source now) books in
      ((row.exec_id_base, inserted), books)

  abbrev is_fill_of : ℕ → Execution F → Bool
  is_fill_of trade_id ex = ex.trade_id == trade_id

  unfoldable pub retag_fills : ℕ → List (Execution F) → List (Execution F)
  retag_fills trade_id [] = []
  retag_fills trade_id (ex ∷ rows) =
      (if is_fill_of trade_id ex then record ex { exec_role = as_leg ex.exec_role } else ex)
      ∷ retag_fills trade_id rows

  unfoldable pub mark_bag : ℕ → List (ParentTrade F) → List (ParentTrade F)
  mark_bag trade_id [] = []
  mark_bag trade_id (t ∷ trades) =
      (if t.id == trade_id then record t { sec_type = some (text "BAG") } else t)
      ∷ mark_bag trade_id trades

  unfoldable pub has_summary : ℕ → List (Execution F) → Bool
  has_summary trade_id rows =
      any (λ ex. is_combo_summary ex.exec_role) (filter (is_fill_of trade_id) rows)

  unfoldable pub retag_trade : ℕ → Books F → Books F
  unfolding has_summary retag_fills mark_bag
  retag_trade trade_id books =
      if has_summary trade_id books.executions
      then record books {
        trades = mark_bag trade_id books.trades;
        executions = retag_fills trade_id books.executions;
      }
      else books

  unfoldable pub retag_combo_legs : List ℕ → Books F → Books F
  unfolding retag_trade
  retag_combo_legs [] books = books
  retag_combo_legs (trade_id ∷ trade_ids) books =
      retag_combo_legs trade_ids (retag_trade trade_id books)
