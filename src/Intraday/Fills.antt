-- ===== src/Intraday/Fills.antt =====
-- `_live_execution_values` and `_write_fills`: the upsert of live fills, keyed by `ib_exec_id`.
use ngv_trader.Prelude.{
  ℕ, ◌+◌, Bool, true, false, not, ◌&&◌, ◌||◌, Option, none, some, or_else, List, [], ◌∷◌, ◌++◌,
  find?, Text, text_eq, is_empty, strip, lookup_text, leb, ltb, FloatOps, or_zero, if◌then◌else◌,
}
use ngv_trader.Settle.Rows.{ExecRole}
use ngv_trader.Fills.Rows.{Account, Books}
use ngv_trader.Fills.Parents.{ensure_account}
use ngv_trader.Intraday.Rows.{IbFill, IbExecution, IbContract, LiveFill}
use ngv_trader.Intraday.Marks.{fill_realized_pnl}
use ngv_trader.Intraday.Roles.{exec_role_in}
pub mod Laws

-- The tables: accounts stand in the books, live fills here.
pub record LiveTables (F : Type 0) : Type 0 where
  pub books : Books F
  pub fills : List (LiveFill F)

-- An empty text is no date.
abbrev said_date : Option Text → Option Text
said_date none = none
said_date (some date) = if is_empty date then none else some date

module _ {F : Type 0} where
  -- `getattr(contract, name, None) if contract else None`
  abbrev of_contract : {A : Type 0} → (IbContract F → Option A) → IbFill F → Option A
  of_contract field fill = elim fill.contract [ none ↦ none | some contract ↦ field contract ]

  -- `set_`: all columns but the key are overwritten, and a realized profit gives way only to another.
  unfoldable pub refreshed : LiveFill F → LiveFill F → LiveFill F
  refreshed new old = record new {
    ib_exec_id = old.ib_exec_id;
    realized_pnl = or_else new.realized_pnl old.realized_pnl;
  }

  unfoldable pub upsert_fill : LiveFill F → List (LiveFill F) → List (LiveFill F)
  unfolding refreshed
  upsert_fill new [] = new ∷ []
  upsert_fill new (old ∷ fills) =
      let rest = upsert_fill new fills in
      if text_eq old.ib_exec_id new.ib_exec_id then refreshed new old ∷ fills else old ∷ rest

  -- The account's id: a code that the run has not met is looked up or made, and kept.
  unfoldable pub account_in : Text → List (Text × ℕ) → Books F → ℕ × List (Text × ℕ) × Books F
  unfolding ensure_account
  account_in code lookup books = elim (lookup_text code lookup) [
    | some id ↦ (id, lookup, books)
    | none ↦ let (id, books) = ensure_account code none books in (id, (code, id) ∷ lookup, books)
  ]

  module _ ⦃fl : FloatOps F⦄ where
    unfoldable pub live_execution_values :
        IbFill F → IbExecution F → ℕ → ℕ → ℕ → ExecRole → LiveFill F
    unfolding fill_realized_pnl
    live_execution_values fill execution account_id exec_time now exec_role = record {
      ib_exec_id = execution.exec_id;
      account_id = account_id;
      ib_perm_id = execution.perm_id;
      ib_order_id = execution.order_id;
      exec_role = exec_role;
      con_id = of_contract (λ c. c.con_id) fill;
      symbol = of_contract (λ c. c.symbol) fill;
      sec_type = of_contract (λ c. c.sec_type) fill;
      local_symbol = of_contract (λ c. c.local_symbol) fill;
      multiplier = of_contract (λ c. c.multiplier) fill;
      right = of_contract (λ c. c.right) fill;
      strike = of_contract (λ c. c.strike) fill;
      last_trade_date = said_date (of_contract (λ c. c.last_trade_date) fill);
      side = execution.side;
      quantity = or_zero execution.shares;
      price = or_zero execution.price;
      realized_pnl = fill_realized_pnl fill;
      exec_time = exec_time;
      fetched_at = now;
    }

    -- The instant of a fill that is written: it is known, and not before the window.
    unfoldable pub time_in_window : ℕ → IbExecution F → Option ℕ
    unfolding strip
    time_in_window window_start execution = elim execution.time [
      | none ↦ none
      | some exec_time ↦
          if is_empty execution.exec_id
            || ltb exec_time window_start
            || is_empty (strip execution.acct_number)
          then none
          else some exec_time
    ]

    unfoldable pub write_live_fill :
        ℕ
        → ℕ
        → List (IbFill F)
        → IbFill F
        → IbExecution F
        → ℕ
        → List (Text × ℕ)
        → LiveTables F
        → List (Text × ℕ) × LiveTables F
    unfolding account_in live_execution_values exec_role_in upsert_fill
    write_live_fill now window_start fills fill execution exec_time lookup db =
        let (account_id, lookup, books) =
          account_in (strip execution.acct_number) lookup db.books in
        let new =
          live_execution_values fill execution account_id exec_time now (exec_role_in fills fill) in
        (lookup, record { books = books; fills = upsert_fill new db.fills })

    abbrev in_window : ℕ → IbFill F → Option (IbExecution F × ℕ)
    in_window window_start fill = elim fill.execution [
      | none ↦ none
      | some execution ↦ elim (time_in_window window_start execution) [
        | none ↦ none
        | some exec_time ↦ some (execution, exec_time)
      ]
    ]

    unfoldable pub write_each :
        ℕ
        → ℕ
        → List (IbFill F)
        → List (IbFill F)
        → List (Text × ℕ)
        → LiveTables F
        → ℕ × LiveTables F
    unfolding write_live_fill time_in_window
    write_each now window_start fills [] lookup db = (0, db)
    write_each now window_start fills (fill ∷ rest) lookup db = elim (in_window window_start fill) [
      | none ↦ write_each now window_start fills rest lookup db
      | some (execution, exec_time) ↦
          let (lookup, db) =
            write_live_fill now window_start fills fill execution exec_time lookup db in
          let (written, db) = write_each now window_start fills rest lookup db in (written + 1, db)
    ]

    unfoldable pub write_live_fills :
        ℕ → ℕ → List (IbFill F) → List (Text × ℕ) → LiveTables F → ℕ × LiveTables F
    unfolding write_each
    write_live_fills now window_start fills lookup db =
        write_each now window_start fills fills lookup db
