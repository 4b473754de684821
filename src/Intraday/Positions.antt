-- ===== src/Intraday/Positions.antt =====
-- `_write_live_positions` and `_write_quotes`.
use ngv_trader.Prelude.{
  ℕ, Bool, not, Option, none, some, List, [], ◌∷◌, ◌++◌, any, filter, Text, lookup_text, ◌==◌,
  FloatOps, is_truthy, if◌then◌else◌,
}
use ngv_trader.Intraday.Rows.{IbPosition, LivePosition, Ticker, QuoteRow}
use ngv_trader.Intraday.Marks.{select_mark}

module _ {F : Type 0} ⦃fl : FloatOps F⦄ where
  abbrev other_than_zero : Option F → Option F
  other_than_zero none = none
  other_than_zero (some x) = if is_truthy x then some x else none

  unfoldable pub live_position_of : ℕ → ℕ → IbPosition F → LivePosition F
  live_position_of now account_id p = record {
    account_id = account_id;
    con_id = p.contract.con_id;
    symbol = p.contract.symbol;
    sec_type = p.contract.sec_type;
    local_symbol = p.contract.local_symbol;
    multiplier = p.contract.multiplier;
    right = p.contract.right;
    strike = other_than_zero p.contract.strike;
    position = p.position;
    avg_cost = p.avg_cost;
    fetched_at = now;
  }

  -- The rows of the positions whose account is in the lookup.
  unfoldable pub fresh_positions : ℕ → List (Text × ℕ) → List (IbPosition F) → List (LivePosition F)
  unfolding live_position_of
  fresh_positions now lookup [] = []
  fresh_positions now lookup (p ∷ positions) =
      let rest = fresh_positions now lookup positions in
      elim (lookup_text p.account lookup) [
        | none ↦ rest
        | some account_id ↦ live_position_of now account_id p ∷ rest
      ]

  abbrev is_in_scope : List (Text × ℕ) → LivePosition F → Bool
  is_in_scope lookup row = any (λ entry. entry.1 == row.account_id) lookup

  -- The rows of the accounts are replaced, the others stay.
  unfoldable pub write_live_positions :
      ℕ → List (Text × ℕ) → List (IbPosition F) → List (LivePosition F) → List (LivePosition F)
  unfolding fresh_positions
  write_live_positions now lookup positions rows =
      filter (λ row. not (is_in_scope lookup row)) rows ++ fresh_positions now lookup positions

  unfoldable pub quote_of : ℕ → ℕ → Ticker F → QuoteRow F
  unfolding select_mark
  quote_of now con_id ticker = record {
    con_id = con_id;
    bid = ticker.bid;
    ask = ticker.ask;
    last = ticker.last;
    close = ticker.close;
    mark = select_mark ticker.bid ticker.ask ticker.last ticker.close;
    market_ts = now;
    ingested_at = now;
  }

  unfoldable pub upsert_quote : QuoteRow F → List (QuoteRow F) → List (QuoteRow F)
  upsert_quote new [] = new ∷ []
  upsert_quote new (old ∷ rows) =
      let rest = upsert_quote new rows in
      if old.con_id == new.con_id then new ∷ rows else old ∷ rest

  unfoldable pub write_quotes : ℕ → List (ℕ × Ticker F) → List (QuoteRow F) → List (QuoteRow F)
  unfolding quote_of upsert_quote
  write_quotes now [] rows = rows
  write_quotes now ((con_id, ticker) ∷ tickers) rows =
      write_quotes now tickers (upsert_quote (quote_of now con_id ticker) rows)
