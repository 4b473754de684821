-- ===== src/Tests/Ingests.antt =====
-- Ingests: two fills of one order, a corrected execution and a spread.
use ngv_trader.Prelude.{
  ℕ, ◌≡◌, ◌≤◌, ◌+◌, ◌/◌, refl, Bool, true, false, none, some, List, [], ◌∷◌, ◌++◌, length, Text,
  text, filter, arith,
}
use ngv_trader.Prelude.Int.{pos}
use ngv_trader.Tests.{whole_floats}
use ngv_trader.Order.Reference.{to_text}
use ngv_trader.Settle.Rows.{ExecRole}
use ngv_trader.Fills.Rows.{Books, Execution, NormalizedFill, reported, flex_source, tws_source}
use ngv_trader.Fills.ExecId.{parse_exec_id}
use ngv_trader.Order.Reference.Laws.{padded}
use ngv_trader.Fills.ExecId.Laws.{parse_exec_id-append}
use ngv_trader.Fills.Canonical.{enforce_canonical_flags}
use ngv_trader.Fills.Canonical.Flags.{IsEnforced, enforce_canonical_flags-IsEnforced}
use ngv_trader.Fills.Combo.{combo_qty_of, whole_sizes}
use ngv_trader.Fills.Combo.Laws.{IsGreatest, combo_qty_of-IsGreatest}
use ngv_trader.Fills.Writes.Laws.{ids_of}
use ngv_trader.Fills.Ingest.{ingest_fills, updated}
use ngv_trader.Fills.Ingest.Laws.{IsIngested, ingest_fills-IsIngested}
use ngv_trader.Fills.Ingest.Again.{ingest_fills_again}

abbrev no_books : Books ℕ
no_books = record {
  accounts = [];
  trades = [];
  executions = [];
  next_account_id = 1;
  next_trade_id = 1;
  next_execution_id = 1;
}

abbrev fill_of : Text → ℕ → NormalizedFill ℕ
fill_of ib_exec_id quantity = record {
  account_code = text "U1";
  ib_exec_id = ib_exec_id;
  executed_at = 86500;
  quantity = quantity;
  price = 3;
  side = some (text "BUY");
  symbol = some (text "CL");
  sec_type = some (text "FUT");
  con_id = some 50;
  exchange = none;
  currency = some (text "USD");
  commission = some 1;
  raw = reported none none;
  ib_perm_id = some (pos 9);
  ib_order_id = none;
  order_ref = none;
  liquidity = none;
  flex_transaction_id = none;
  combo_key = none;
  combo_underlying = none;
  is_combo_summary = false;
}

abbrev leg_of : Text → ℕ → NormalizedFill ℕ
leg_of ib_exec_id quantity = record (fill_of ib_exec_id quantity) {
  combo_key = some (text "77");
  combo_underlying = some (text "CL");
}

abbrev plain_fills : List (NormalizedFill ℕ)
plain_fills = fill_of (text "e1.01") 4 ∷ fill_of (text "e1.02") 5 ∷ []

abbrev spread_fills : List (NormalizedFill ℕ)
spread_fills = leg_of (text "a.b.02.01") 4 ∷ leg_of (text "a.b.03.01") 6 ∷ []

abbrev one_date : ℕ → Text
one_date t = text "2026-01-02"

parse_exec_id-append_example :
    parse_exec_id (text "0001.67" ++ b'.' ∷ padded 1 (to_text 2))
    ≡ (text "0001.67" ++ b'.' ∷ [], pos 2)
parse_exec_id-append_example = parse_exec_id-append (text "0001.67") 1 2

abbrev revision : ℕ → ℕ → Execution ℕ
revision id n = record {
  id = id;
  trade_id = 1;
  account_id = 7;
  ib_exec_id = text "e1.0" ++ (b'0' + n) ∷ [];
  exec_id_base = text "e1.";
  exec_revision = pos n;
  ib_perm_id = none;
  ib_order_id = none;
  order_ref = none;
  sec_type = none;
  con_id = none;
  exec_role = ExecRole.standalone;
  executed_at = 86500;
  quantity = 1;
  price = 3;
  side = none;
  exchange = none;
  currency = none;
  liquidity = none;
  commission = none;
  is_canonical = true;
  data_source = text "tws";
  flex_transaction_id = none;
  raw = reported none none;
  fetched_at = 1;
  created_at = 1;
  updated_at = 1;
}

abbrev revisions : List (Execution ℕ)
revisions = revision 4 1 ∷ revision 5 2 ∷ []

enforce_canonical_flags-IsEnforced_example :
    IsEnforced 7 (text "e1.") revisions (enforce_canonical_flags 7 (text "e1.") revisions).1
enforce_canonical_flags-IsEnforced_example =
    enforce_canonical_flags-IsEnforced 7 (text "e1.") revisions ((refl, tt), (tt, tt))

combo_qty_of-IsGreatest_example : IsGreatest (combo_qty_of some (4 ∷ 0 ∷ 6 ∷ [])) (4 ∷ 6 ∷ [])
unfolding whole_sizes
combo_qty_of-IsGreatest_example =
    combo_qty_of-IsGreatest some (4 ∷ 0 ∷ 6 ∷ []) 4 (6 ∷ []) refl (omega arith)

ingest_fills-IsIngested_example :
    let (result, after) =
      ingest_fills one_date some spread_fills flex_source 90000 false no_books in
    IsIngested spread_fills no_books result after
ingest_fills-IsIngested_example =
    ingest_fills-IsIngested one_date some spread_fills flex_source 90000 false no_books

ingest_fills_again_example :
    let once = (ingest_fills one_date some plain_fills tws_source 90000 false no_books).1 in
    let (again, twice) = ingest_fills one_date some plain_fills tws_source 90100 false once in
    (again.inserted ≡ 0) × (updated again ≡ 2) × (ids_of twice.executions ≡ ids_of once.executions)
ingest_fills_again_example =
    ingest_fills_again one_date some plain_fills tws_source 90000 90100 false no_books
      (refl, (refl, tt))

ingest_fills_spread :
    ids_of (ingest_fills one_date some spread_fills flex_source 90000 false no_books).1.executions
    ≡ text "a.b.02.01" ∷ text "a.b.03.01" ∷ text "a.b.01.01" ∷ []
unfolding ingest_fills ngv_trader.Prelude.text_eq
ingest_fills_spread = refl
