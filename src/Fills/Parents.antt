-- ===== src/Fills/Parents.antt =====
-- Accounts (src/services/sync_common.py) and the parent trade of a fill (src/services/fill_ingest.py).
use ngv_trader.Prelude.{
  ℕ, ◌+◌, Bool, true, false, ◌&&◌, Option, none, some, List, [], ◌∷◌, ◌++◌, filter, find?, Text,
  text, text_eq, option_eq, lookup_text, starts_with, is_empty, ◌==◌, FloatOps, if◌then◌else◌,
}
use ngv_trader.Prelude.Int.{ℤ, int_eq, is_positive}
use ngv_trader.Settle.Rows.{is_combo_summary}
use ngv_trader.Fills.Rows.{
  Account, Books, Execution, ParentTrade, NormalizedFill, FillSource, partial,
  brokerage_order_id_of,
}

-- `_stamp_token`: the last writer wins, and no token leaves the stamp.
unfoldable pub stamp_token : Option ℕ → Account → Account
stamp_token none account = account
stamp_token (some token) account = record account { flex_query_token_id = some token }

-- Of the accounts with the code the first is stamped.
unfoldable stamp_first : Text → Option ℕ → List Account → List Account
unfolding stamp_token
stamp_first code token [] = []
stamp_first code token (a ∷ accounts) =
    if text_eq a.account code
    then stamp_token token a ∷ accounts
    else a ∷ stamp_first code token accounts

abbrev pub has_code : Text → Account → Bool
has_code code a = text_eq a.account code

abbrev has_date : (ℕ → Text) → ℕ → Option ℕ → Bool
has_date trade_date executed_at none = false
has_date trade_date executed_at (some first) = text_eq (trade_date first) (trade_date executed_at)

-- `trade.x = fill.x` where the trade has none and the fill has a text that is not empty.
abbrev filled_in : Option Text → Option Text → Option Text
filled_in (some x) _ = some x
filled_in none (some x) = if is_empty x then none else some x
filled_in none none = none

module _ {F : Type 0} where
  -- The id of the account with the code, which is made if there is none.
  unfoldable pub ensure_account : Text → Option ℕ → Books F → ℕ × Books F
  unfolding stamp_first
  ensure_account code token books = elim (find? (has_code code) books.accounts) [
    | some existing ↦
        (existing.id, record books { accounts = stamp_first code token books.accounts })
    | none ↦ (
      books.next_account_id,
      record books {
        accounts =
            books.accounts
            ++ record { id = books.next_account_id; account = code; flex_query_token_id = token }
              ∷ [];
        next_account_id = books.next_account_id + 1;
      },
    )
  ]

  -- `get_or_create_accounts`: the ids by code.
  unfoldable pub get_or_create_accounts : List Text → Option ℕ → Books F → List (Text × ℕ) × Books F
  unfolding ensure_account
  get_or_create_accounts [] token books = ([], books)
  get_or_create_accounts (code ∷ codes) token books =
      let (id, books) = ensure_account code token books in
      let (found, books) = get_or_create_accounts codes token books in ((code, id) ∷ found, books)

  module _ ⦃fl : FloatOps F⦄ where
    unfoldable pub new_trade : NormalizedFill F → ℕ → FillSource → ℕ → ℕ → ParentTrade F
    new_trade fill account_id source now id = record {
      id = id;
      account_id = account_id;
      ib_perm_id = fill.ib_perm_id;
      order_ref = fill.order_ref;
      ib_order_id = fill.ib_order_id;
      symbol = fill.symbol;
      sec_type = none;
      side = fill.side;
      exchange = none;
      currency = none;
      status = partial;
      total_quantity = fl.zero_value;
      avg_price = none;
      first_executed_at = none;
      last_executed_at = none;
      data_source = source.name;
      fetched_at = now;
      created_at = now;
      updated_at = now;
    }

    -- `_new_trade` with the overrides of a combo's parent.
    unfoldable pub new_combo_trade : NormalizedFill F → ℕ → FillSource → ℕ → ℕ → ParentTrade F
    unfolding new_trade
    new_combo_trade fill account_id source now id =
        record (new_trade fill account_id source now id) {
          ib_perm_id = none;
          ib_order_id = none;
          symbol = fill.combo_underlying;
          sec_type = some (text "BAG");
          side = none;
        }

  abbrev create : ParentTrade F → Books F → Books F
  create trade books = record books {
    trades = books.trades ++ trade ∷ [];
    next_trade_id = books.next_trade_id + 1;
  }

  abbrev has_perm_id : ℕ → Option ℤ → ParentTrade F → Bool
  has_perm_id account_id perm_id t =
      t.account_id == account_id && option_eq int_eq t.ib_perm_id perm_id

  abbrev has_order_ref : ℕ → Option Text → ParentTrade F → Bool
  has_order_ref account_id order_ref t =
      t.account_id == account_id && option_eq text_eq t.order_ref order_ref

  abbrev is_composite : ℕ → NormalizedFill F → ParentTrade F → Bool
  is_composite account_id fill t =
      t.account_id == account_id
      && option_eq int_eq t.ib_order_id fill.ib_order_id
      && option_eq text_eq t.symbol fill.symbol
      && option_eq text_eq t.side fill.side

  abbrev is_perm_keyed : NormalizedFill F → Bool
  is_perm_keyed fill = elim fill.ib_perm_id [ none ↦ false | some n ↦ is_positive n ]

  abbrev is_ours : NormalizedFill F → Bool
  is_ours fill = elim fill.order_ref [
    | none ↦ false
    | some ref ↦ starts_with ref (text "ngtrader-")
  ]

  module _ (trade_date : ℕ → Text) where
    abbrev pub is_candidate : FillSource → NormalizedFill F → ParentTrade F → Bool
    is_candidate source fill t =
        if source.composite_match_uses_trade_date
        then has_date trade_date fill.executed_at t.first_executed_at
        else true

    -- Rows stand by id, as new ones go to the end.
    unfoldable pub match_parent_trade :
        NormalizedFill F → ℕ → FillSource → List (ParentTrade F) → Option (ParentTrade F)
    unfolding starts_with
    match_parent_trade fill account_id source trades =
        if is_perm_keyed fill
        then find? (has_perm_id account_id fill.ib_perm_id) trades
        else if is_ours fill
        then find? (has_order_ref account_id fill.order_ref) trades
        else find? (is_candidate source fill) (filter (is_composite account_id fill) trades)

    module _ ⦃fl : FloatOps F⦄ where
      unfoldable pub resolve_parent_trade :
          NormalizedFill F → ℕ → FillSource → ℕ → Books F → ParentTrade F × Books F
      unfolding match_parent_trade new_trade
      resolve_parent_trade fill account_id source now books =
          elim (match_parent_trade fill account_id source books.trades) [
            | some existing ↦ (existing, books)
            | none ↦
                let trade = new_trade fill account_id source now books.next_trade_id in
                (trade, create trade books)
          ]

  abbrev pub is_summary_of : ℕ → Text → Execution F → Bool
  is_summary_of account_id key ex =
      ex.account_id == account_id
      && is_combo_summary ex.exec_role
      && option_eq text_eq (brokerage_order_id_of ex.raw) (some key)

  -- The trade of the summary row that an earlier run wrote, if both are there.
  unfoldable pub summary_parent : ℕ → Text → Books F → Option (ParentTrade F)
  summary_parent account_id key books =
      elim (find? (is_summary_of account_id key) books.executions) [
        | none ↦ none
        | some summary ↦ find? (λ t. t.id == summary.trade_id) books.trades
      ]

  module _ ⦃fl : FloatOps F⦄ where
    -- The cache is by combo key; a parent's id and account never change, and no more is read of it.
    unfoldable pub resolve_combo_parent :
        NormalizedFill F
        → Text
        → ℕ
        → FillSource
        → ℕ
        → List (Text × ParentTrade F)
        → Books F
        → ParentTrade F × List (Text × ParentTrade F) × Books F
    unfolding summary_parent new_combo_trade
    resolve_combo_parent fill key account_id source now cache books = elim (lookup_text key cache) [
      | some cached ↦ (cached, cache, books)
      | none ↦ elim (summary_parent account_id key books) [
        | some trade ↦ (trade, cache ++ (key, trade) ∷ [], books)
        | none ↦
            let trade = new_combo_trade fill account_id source now books.next_trade_id in
            (trade, cache ++ (key, trade) ∷ [], create trade books)
      ]
    ]

  abbrev backfill : NormalizedFill F → ParentTrade F → ParentTrade F
  backfill fill t = record t {
    symbol = filled_in t.symbol fill.symbol;
    sec_type = filled_in t.sec_type fill.sec_type;
    exchange = filled_in t.exchange fill.exchange;
    currency = filled_in t.currency fill.currency;
  }

  unfoldable pub backfill_contract_fields :
      ℕ → NormalizedFill F → List (ParentTrade F) → List (ParentTrade F)
  backfill_contract_fields trade_id fill [] = []
  backfill_contract_fields trade_id fill (t ∷ trades) =
      (if t.id == trade_id then backfill fill t else t)
      ∷ backfill_contract_fields trade_id fill trades
