-- ===== src/Pnl/Ledger/Laws.antt =====
-- What the overlay of a group depends on, and how the accounts' figures add up to the group's.
use ngv_trader.Prelude.{
  ℕ, ◌≡◌, ◌++◌, false, some_inj, Option-cases, filter_skips, refl, ap, inl, inr, Bool, true, ◌||◌,
  Option, some, List, [], ◌∷◌, filter, any, All, FloatOps,
}
use ngv_trader.Settle.Rows.{LiveExecution}
use ngv_trader.Overlay.Rows.{FlexRow, LiveRow, PositionView, PairKey, key_eq, flex_key, live_key}
use ngv_trader.Overlay.Merge.{MergeInputs}
use ngv_trader.Pnl.Holdings.{at_key}
use ngv_trader.Pnl.Holdings.Laws.{at_key-apart}
use ngv_trader.Overlay.Totals.{overlay_totals, settled_unrealized_total}
use ngv_trader.Pnl.Execution.{realized_pnl_total}
use ngv_trader.Pnl.Ledger.{
  GroupLedger, OverlayContext, in_pairs, exec_in_pairs, settled_exec_ids, of_account,
  exec_of_account, execution_of_account, account_breakdown, slice_of, overlay_one,
}

any-none :
    {A : Type 0} (p : A → Bool) (P : A → Type 0)
    → ((x : A) → P x → p x ≡ false)
    → (xs : List A) → All P xs
    → any p xs ≡ false
any-none p P f [] h = refl
any-none p P f (x ∷ xs) h = rw (f x h.0, any-none p P f xs h.1) refl

filter_keeps_All :
    {A : Type 0} (p : A → Bool) (xs : List A) → All (λ x. p x ≡ true) xs → filter p xs ≡ xs
filter_keeps_All p [] h = refl
filter_keeps_All p (x ∷ xs) h = rw h.0 (ap (λ ys. x ∷ ys) (filter_keeps_All p xs h.1))

module _ {F : Type 0} ⦃fl : FloatOps F⦄ where
  -- The group has no fill and no pair of the contract in the account.
  pub record IsApart (ledger : GroupLedger F) (account_id con_id : ℕ) : Type 0 where
    pub no_execution :
        All (λ ex. ¬ ((ex.account_id ≡ account_id) × (ex.con_id ≡ some con_id))) ledger.executions
    pub no_live_fill :
        All (λ ex. ¬ ((ex.account_id ≡ account_id) × (ex.con_id ≡ some con_id))) ledger.live_fills
    pub no_pair : All (λ pair. ¬ ((pair.0 ≡ account_id) × (pair.1 ≡ con_id))) ledger.extra_pairs

  apart-in_pairs :
      (ledger : GroupLedger F) (account_id con_id : ℕ)
      → IsApart ledger account_id con_id
      → in_pairs ledger (account_id, con_id) ≡ false
  unfolding in_pairs
  apart-in_pairs ledger account_id con_id h =
      let key : PairKey = (account_id, con_id) in
      rw
        (
          any-none (λ ex. at_key key ex.account_id ex.con_id) _
              (λ ex e. at_key-apart key ex.account_id ex.con_id e) ledger.executions h.no_execution,
          any-none (λ ex. at_key key ex.account_id ex.con_id) _
              (λ ex e. at_key-apart key ex.account_id ex.con_id e) ledger.live_fills h.no_live_fill,
          any-none (λ pair. key_eq pair key) _
              (λ pair e.
                at_key-apart key pair.0 (some pair.1) (λ both. e (both.0, some_inj _ _ both.1)))
              ledger.extra_pairs h.no_pair,
        )
        refl

  -- A live fill of no contract, or of one that the group has no part in.
  abbrev pub IsApartFill : GroupLedger F → LiveExecution F → Type 0
  IsApartFill ledger ex =
      (con_id : ℕ) → ex.con_id ≡ some con_id → IsApart ledger ex.account_id con_id

  apart-exec_in_pairs :
      (ledger : GroupLedger F) (ex : LiveExecution F)
      → IsApartFill ledger ex
      → exec_in_pairs ledger ex ≡ false
  apart-exec_in_pairs ledger ex h = elim (Option-cases ex.con_id) [
    | inl e ↦ rw e refl
    | inr (con_id, e) ↦ rw e (apart-in_pairs ledger ex.account_id con_id (h con_id e))
  ]

  abbrev pub context_of :
      MergeInputs F
      → List (FlexRow F)
      → List (LiveRow F)
      → List (LiveExecution F)
      → OverlayContext F
  context_of inputs flex_rows live_rows live_execs = record {
    flex_rows = flex_rows;
    live_rows = live_rows;
    live_execs = live_execs;
    inputs = inputs;
  }

  -- A snapshot row, a live row and a live fill of positions that the group has no part in, wherever
  -- they stand among the loaded rows, change nothing of the overlay of the group.
  pub overlay_one_apart :
      (ledger : GroupLedger F) (inputs : MergeInputs F) (flex before : List (FlexRow F))
      (lives live_before : List (LiveRow F)) (execs exec_before : List (LiveExecution F))
      (flex_row : FlexRow F) (live_row : LiveRow F) (ex : LiveExecution F)
      → IsApart ledger flex_row.account_id flex_row.con_id
      → IsApart ledger live_row.account_id live_row.con_id
      → IsApartFill ledger ex
      → overlay_one
          (context_of inputs
            (before ++ flex_row ∷ flex)
            (live_before ++ live_row ∷ lives)
            (exec_before ++ ex ∷ execs))
          ledger
        ≡ overlay_one
            (context_of inputs (before ++ flex) (live_before ++ lives) (exec_before ++ execs))
            ledger
  unfolding overlay_one slice_of
  overlay_one_apart ledger inputs flex before lives live_before execs exec_before flex_row live_row
        ex f l e =
      rw
        (
          filter_skips (λ row. in_pairs ledger (flex_key row)) before flex flex_row
              (apart-in_pairs ledger flex_row.account_id flex_row.con_id f),
          filter_skips (λ row. in_pairs ledger (live_key row)) live_before lives live_row
              (apart-in_pairs ledger live_row.account_id live_row.con_id l),
          filter_skips (exec_in_pairs ledger) exec_before execs ex
              (apart-exec_in_pairs ledger ex e),
        )
        refl

  -- If every view, every settled fill and every live fill is of one account, which has a view or a
  -- settled fill, then the breakdown of that account has the group's intraday figures.
  pub account_breakdown-one_account :
      (ledger : GroupLedger F) (flex_rows : List (FlexRow F)) (views : List (PositionView F))
      (live_execs : List (LiveExecution F)) (shares : Option (PairKey → Option F)) (account_id : ℕ)
      → All (λ v. of_account account_id v ≡ true) views
      → All (λ ex. execution_of_account account_id ex ≡ true) ledger.executions
      → All (λ ex. exec_of_account account_id ex ≡ true) live_execs
      → (any (of_account account_id) views
          || any (execution_of_account account_id) ledger.executions)
        ≡ true
      → let totals =
          overlay_totals flex_rows views live_execs
            (settled_exec_ids ledger)
            (realized_pnl_total ledger.executions)
            shares in
        account_breakdown ledger views live_execs account_id
        ≡ some (record {
          unrealized = settled_unrealized_total views;
          intraday_unrealized = totals.intraday_unrealized;
          intraday_realized = totals.intraday_realized;
          intraday_total = totals.intraday_total;
        })
  unfolding account_breakdown overlay_totals
  account_breakdown-one_account ledger flex_rows views live_execs shares account_id of_views
        of_fills of_live there =
      rw
        (
          there,
          filter_keeps_All (of_account account_id) views of_views,
          filter_keeps_All (execution_of_account account_id) ledger.executions of_fills,
          filter_keeps_All (exec_of_account account_id) live_execs of_live,
        )
        refl
