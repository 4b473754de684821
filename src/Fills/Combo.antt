-- ===== src/Fills/Combo.antt =====
-- The summary row of a combo whose transport reports only the legs (`_synthesize_combo_summary` of
-- src/services/fill_ingest.py). `whole` is `int(a)` of a finite float that equals it, and `none` of
-- another finite float; sizes that are not finite, at which `int` raises, are not modelled.
use ngv_trader.Prelude.{
  ℕ, zero, suc, ◌+◌, Bool, true, false, not, ◌&&◌, Option, none, some, List, [], ◌∷◌, ◌++◌, map,
  all, any, length, filter, present, Text, text, text_eq, or_empty, is_empty, leb, FloatOps,
  sum_floats, sum_present, ◌==◌, if◌then◌else◌,
}
use ngv_trader.Prelude.Int.{ℤ, pos}
use ngv_trader.Settle.Rows.{ExecRole}
use ngv_trader.Fills.Rows.{
  Books, Execution, ParentTrade, NormalizedFill, FillSource, Payload, synthetic,
}
use ngv_trader.Fills.ExecId.{parse_exec_id}
use ngv_trader.Fills.Aggregates.{earliest}
use ngv_trader.Fills.Writes.{write_row}
use ngv_trader.Fills.Gcd.{gcd_all}
pub mod Laws

-- The element of the set of the texts, if it has exactly one.
unfoldable pub only_text : List Text → Option Text
only_text [] = none
only_text (s ∷ ss) = if all (text_eq s) ss then some s else none

abbrev is_said : Text → Bool
is_said s = not (is_empty s)

-- `{x for x in values if x}`, with repetitions.
abbrev said : List (Option Text) → List Text
said values = filter is_said (present values)

abbrev onto_first : ℕ → List Text → List Text
onto_first c [] = (c ∷ []) ∷ []
onto_first c (part ∷ parts) = (c ∷ part) ∷ parts

-- `s.split(".")`
unfoldable pub split_dots : Text → List Text
split_dots [] = [] ∷ []
split_dots (c ∷ s) =
    let parts = split_dots s in if c == b'.' then [] ∷ parts else onto_first c parts

-- The first two of at least four parts.
abbrev first_two : List Text → Option Text
first_two (a ∷ b ∷ _ ∷ _ ∷ _) = some (a ++ b'.' ∷ b)
first_two _ = none

unfoldable pub prefix_of : Text → Option Text
unfolding split_dots
prefix_of ib_exec_id = first_two (split_dots ib_exec_id)

unfoldable pub combo_exec_id_of : Text → List Text → Text
unfolding only_text prefix_of
combo_exec_id_of combo_key leg_exec_ids = elim (only_text (present (map prefix_of leg_exec_ids))) [
  | some prefix ↦ prefix ++ text ".01.01"
  | none ↦ combo_key ++ text ".combo"
]

abbrev order_ref_of : List Text → Option Text
order_ref_of order_refs = if all is_said order_refs then only_text order_refs else none

-- A combo is of at least one unit.
abbrev at_least_one : ℕ → ℕ
at_least_one zero = 1
at_least_one (suc n) = suc n

abbrev with_size : Option ℕ → Option (List ℕ) → Option (List ℕ)
with_size (some n) (some ns) = some (n ∷ ns)
with_size _ _ = none

-- The `set_` of the statement, out of the row that it would insert.
unfoldable pub resummarized : {F : Type 0} → Execution F → Execution F → Execution F
resummarized summary row = record row {
  trade_id = summary.trade_id;
  quantity = summary.quantity;
  price = summary.price;
  side = summary.side;
  commission = summary.commission;
  exec_role = summary.exec_role;
  sec_type = summary.sec_type;
  executed_at = summary.executed_at;
  order_ref = summary.order_ref;
  raw = summary.raw;
  fetched_at = summary.fetched_at;
  updated_at = summary.updated_at;
}

module _ {F : Type 0} (whole : F → Option ℕ) where
  module _ ⦃fl : FloatOps F⦄ where
    abbrev is_zero_size : F → Bool
    is_zero_size a = fl.same a fl.zero_value

    -- The sizes other than zero; `none` if one of them is not whole.
    unfoldable pub whole_sizes : List F → Option (List ℕ)
    whole_sizes [] = some []
    whole_sizes (q ∷ qs) =
        let rest = whole_sizes qs in
        if is_zero_size (fl.absolute q) then rest else with_size (whole (fl.absolute q)) rest

    unfoldable pub combo_qty_of : List F → ℕ
    unfolding whole_sizes gcd_all
    combo_qty_of quantities = elim (whole_sizes quantities) [
      | none ↦ 1
      | some [] ↦ 1
      | some (n ∷ ns) ↦ at_least_one (gcd_all n ns)
    ]

    abbrev cash_of : NormalizedFill F → F
    cash_of leg = fl.times leg.quantity leg.price

    abbrev signed_cash_of : List (NormalizedFill F) → F
    signed_cash_of legs = sum_floats (map cash_of legs)

    -- The row of the summary over the first leg and the others.
    unfoldable pub summary_of :
        ℕ
        → ParentTrade F
        → Text
        → NormalizedFill F
        → List (NormalizedFill F)
        → FillSource
        → ℕ
        → Execution F
    unfolding combo_qty_of combo_exec_id_of parse_exec_id only_text
    summary_of id parent combo_key leg others source now =
        let legs = leg ∷ others in
        let quantities = map (λ l. l.quantity) legs in
        let signed_cash = signed_cash_of legs in
        let leg_exec_ids = filter is_said (map (λ l. l.ib_exec_id) legs) in
        let combo_qty = combo_qty_of quantities in
        let combo_exec_id = combo_exec_id_of combo_key leg_exec_ids in
        let (combo_exec_id_base, revision) = parse_exec_id combo_exec_id in
        record {
          id = id;
          trade_id = parent.id;
          account_id = parent.account_id;
          ib_exec_id = combo_exec_id;
          exec_id_base = combo_exec_id_base;
          exec_revision = pos 1;
          ib_perm_id = none;
          ib_order_id = none;
          order_ref = order_ref_of (map (λ l. or_empty l.order_ref) legs);
          sec_type = some (text "BAG");
          con_id = none;
          exec_role = ExecRole.combo_summary;
          executed_at = earliest leg.executed_at (map (λ l. l.executed_at) others);
          quantity = fl.decimal combo_qty 0;
          price = fl.over signed_cash (fl.decimal combo_qty 0);
          side = some (if fl.less fl.zero_value signed_cash then text "BUY" else text "SELL");
          exchange = only_text (said (map (λ l. l.exchange) legs));
          currency = only_text (said (map (λ l. l.currency) legs));
          liquidity = none;
          commission = sum_present (present (map (λ l. l.commission) legs));
          is_canonical = true;
          data_source = source.name;
          flex_transaction_id = none;
          raw = synthetic combo_key leg_exec_ids (length legs) signed_cash quantities;
          fetched_at = now;
          created_at = now;
          updated_at = now;
        }

    -- `none` where there is nothing to summarize: fewer than two legs.
    unfoldable pub synthesize_combo_summary :
        ParentTrade F
        → Text
        → List (NormalizedFill F)
        → FillSource
        → ℕ
        → Books F
        → Option ((Text × Bool) × Books F)
    unfolding write_row summary_of resummarized
    synthesize_combo_summary parent combo_key [] source now books = none
    synthesize_combo_summary parent combo_key (leg ∷ []) source now books = none
    synthesize_combo_summary parent combo_key (leg ∷ other ∷ others) source now books =
        let row =
          summary_of books.next_execution_id parent combo_key leg (other ∷ others) source now in
        let (inserted, books) = write_row row (resummarized row) books in
        some ((row.exec_id_base, inserted), books)
