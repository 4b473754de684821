-- ===== src/Settle/Match.antt =====
-- The three matchers of src/services/live_reconcile.py. `date_of` is the calendar date of an
-- instant in the time zone of the database session.
use ngv_trader.Prelude.{
  ℕ, suc, Bool, true, false, not, ◌&&◌, ◌||◌, Option, none, some, List, [], ◌∷◌, map, Text, text,
  text_eq, text_mem, lookup_text, upper, strip, starts_with, or_empty, is_empty, is_space,
  option_eq, filter, any, find?, reverse, ◌==◌, FloatOps, if◌then◌else◌,
}
use ngv_trader.Settle.Rows.{
  LiveExecution, TradeExecution, OrderGroupKey, perm, order, Store, is_combo_summary, is_leg,
  order_group_key_from_live,
}
pub mod Laws

-- `_LIVE_SIDE_NORMALIZATION`
abbrev live_side_normalization : List (Text × Text)
live_side_normalization =
    (text "BOT", text "BUY")
    ∷ (text "SLD", text "SELL")
    ∷ (text "BUY", text "BUY")
    ∷ (text "SELL", text "SELL")
    ∷ []

unfoldable pub normalize_live_side : Option Text → Option Text
normalize_live_side none = none
normalize_live_side (some side) = lookup_text (upper (strip side)) live_side_normalization

-- `(side or "").strip().upper()`
abbrev settled_side : Option Text → Text
settled_side side = upper (strip (or_empty side))

-- The part of a reversed text after its first dot; `none` if there is no dot.
unfoldable pub after_dot : Text → Option Text
after_dot [] = none
after_dot (c ∷ s) = let rest = after_dot s in if c == b'.' then some s else rest

-- `ib_exec_id[:rfind(".")]`, unless the dot is missing or is the first character.
unfoldable pub strip_last_segment : Text → Option Text
unfolding after_dot
strip_last_segment ib_exec_id = elim (after_dot (reverse ib_exec_id)) [
  | none ↦ none
  | some kept ↦ if is_empty kept then none else some (reverse kept)
]

-- The tokens of `re.split("[;,\s]+", text)` that are not empty.
abbrev is_separator : ℕ → Bool
is_separator c = c == b';' || c == b',' || is_space c

abbrev add_token : Text → List Text → List Text
add_token [] tokens = tokens
add_token (c ∷ s) tokens = reverse (c ∷ s) ∷ tokens

unfoldable pub split_notes : Text → Text → List Text
split_notes current [] = add_token current []
split_notes current (c ∷ s) =
    let rest = split_notes (if is_separator c then [] else c ∷ current) s in
    if is_separator c then add_token current rest else rest

abbrev book_note_codes : List Text
book_note_codes = text "EP" ∷ text "A" ∷ text "EX" ∷ []

unfoldable pub has_book_note : Option Text → Bool
unfolding split_notes
has_book_note none = false
has_book_note (some notes) =
    any (λ token. text_mem (upper token) book_note_codes) (split_notes [] notes)

module _ {F : Type 0} where
  unfoldable pub is_book_event : TradeExecution F → Bool
  unfolding has_book_note
  is_book_event settled =
      starts_with settled.ib_exec_id (text "FLEX-TX-") || has_book_note settled.notes

  unfoldable pub is_bag_summary : LiveExecution F → Bool
  is_bag_summary live =
      is_combo_summary live.exec_role
      || text_eq (upper (strip (or_empty live.sec_type))) (text "BAG")

  -- The row has the key's id in the key's column.
  abbrev pub has_key : OrderGroupKey → LiveExecution F → Bool
  has_key (perm value) live = option_eq ◌==◌ live.ib_perm_id (some value)
  has_key (order value) live = option_eq ◌==◌ live.ib_order_id (some value)

  -- Another row of the order that is a leg.
  abbrev pub is_live_leg : OrderGroupKey → LiveExecution F → LiveExecution F → Bool
  is_live_leg key live other =
      has_key key other && not (other.id == live.id) && not (is_bag_summary other)

  unfoldable pub has_live_siblings : List (LiveExecution F) → LiveExecution F → Bool
  has_live_siblings rows live = elim (order_group_key_from_live live) [
    | none ↦ true
    | some key ↦ any (is_live_leg key live) rows
  ]

  abbrev pub is_settled_leg_at : LiveExecution F → TradeExecution F → Bool
  is_settled_leg_at live settled =
      settled.account_id == live.account_id
      && is_leg settled.exec_role
      && settled.executed_at == live.exec_time

  unfoldable pub settled_legs_at :
      List (TradeExecution F) → LiveExecution F → List (TradeExecution F)
  settled_legs_at rows live = filter (is_settled_leg_at live) rows

  abbrev non_empty : List (TradeExecution F) → Option (List (TradeExecution F))
  non_empty [] = none
  non_empty (leg ∷ legs) = some (leg ∷ legs)

  unfoldable pub match_bag_summary : Store F → LiveExecution F → Option (List (TradeExecution F))
  unfolding settled_legs_at has_live_siblings
  match_bag_summary store live =
      if not (is_bag_summary live) then none else elim (order_group_key_from_live live) [
        | none ↦ none
        | some _ ↦
            if has_live_siblings store.live live
            then none
            else non_empty (settled_legs_at store.settled live)
      ]

abbrev same_con_id : Option ℕ → Option ℕ → Bool
same_con_id none _ = false
same_con_id (some n) m = option_eq ◌==◌ m (some n)

module _ {F : Type 0} ⦃fl : FloatOps F⦄ where
  abbrev price_eps : F
  price_eps = fl.decimal 1 6

  abbrev qty_eps : F
  qty_eps = fl.decimal 1 9

  abbrev distance : F → F → F
  distance a b = fl.absolute (fl.minus a b)

  unfoldable pub same_contract_fill : LiveExecution F → TradeExecution F → Bool
  same_contract_fill live settled =
      same_con_id live.con_id settled.con_id
      && fl.at_most (distance (fl.absolute live.quantity) (fl.absolute settled.quantity)) qty_eps
      && option_eq text_eq (normalize_live_side live.side) (some (settled_side settled.side))

  unfoldable pub match_leg_strip : Store F → LiveExecution F → Option (TradeExecution F)
  unfolding same_contract_fill
  match_leg_strip store live = elim (strip_last_segment live.ib_exec_id) [
    | none ↦ none
    | some stripped ↦ elim (find? (λ settled. text_eq settled.ib_exec_id stripped) store.settled) [
      | none ↦ none
      | some settled ↦ if same_contract_fill live settled then some settled else none
    ]
  ]

  -- The tests of the loop over the candidates, each of which skips the candidate.
  abbrev pub agrees_with_book_event : (ℕ → ℕ) → LiveExecution F → TradeExecution F → Bool
  agrees_with_book_event date_of live settled =
      settled.account_id == live.account_id
      && same_con_id live.con_id settled.con_id
      && is_book_event settled
      && not (fl.less qty_eps (distance (fl.absolute settled.quantity) (fl.absolute live.quantity)))
      && option_eq text_eq (some (settled_side settled.side)) (normalize_live_side live.side)
      && not (fl.less price_eps (distance settled.price live.price))
      && date_of settled.executed_at == date_of live.exec_time

  unfoldable pub match_book_event : (ℕ → ℕ) → Store F → LiveExecution F → Option (TradeExecution F)
  match_book_event date_of store live = find? (agrees_with_book_event date_of live) store.settled
