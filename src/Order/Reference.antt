-- ===== src/Order/Reference.antt =====
-- `make_order_ref` and `parse_order_ref` of src/services/order_worker.py, with the part of Python's
-- `int(text)` and `str(int)` that they use: white space, a sign, digits and single underscores.
use ngv_trader.Prelude.{
  ℕ, zero, suc, ◌+◌, ◌-◌, ◌*◌, ◌/◌, ◌%◌, Bool, true, false, not, ◌&&◌, Option, none, some, List, [],
  ◌∷◌, ◌++◌, Text, text, strip, starts_with, drop_prefix, leb, ltb, ◌==◌, if◌then◌else◌,
}
use ngv_trader.Prelude.Int.{ℤ, pos, neg}
pub mod Laws

-- The decimal digits of a number, most significant first, in front of `rest`.
unfoldable pub digits_onto : ℕ → ℕ → Text → Text
digits_onto zero n rest = rest
digits_onto (suc fuel) n rest =
    let digit = b'0' + n % 10 in
    let more = digits_onto fuel (n / 10) (digit ∷ rest) in if ltb n 10 then digit ∷ rest else more

-- `str(n)`: a number has at most n + 1 digits.
unfoldable pub to_text : ℕ → Text
unfolding digits_onto
to_text n = digits_onto (suc n) n []

abbrev is_digit : ℕ → Bool
is_digit c = leb b'0' c && leb c b'9'

-- The digits of a literal: `after_digit` says whether the last character was a digit, as an
-- underscore must stand between two digits.
unfoldable pub parse_digits : Text → Bool → ℕ → Option ℕ
parse_digits [] after_digit acc = if after_digit then some acc else none
parse_digits (c ∷ s) after_digit acc =
    let digit = parse_digits s true (acc * 10 + (c - b'0')) in
    let underscore = parse_digits s false acc in
    if is_digit c then digit else if c == b'_' && after_digit then underscore else none

abbrev as_pos : Option ℕ → Option ℤ
as_pos none = none
as_pos (some n) = some (pos n)

abbrev as_neg : Option ℕ → Option ℤ
as_neg none = none
as_neg (some n) = some (neg n)

unfoldable pub parse_signed : Text → Option ℤ
unfolding parse_digits
parse_signed [] = none
parse_signed (c ∷ s) =
    if c == b'-'
    then as_neg (parse_digits s false 0)
    else if c == b'+'
    then as_pos (parse_digits s false 0)
    else as_pos (parse_digits (c ∷ s) false 0)

-- `int(s)`; `none` where it raises `ValueError`.
unfoldable pub parse_int : Text → Option ℤ
unfolding parse_signed strip
parse_int s = parse_signed (strip s)

abbrev order_ref_prefix : Text
order_ref_prefix = text "ngtrader-order-"

unfoldable pub make_order_ref : ℕ → Text
unfolding to_text
make_order_ref order_id = order_ref_prefix ++ to_text order_id

unfoldable pub parse_order_ref : Option Text → Option ℤ
unfolding parse_int starts_with drop_prefix
parse_order_ref none = none
parse_order_ref (some order_ref) =
    if starts_with order_ref order_ref_prefix
    then parse_int (drop_prefix order_ref order_ref_prefix)
    else none
