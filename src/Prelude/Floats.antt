-- ===== src/Prelude/Floats.antt =====
-- Python's floats: an abstract type with the operations that the program uses.
use Prim.Native.Nat.{ℕ}
use mathlib.Core.Bool.{Bool, not}
use mathlib.Core.Option.{Option, none, some}
use mathlib.Core.List.{List, [], ◌∷◌, foldl}
use ngv_trader.Prelude.Tests.{if◌then◌else◌}
use ngv_trader.Prelude.Texts.{Text}

pub record FloatOps (F : Type 0) : Type 0 where
  pub zero_value : F
  pub one_value : F
  pub plus : F → F → F
  pub minus : F → F → F
  pub times : F → F → F
  pub over : F → F → F
  pub absolute : F → F
  pub less : F → F → Bool
  pub at_most : F → F → Bool
  pub same : F → F → Bool
  -- A literal: `decimal m e` is m divided by 10 to the e.
  pub decimal : ℕ → ℕ → F
  -- `float(s)` of a string; `none` where it raises `ValueError`.
  pub parse : Text → Option F

-- A value that may be a number, a text or missing.
pub data RawValue (F : Type 0) : Type 0 where
  absent : RawValue F
  number : F → RawValue F
  string : Text → RawValue F

module _ {F : Type 0} ⦃fl : FloatOps F⦄ where
  -- `max(a, b)`: Python keeps the first of its arguments unless the second is greater.
  abbrev pub max_float : F → F → F
  max_float a b = if fl.less a b then b else a

  abbrev pub min_float : F → F → F
  min_float a b = if fl.less b a then b else a

  -- `bool(x)`: a float is true unless it equals zero.
  abbrev pub is_truthy : F → Bool
  is_truthy x = not (fl.same x fl.zero_value)

  -- `float(value)`; `none` where it raises `TypeError` or `ValueError`.
  abbrev pub to_float : RawValue F → Option F
  to_float absent = none
  to_float (number x) = some x
  to_float (string s) = fl.parse s

  -- `sum(values)`
  abbrev pub sum_floats : List F → F
  sum_floats values = foldl fl.plus fl.zero_value values

  -- `sum(values) if values else None`
  abbrev pub sum_present : List F → Option F
  sum_present [] = none
  sum_present (x ∷ xs) = some (sum_floats (x ∷ xs))

  -- `value or 0.0`
  abbrev pub or_zero : Option F → F
  or_zero none = fl.zero_value
  or_zero (some x) = if is_truthy x then x else fl.zero_value
