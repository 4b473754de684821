-- ===== src/Tests.antt =====
-- The development on concrete data: numbers, clocks and rows. The children apply the theorems to
-- them and run the definitions.
use ngv_trader.Prelude.{
  ℕ, ◌+◌, ◌-◌, ◌*◌, ◌/◌, ◌≡◌, refl, arith, Bool, Option, none, some, List, [], ◌∷◌, Text, text, leb,
  ltb, ◌==◌, FloatOps, if◌then◌else◌,
}
use ngv_trader.Overlay.Clock.{Zone}
mod Orders
mod JobRows
mod Submissions
mod Fills
mod Views
mod Groups
mod Ledgers
mod Ingests
mod Fetches
mod Items
mod Captures
mod Flats

-- Whole amounts in place of floats: a literal with decimals counts as 0, a text is never a number.
instance abbrev pub whole_floats : FloatOps ℕ
whole_floats = record {
  zero_value = 0;
  one_value = 1;
  plus = ◌+◌;
  minus = ◌-◌;
  times = ◌*◌;
  over = ◌/◌;
  absolute = λ x. x;
  less = ltb;
  at_most = leb;
  same = ◌==◌;
  decimal = λ m e. if e == 0 then m else 0;
  parse = λ s. none;
}

-- A zone whose days begin at the multiples of 86400 seconds.
abbrev pub utc : Zone
utc = record {
  date_of = λ t. t / 86400;
  midnight = λ d. d * 86400;
  midnight_le = λ d t. omega arith;
}
