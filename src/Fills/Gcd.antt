-- ===== src/Fills/Gcd.antt =====
-- `math.gcd` of two numbers, by Euclid's algorithm, and of a list that is not empty.
use ngv_trader.Prelude.{ℕ, zero, suc, ◌%◌, List, [], ◌∷◌}
use mathlib.Core.List.{foldl}
pub mod Laws

unfoldable pub gcd_within : ℕ → ℕ → ℕ → ℕ
gcd_within zero a b = a
gcd_within (suc fuel) a zero = a
gcd_within (suc fuel) a (suc b) = gcd_within fuel (suc b) (a % suc b)

-- The second number falls in each step, so that it bounds the steps.
unfoldable pub gcd : ℕ → ℕ → ℕ
unfolding gcd_within
gcd a b = gcd_within (suc b) a b

-- `reduce(gcd, values)`
unfoldable pub gcd_all : ℕ → List ℕ → ℕ
unfolding gcd
gcd_all n [] = n
gcd_all n (m ∷ ms) = gcd_all (gcd n m) ms
