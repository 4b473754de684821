-- ===== src/Prelude/Int.antt =====
-- Signed integers over the native numbers.
use Prim.Native.Nat.{ℕ, zero, suc}
use mathlib.Core.Path.{◌≡◌, refl}
use mathlib.Core.Bool.{Bool, true, false}
use native.Mathlib.Omega.{arith}
use ngv_trader.Prelude.Tests.{leb, ◌==◌}

-- `negsuc n` is -(n + 1).
pub data ℤ : Type 0 where
  pos : ℕ → ℤ
  negsuc : ℕ → ℤ

abbrev pub neg : ℕ → ℤ
neg zero = pos 0
neg (suc n) = negsuc n

-- `a <= b`
abbrev pub int_leb : ℤ → ℤ → Bool
int_leb (pos m) (pos n) = leb m n
int_leb (pos m) (negsuc n) = false
int_leb (negsuc m) (pos n) = true
int_leb (negsuc m) (negsuc n) = leb n m

abbrev pub int_eq : ℤ → ℤ → Bool
int_eq (pos m) (pos n) = m == n
int_eq (pos m) (negsuc n) = false
int_eq (negsuc m) (pos n) = false
int_eq (negsuc m) (negsuc n) = m == n

abbrev pub is_positive : ℤ → Bool
is_positive (pos zero) = false
is_positive (pos (suc n)) = true
is_positive (negsuc n) = false

pub int_leb_refl : (a : ℤ) → int_leb a a ≡ true
int_leb_refl (pos m) = ground arith
int_leb_refl (negsuc m) = ground arith

pub int_leb_trans : (a b c : ℤ) → int_leb a b ≡ true → int_leb b c ≡ true → int_leb a c ≡ true
int_leb_trans (pos m) (pos n) (pos k) h g = ground arith
int_leb_trans (pos m) (pos n) (negsuc k) h g = cc
int_leb_trans (pos m) (negsuc n) c h g = cc
int_leb_trans (negsuc m) (pos n) (pos k) h g = refl
int_leb_trans (negsuc m) (pos n) (negsuc k) h g = cc
int_leb_trans (negsuc m) (negsuc n) (pos k) h g = refl
int_leb_trans (negsuc m) (negsuc n) (negsuc k) h g = ground arith

-- Of two numbers that are not in order, the other order holds.
pub int_leb_total : (a b : ℤ) → int_leb a b ≡ false → int_leb b a ≡ true
int_leb_total (pos m) (pos n) h = ground arith
int_leb_total (pos m) (negsuc n) h = refl
int_leb_total (negsuc m) (pos n) h = cc
int_leb_total (negsuc m) (negsuc n) h = ground arith
