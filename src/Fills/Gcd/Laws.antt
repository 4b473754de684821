-- ===== src/Fills/Gcd/Laws.antt =====
-- The greatest common divisor.
use ngv_trader.Prelude.{ℕ, zero, suc, ◌%◌, ◌∣◌, ◌<◌, List, [], ◌∷◌, All, arith}
use native.Mathlib.Nat.{dvd_refl, dvd-zero, dvd_trans, dvd-mod_iff, mod-lt}
use ngv_trader.Fills.Gcd.{gcd_within, gcd, gcd_all}

-- The greatest common divisor divides both numbers, and every common divisor divides it.
pub record IsGcd (g a b : ℕ) : Type 0 where
  pub left : g ∣ a
  pub right : g ∣ b
  pub greatest : (c : ℕ) → c ∣ a → c ∣ b → c ∣ g

gcd_within-IsGcd : (fuel a b : ℕ) → b < fuel → IsGcd (gcd_within fuel a b) a b
unfolding gcd_within
gcd_within-IsGcd zero a b h = absurd (omega arith)
gcd_within-IsGcd (suc fuel) a zero h = record {
  left = dvd_refl a;
  right = dvd-zero a;
  greatest = λ c l r. l;
}
gcd_within-IsGcd (suc fuel) a (suc b) h =
    let small : a % suc b < suc b = mod-lt a (omega arith) in
    let ih = gcd_within-IsGcd fuel (suc b) (a % suc b) (omega arith) in
    record {
      left = (dvd-mod_iff _ ih.left).0 ih.right;
      right = ih.left;
      greatest = λ c l r. ih.greatest c r ((dvd-mod_iff c r).1 l);
    }

gcd-IsGcd : (a b : ℕ) → IsGcd (gcd a b) a b
unfolding gcd
gcd-IsGcd a b = gcd_within-IsGcd (suc b) a b (omega arith)

-- The same of the numbers of a list.
pub record IsGcdOf (g : ℕ) (ns : List ℕ) : Type 0 where
  pub divides : All (λ n. g ∣ n) ns
  pub greatest : (c : ℕ) → All (λ n. c ∣ n) ns → c ∣ g

pub gcd_all-IsGcdOf : (n : ℕ) (ms : List ℕ) → IsGcdOf (gcd_all n ms) (n ∷ ms)
unfolding gcd_all
gcd_all-IsGcdOf n [] = record { divides = (dvd_refl n, tt); greatest = λ c h. h.0 }
gcd_all-IsGcdOf n (m ∷ ms) =
    let first = gcd-IsGcd n m in
    let rest = gcd_all-IsGcdOf (gcd n m) ms in
    record {
      divides = (
        dvd_trans _ rest.divides.0 first.left,
        (dvd_trans _ rest.divides.0 first.right, rest.divides.1),
      );
      greatest = λ c h. rest.greatest c (first.greatest c h.0 h.1.0, h.1.1);
    }
