-- ===== src/Fills/Combo/Laws.antt =====
-- The size of a combo against the sizes of its legs.
use ngv_trader.Prelude.{
  ℕ, zero, suc, ◌∣◌, ◌≡◌, ◌≤◌, ◌<◌, refl, Option, some, List, ◌∷◌, All, FloatOps, arith,
}
use native.Mathlib.Nat.{le_of_dvd, pos_of_dvd_of_pos}
use ngv_trader.Fills.Gcd.{gcd_all}
use ngv_trader.Fills.Gcd.Laws.{gcd_all-IsGcdOf}
use ngv_trader.Fills.Combo.{at_least_one, whole_sizes, combo_qty_of}

-- The number divides the sizes, and no greater number does.
pub record IsGreatest (qty : ℕ) (sizes : List ℕ) : Type 0 where
  pub at_least_one : 1 ≤ qty
  pub divides : All (λ n. qty ∣ n) sizes
  pub greatest : (c : ℕ) → All (λ n. c ∣ n) sizes → c ≤ qty

at_least_one_pos : (n : ℕ) → 0 < n → at_least_one n ≡ n
at_least_one_pos zero h = absurd (omega arith)
at_least_one_pos (suc n) h = refl

module _ {F : Type 0} ⦃fl : FloatOps F⦄ where
  -- If all sizes of the legs other than zero are whole and there is one, the combo's quantity is
  -- their greatest common divisor.
  pub combo_qty_of-IsGreatest :
      (whole : F → Option ℕ) (quantities : List F) (n : ℕ) (ns : List ℕ)
      → whole_sizes whole quantities ≡ some (n ∷ ns)
      → 0 < n
      → IsGreatest (combo_qty_of whole quantities) (n ∷ ns)
  unfolding combo_qty_of
  combo_qty_of-IsGreatest whole quantities n ns h pos =
      let g = gcd_all-IsGcdOf n ns in
      let some_size : 0 < gcd_all n ns = pos_of_dvd_of_pos g.divides.0 pos in
      rw (combo_qty_of, h, at_least_one_pos (gcd_all n ns) some_size)
        (record {
          at_least_one = some_size;
          divides = g.divides;
          greatest = λ c d. le_of_dvd some_size (g.greatest c d);
        })
