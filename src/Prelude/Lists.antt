-- ===== src/Prelude/Lists.antt =====
-- Lists under Boolean tests and measured by native numbers.
use Prim.Native.Nat.{ℕ, suc, ◌+◌, ◌≤◌}
use mathlib.Core.Path.{◌≡◌, refl, sym, ap, subst}
use mathlib.Core.Logic.{◌⊎◌, inl, inr}
use mathlib.Core.Bool.{Bool, true, false, ◌&&◌, ◌||◌}
use mathlib.Core.Option.{Option, none, some}
use mathlib.Core.List.{List, [], ◌∷◌, ◌++◌}
use native.Mathlib.Omega.{arith}
use ngv_trader.Prelude.Tests.{if◌then◌else◌}

module _ {ℓ} {A : Type ℓ} where
  abbrev pub length : List A → ℕ
  length [] = 0
  length (x ∷ xs) = suc (length xs)

  -- `[x for x in xs if p(x)]`
  abbrev pub filter : (A → Bool) → List A → List A
  filter p [] = []
  filter p (x ∷ xs) = let rest = filter p xs in if p x then x ∷ rest else rest

  abbrev pub any : (A → Bool) → List A → Bool
  any p [] = false
  any p (x ∷ xs) = p x || any p xs

  abbrev pub all : (A → Bool) → List A → Bool
  all p [] = true
  all p (x ∷ xs) = p x && all p xs

  -- The first element that passes the test.
  abbrev pub find? : (A → Bool) → List A → Option A
  find? p [] = none
  find? p (x ∷ xs) = let rest = find? p xs in if p x then some x else rest

  pub length-append : (xs ys : List A) → length (xs ++ ys) ≡ length xs + length ys
  length-append [] ys = omega arith
  length-append (x ∷ xs) ys = omega (arith, length-append xs ys)

  pub length-filter : (p : A → Bool) (xs : List A) → length (filter p xs) ≤ length xs
  length-filter p [] = omega arith
  length-filter p (x ∷ xs) = ground (arith, length-filter p xs)

  pub any-append : (p : A → Bool) (xs ys : List A) → any p (xs ++ ys) ≡ (any p xs || any p ys)
  any-append p [] ys = refl
  any-append p (x ∷ xs) ys = ground (arith, any-append p xs ys)

  -- What a search finds passes its test.
  pub find?_passes : (p : A → Bool) (xs : List A) (x : A) → find? p xs ≡ some x → p x ≡ true
  find?_passes p [] x h = cc
  find?_passes p (y ∷ ys) x h = ground (arith, find?_passes p ys x)

-- The values that are there.
abbrev pub present {ℓ} : {A : Type ℓ} → List (Option A) → List A
present [] = []
present (none ∷ xs) = present xs
present (some x ∷ xs) = x ∷ present xs

-- `P` of every element; it computes to tuples, which the tactics read.
abbrev pub All {ℓ κ} : {A : Type ℓ} → (A → Type κ) → List A → Type κ
All P [] = Unit
All P (x ∷ xs) = P x × All P xs

module _ {ℓ κ} {A : Type ℓ} (P : A → Type κ) where
  pub All-append : (xs ys : List A) → All P xs → All P ys → All P (xs ++ ys)
  All-append [] ys hx hy = hy
  All-append (x ∷ xs) ys hx hy = (hx.0, All-append xs ys hx.1 hy)

-- Membership by recursion.
abbrev pub Among : {A : Type 0} → A → List A → Type 0
Among a [] = ⊥
Among a (x ∷ xs) = (a ≡ x) ⊎ Among a xs

module _ {ℓ κ} {A : Type ℓ} (P Q : A → Type κ) where
  pub All-map : (xs : List A) → ((x : A) → P x → Q x) → All P xs → All Q xs
  All-map [] f h = tt
  All-map (x ∷ xs) f h = (f x h.0, All-map xs f h.1)

module _ {κ} {A : Type 0} (P : A → Type κ) where
  pub All-among : (a : A) (xs : List A) → All P xs → Among a xs → P a
  All-among a [] h m = absurd m
  All-among a (x ∷ xs) h (inl e) = subst P (sym e) h.0
  All-among a (x ∷ xs) h (inr m) = All-among a xs h.1 m

module _ {A : Type 0} (p : A → Bool) where
  -- What a filter keeps is an element that passes.
  pub Among-filter : (a : A) (xs : List A) → Among a (filter p xs) → Among a xs × (p a ≡ true)
  Among-filter a [] m = absurd m
  Among-filter a (x ∷ xs) m = keep (p x) refl (Among-filter a xs) m
    where
      keep :
          (b : Bool)
          → p x ≡ b
          → (Among a (filter p xs) → Among a xs × (p a ≡ true))
          → Among a (if b then x ∷ filter p xs else filter p xs)
          → Among a (x ∷ xs) × (p a ≡ true)
      keep true e ih (inl same) = (inl same, subst (λ y. p y ≡ true) (sym same) e)
      keep true e ih (inr later) = let r = ih later in (inr r.0, r.1)
      keep false e ih later = let r = ih later in (inr r.0, r.1)

  pub All-of_filter {κ} :
      (P : A → Type κ) (xs : List A) → All P (filter p xs) → All (λ x. p x ≡ true → P x) xs
  All-of_filter P [] h = tt
  All-of_filter P (x ∷ xs) h = keep (p x) refl (All-of_filter P xs) h
    where
      keep :
          (b : Bool)
          → p x ≡ b
          → (All P (filter p xs) → All (λ y. p y ≡ true → P y) xs)
          → All P (if b then x ∷ filter p xs else filter p xs)
          → All (λ y. p y ≡ true → P y) (x ∷ xs)
      keep true e ih k = (λ _. k.0, ih k.1)
      keep false e ih k = (λ e'. cc, ih k)

-- An element that the test refuses leaves a filtered list as it is, wherever it stands.
pub filter_skips {ℓ} :
    {A : Type ℓ} (p : A → Bool) (xs ys : List A) (x : A)
    → p x ≡ false
    → filter p (xs ++ x ∷ ys) ≡ filter p (xs ++ ys)
filter_skips p [] ys x h = rw h
filter_skips p (y ∷ xs) ys x h =
    ap (λ rest. if p y then y ∷ rest else rest) (filter_skips p xs ys x h)
