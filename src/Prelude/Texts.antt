-- ===== src/Prelude/Texts.antt =====
-- ASCII text as its code points, with the operations of Python's `str` that the program calls.
use Prim.Native.Nat.{ℕ, ◌+◌, ◌-◌}
use Prim.Native.Char.{code}
use Prim.Native.String.{String}
use mathlib.Core.Path.{◌≡◌, refl}
use mathlib.Core.Logic.{◌↔◌}
use mathlib.Core.Bool.{Bool, true, false, ◌&&◌, ◌||◌}
use mathlib.Core.Option.{Option, none, some}
use mathlib.Core.List.{List, [], ◌∷◌, map, reverse}
use native.Mathlib.Omega.{arith}
use ngv_trader.Prelude.Tests.{leb, ◌==◌, if◌then◌else◌}

abbrev pub Text : Type 0
Text = List ℕ

-- A literal of the source.
abbrev pub text : String → Text
text String.[] = []
text (String.◌∷◌ c s) = code c ∷ text s

unfoldable pub text_eq : Text → Text → Bool
text_eq [] [] = true
text_eq [] (_ ∷ _) = false
text_eq (_ ∷ _) [] = false
text_eq (a ∷ s) (b ∷ t) = (a == b) && text_eq s t

pub text_eq-true : (s t : Text) → text_eq s t ≡ true → s ≡ t
unfolding text_eq
text_eq-true [] [] h = refl
text_eq-true [] (b ∷ t) h = cc
text_eq-true (a ∷ s) [] h = cc
text_eq-true (a ∷ s) (b ∷ t) h = ground (arith, text_eq-true s t)

pub text_eq_refl : (s : Text) → text_eq s s ≡ true
unfolding text_eq
text_eq_refl [] = refl
text_eq_refl (a ∷ s) = ground (arith, text_eq_refl s)

pub text_eq_iff : (s t : Text) → (text_eq s t ≡ true) ↔ (s ≡ t)
text_eq_iff s t = (text_eq-true s t, λ e. cc (e, text_eq_refl s))

-- `str.upper`, `str.lower` on one character.
abbrev pub to_upper : ℕ → ℕ
to_upper c = if leb b'a' c && leb c b'z' then c - 32 else c

abbrev pub to_lower : ℕ → ℕ
to_lower c = if leb b'A' c && leb c b'Z' then c + 32 else c

-- The characters that `str.strip` removes: tab to carriage return, the separators 28 to 31, space.
abbrev pub is_space : ℕ → Bool
is_space c = (leb 9 c && leb c 13) || (leb 28 c && leb c 32)

unfoldable pub lstrip : Text → Text
lstrip [] = []
lstrip (c ∷ s) = let rest = lstrip s in if is_space c then rest else c ∷ s

unfoldable pub strip : Text → Text
unfolding lstrip
strip s = reverse (lstrip (reverse (lstrip s)))

unfoldable pub upper : Text → Text
upper s = map to_upper s

unfoldable pub lower : Text → Text
lower s = map to_lower s

-- `(value or "")`
abbrev pub or_empty : Option Text → Text
or_empty none = []
or_empty (some s) = s

-- `s.startswith(p)`
unfoldable pub starts_with : Text → Text → Bool
starts_with s [] = true
starts_with [] (_ ∷ _) = false
starts_with (a ∷ s) (b ∷ p) = (a == b) && starts_with s p

-- `s[len(p):]` for a prefix `p`.
unfoldable pub drop_prefix : Text → Text → Text
drop_prefix s [] = s
drop_prefix [] (_ ∷ _) = []
drop_prefix (_ ∷ s) (_ ∷ p) = drop_prefix s p

-- `value in {...}`
abbrev pub text_mem : Text → List Text → Bool
text_mem s [] = false
text_mem s (t ∷ ts) = text_eq s t || text_mem s ts

-- A `dict` literal keyed by text: the first entry is taken, as the keys of the source differ.
abbrev pub lookup_text : {A : Type 0} → Text → List (Text × A) → Option A
lookup_text k [] = none
lookup_text k ((j, a) ∷ d) = let rest = lookup_text k d in if text_eq k j then some a else rest

abbrev pub is_empty : Text → Bool
is_empty [] = true
is_empty (_ ∷ _) = false

-- Equality of optional values.
abbrev pub option_eq {ℓ} : {A : Type ℓ} → (A → A → Bool) → Option A → Option A → Bool
option_eq eq none none = true
option_eq eq none (some _) = false
option_eq eq (some _) none = false
option_eq eq (some a) (some b) = eq a b

-- `a or b` on optional texts: a missing or empty text gives way.
abbrev pub text_or_else : Option Text → Option Text → Option Text
text_or_else none b = b
text_or_else (some []) b = b
text_or_else (some (c ∷ s)) b = some (c ∷ s)
