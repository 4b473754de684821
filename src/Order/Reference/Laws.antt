-- ===== src/Order/Reference/Laws.antt =====
-- The round trip of an order's reference.
use ngv_trader.Prelude.{
  ℕ, zero, suc, ◌+◌, ◌*◌, ◌/◌, ◌%◌, ◌<◌, ◌≡◌, refl, ap, ◌∙◌, inl, inr, Bool, true, false, some, [],
  ◌∷◌, Text, strip, arith, ltb, Bool-cases, is_space, lstrip, All, All-append,
}
use mathlib.Core.List.{reverse, reverse-append, reverse-reverse}
use ngv_trader.Prelude.Int.{pos}
use ngv_trader.Order.Reference.{
  digits_onto, to_text, parse_digits, parse_signed, parse_int, make_order_ref, parse_order_ref,
}

parse_digits_step :
    (d : ℕ) (rest : Text) (k : Bool) (acc : ℕ)
    → d < 10
    → parse_digits ((b'0' + d) ∷ rest) k acc ≡ parse_digits rest true (acc * 10 + d)
unfolding parse_digits
parse_digits_step d rest k acc h = ground arith

-- Reading the digits of `n` shifts the accumulator by their number and adds `n`.
parse-digits_onto :
    (fuel n : ℕ) (rest : Text) (k : Bool)
    → n < fuel
    → (b : ℕ) × ((acc : ℕ)
        → parse_digits (digits_onto fuel n rest) k acc ≡ parse_digits rest true (acc * b + n))
unfolding digits_onto
parse-digits_onto zero n rest k h = absurd (omega arith)
parse-digits_onto (suc fuel) n rest k h = elim (Bool-cases (ltb n 10)) [
  | inl last ↦ (
    10,
    λ acc. rw last (
        parse_digits_step (n % 10) rest k acc (omega arith)
        ∙ ap (parse_digits rest true) (ground arith)),
  )
  | inr more ↦
      let (b, ih) = parse-digits_onto fuel (n / 10) ((b'0' + n % 10) ∷ rest) k (ground arith) in
      (
        b * 10,
        λ acc. rw more (
            ih acc
            ∙ (parse_digits_step (n % 10) rest true (acc * b + n / 10) (omega arith)
                ∙ ap (parse_digits rest true) (omega arith))),
      )
]

abbrev IsInk : ℕ → Type 0
IsInk c = is_space c ≡ false

-- What holds of the ten digits holds of the characters of a number.
pub digits_onto-All :
    (P : ℕ → Type 0)
    → ((d : ℕ) → d < 10 → P (b'0' + d))
    → (fuel n : ℕ) (rest : Text) → All P rest
    → All P (digits_onto fuel n rest)
unfolding digits_onto
digits_onto-All P f zero n rest h = h
digits_onto-All P f (suc fuel) n rest h =
    let first : P (b'0' + n % 10) = f (n % 10) (omega arith) in
    elim (Bool-cases (ltb n 10)) [
      | inl last ↦ rw last (first, h)
      | inr more ↦ rw more (digits_onto-All P f fuel (n / 10) ((b'0' + n % 10) ∷ rest) (first, h))
    ]

pub to_text-All : (P : ℕ → Type 0) → ((d : ℕ) → d < 10 → P (b'0' + d)) → (n : ℕ) → All P (to_text n)
unfolding to_text
to_text-All P f n = digits_onto-All P f (suc n) n [] tt

-- The digits begin with a digit.
digits_onto-head :
    (fuel n : ℕ) (rest : Text)
    → n < fuel
    → (d : ℕ) × (s : Text) × (digits_onto fuel n rest ≡ (b'0' + d) ∷ s) × (d < 10)
unfolding digits_onto
digits_onto-head zero n rest h = absurd (omega arith)
digits_onto-head (suc fuel) n rest h = elim (Bool-cases (ltb n 10)) [
  | inl last ↦ (n % 10, rest, rw last, omega arith)
  | inr more ↦
      let (d, s, e, lt) = digits_onto-head fuel (n / 10) ((b'0' + n % 10) ∷ rest) (ground arith) in
      (d, s, rw more e, lt)
]

All-reverse : (s : Text) → All IsInk s → All IsInk (reverse s)
All-reverse [] h = h
All-reverse (c ∷ s) h =
    rw (reverse-append (c ∷ []) s)
      (All-append IsInk (reverse s) (c ∷ []) (All-reverse s h.1) (h.0, tt))

lstrip_ink : (s : Text) → All IsInk s → lstrip s ≡ s
unfolding lstrip
lstrip_ink [] h = refl
lstrip_ink (c ∷ s) h = rw h.0

strip_ink : (s : Text) → All IsInk s → strip s ≡ s
unfolding strip
strip_ink s h = rw (lstrip_ink s h, lstrip_ink (reverse s) (All-reverse s h), reverse-reverse)

parse_signed_digit :
    (d : ℕ) (s : Text)
    → d < 10
    → (n : ℕ) → parse_digits ((b'0' + d) ∷ s) false 0 ≡ some n
    → parse_signed ((b'0' + d) ∷ s) ≡ some (pos n)
unfolding parse_signed
parse_signed_digit d s h n e = ground arith

parse_int_digits :
    (t : Text) (n d : ℕ) (s : Text)
    → t ≡ (b'0' + d) ∷ s
    → d < 10
    → All IsInk t
    → parse_digits t false 0 ≡ some n
    → parse_int t ≡ some (pos n)
unfolding parse_int
parse_int_digits t n d s e lt ink h =
    rw (strip_ink t ink, e) (parse_signed_digit d s lt n (rw e at h))

pub parse_int-to_text : (n : ℕ) → parse_int (to_text n) ≡ some (pos n)
unfolding to_text parse_digits
parse_int-to_text n =
    let (d, s, e, lt) = digits_onto-head (suc n) n [] (omega arith) in
    let (b, read) = parse-digits_onto (suc n) n [] false (omega arith) in
    parse_int_digits (digits_onto (suc n) n []) n d s e lt
      (to_text-All IsInk (λ d h. ground arith) n) (read 0 ∙ ap some (omega arith))

-- Digits with zeros in front.
abbrev pub padded : ℕ → Text → Text
padded zero t = t
padded (suc k) t = b'0' ∷ padded k t

parse_digits-padded :
    (t : Text) (n : ℕ)
    → ((k : Bool) → parse_digits t k 0 ≡ some n)
    → (zeros : ℕ) (k : Bool) → parse_digits (padded zeros t) k 0 ≡ some n
parse_digits-padded t n h zero k = h k
parse_digits-padded t n h (suc zeros) k =
    parse_digits_step 0 (padded zeros t) k 0 (omega arith) ∙ parse_digits-padded t n h zeros true

pub padded-All :
    (P : ℕ → Type 0) → P b'0' → (zeros : ℕ) (t : Text) → All P t → All P (padded zeros t)
padded-All P z zero t h = h
padded-All P z (suc zeros) t h = (z, padded-All P z zeros t h)

padded-head :
    (zeros : ℕ) (t : Text)
    → (d : ℕ) × (s : Text) × (t ≡ (b'0' + d) ∷ s) × (d < 10)
    → (d : ℕ) × (s : Text) × (padded zeros t ≡ (b'0' + d) ∷ s) × (d < 10)
padded-head zero t h = h
padded-head (suc zeros) t h = (0, padded zeros t, refl, omega arith)

-- `int` does not mind leading zeros.
pub parse_int-padded : (zeros n : ℕ) → parse_int (padded zeros (to_text n)) ≡ some (pos n)
unfolding to_text parse_digits
parse_int-padded zeros n =
    let t = digits_onto (suc n) n [] in
    let (d, s, e, lt) = padded-head zeros t (digits_onto-head (suc n) n [] (omega arith)) in
    let reads : (k : Bool) → parse_digits t k 0 ≡ some n =
      λ k. (parse-digits_onto (suc n) n [] k (omega arith)).1 0 ∙ ap some (omega arith) in
    parse_int_digits (padded zeros t) n d s e lt
      (padded-All IsInk refl zeros t (to_text-All IsInk (λ d h. ground arith) n))
      (parse_digits-padded t n reads zeros false)

-- The reference that an order is sent with names that order when it is read back.
pub parse_order_ref-make_order_ref :
    (order_id : ℕ) → parse_order_ref (some (make_order_ref order_id)) ≡ some (pos order_id)
unfolding parse_order_ref make_order_ref
parse_order_ref-make_order_ref order_id = parse_int-to_text order_id
