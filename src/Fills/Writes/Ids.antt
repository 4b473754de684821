-- ===== src/Fills/Writes/Ids.antt =====
-- Lists of ids to which ids join that are not there yet.
use ngv_trader.Prelude.{
  ◌≡◌, refl, ◌∙◌, inl, inr, true, false, ◌||◌, List, [], ◌∷◌, ◌++◌, Text, text_eq, text_eq_refl,
  text_eq-true, text_mem, Bool-cases, All, if◌then◌else◌, arith,
}

-- An id joins a list of ids at the end, unless the list has it.
abbrev pub add_id : Text → List Text → List Text
add_id id ids = if text_mem id ids then ids else ids ++ id ∷ []

unfoldable pub add_ids : List Text → List Text → List Text
add_ids [] ids = ids
add_ids (id ∷ new) ids = add_ids new (add_id id ids)

pub add_ids-append :
    (new more ids : List Text) → add_ids (new ++ more) ids ≡ add_ids more (add_ids new ids)
unfolding add_ids
add_ids-append [] more ids = refl
add_ids-append (id ∷ new) more ids = add_ids-append new more (add_id id ids)

pub add_id_behind :
    (id first : Text) (ids : List Text)
    → first ∷ add_id id ids ≡ (if text_mem id ids then first ∷ ids else first ∷ ids ++ id ∷ [])
add_id_behind id first ids = elim (Bool-cases (text_mem id ids)) [
  | inl e ↦ rw e refl
  | inr e ↦ rw e refl
]

-- No id stands twice.
abbrev pub AreDistinct : List Text → Type 0
AreDistinct [] = Unit
AreDistinct (id ∷ ids) = (text_mem id ids ≡ false) × AreDistinct ids

pub text_eq-false_comm : (a b : Text) → text_eq a b ≡ false → text_eq b a ≡ false
text_eq-false_comm a b h = elim (Bool-cases (text_eq b a)) [
  | inl e ↦ let same : b ≡ a = text_eq-true b a e in absurd (cc (text_eq_refl a, rw same at h))
  | inr e ↦ e
]

text_mem-append :
    (x : Text) (ids more : List Text)
    → text_mem x (ids ++ more) ≡ (text_mem x ids || text_mem x more)
text_mem-append x [] more = refl
text_mem-append x (id ∷ ids) more = ground (arith, text_mem-append x ids more)

add_id_has : (id : Text) (ids : List Text) → text_mem id (add_id id ids) ≡ true
add_id_has id ids = ground (arith, text_mem-append id ids (id ∷ []), text_eq_refl id)

add_id_keeps :
    (x id : Text) (ids : List Text) → text_mem x ids ≡ true → text_mem x (add_id id ids) ≡ true
add_id_keeps x id ids h = ground (arith, text_mem-append x ids (id ∷ []))

add_ids_keeps :
    (new ids : List Text) (x : Text) → text_mem x ids ≡ true → text_mem x (add_ids new ids) ≡ true
unfolding add_ids
add_ids_keeps [] ids x h = h
add_ids_keeps (id ∷ new) ids x h = add_ids_keeps new (add_id id ids) x (add_id_keeps x id ids h)

abbrev AreIn : List Text → List Text → Type 0
AreIn ids new = All (λ x. text_mem x ids ≡ true) new

add_ids_has : (new ids : List Text) → AreIn (add_ids new ids) new
unfolding add_ids
add_ids_has [] ids = tt
add_ids_has (id ∷ new) ids =
    (add_ids_keeps new (add_id id ids) id (add_id_has id ids), add_ids_has new (add_id id ids))

add_ids_absorbs : (new ids : List Text) → AreIn ids new → add_ids new ids ≡ ids
unfolding add_ids
add_ids_absorbs [] ids h = refl
add_ids_absorbs (id ∷ new) ids h = rw h.0 (add_ids_absorbs new ids h.1)

-- Ids that have joined once change nothing when they join again.
pub add_ids_twice : (new ids : List Text) → add_ids new (add_ids new ids) ≡ add_ids new ids
add_ids_twice new ids = add_ids_absorbs new (add_ids new ids) (add_ids_has new ids)

add_last-AreDistinct :
    (id : Text) (ids : List Text)
    → text_mem id ids ≡ false
    → AreDistinct ids
    → AreDistinct (ids ++ id ∷ [])
add_last-AreDistinct id [] h d = (refl, tt)
add_last-AreDistinct id (first ∷ ids) h d =
    let apart : text_eq id first ≡ false = ground arith in
    let later : text_mem id ids ≡ false = ground arith in
    let away : text_eq first id ≡ false = text_eq-false_comm id first apart in
    (
      text_mem-append first ids (id ∷ []) ∙ rw (d.0, away) refl,
      add_last-AreDistinct id ids later d.1,
    )

add_id-AreDistinct : (id : Text) (ids : List Text) → AreDistinct ids → AreDistinct (add_id id ids)
add_id-AreDistinct id ids d = elim (Bool-cases (text_mem id ids)) [
  | inl e ↦ rw e d
  | inr e ↦ rw e (add_last-AreDistinct id ids e d)
]

pub add_ids-AreDistinct : (new ids : List Text) → AreDistinct ids → AreDistinct (add_ids new ids)
unfolding add_ids
add_ids-AreDistinct [] ids d = d
add_ids-AreDistinct (id ∷ new) ids d =
    add_ids-AreDistinct new (add_id id ids) (add_id-AreDistinct id ids d)
