-- ===== src/Fills/Ingest/Combos.antt =====
-- The combos of a batch of fills, told from the batch alone: the legs of a key in the order of the
-- batch, and the ids of the summaries. The grouping that a run builds up leg by leg is this one.
use ngv_trader.Prelude.{
  ◌≡◌, refl, sym, ap, ◌∙◌, inl, inr, Bool, true, false, not, is_empty, Bool-cases, Option, none,
  some, Option-cases, List, [], ◌∷◌, ◌++◌, map, filter, any, Text, text_eq, text_eq-true,
  if◌then◌else◌, subst,
}
use mathlib.Core.List.{append-nil, append_assoc}
use ngv_trader.Fills.Rows.{NormalizedFill}
use ngv_trader.Fills.Writes.Ids.{text_eq-false_comm}
use ngv_trader.Fills.Combo.{combo_exec_id_of}
use ngv_trader.Fills.Ingest.{add_leg}

abbrev is_seen : Text → List Text → Bool
is_seen key seen = any (λ k. text_eq k key) seen

-- No key stands twice.
abbrev pub AreApart : List Text → Type 0
AreApart [] = Unit
AreApart (key ∷ keys) = (is_seen key keys ≡ false) × AreApart keys

unseen-append :
    (key last : Text) (keys : List Text)
    → is_seen key keys ≡ false
    → text_eq last key ≡ false
    → is_seen key (keys ++ last ∷ []) ≡ false
unseen-append key last [] h e = rw e refl
unseen-append key last (k ∷ keys) h e = elim (Bool-cases (text_eq k key)) [
  | inl m ↦ absurd (cc (rw m at h))
  | inr m ↦ rw m (unseen-append key last keys (rw m at h) e)
]

unseen-head :
    (key k : Text) (keys : List Text) → is_seen key (k ∷ keys) ≡ false → text_eq k key ≡ false
unseen-head key k keys h = elim (Bool-cases (text_eq k key)) [
  | inl m ↦ absurd (cc (rw m at h))
  | inr m ↦ m
]

unseen-tail :
    (key k : Text) (keys : List Text) → is_seen key (k ∷ keys) ≡ false → is_seen key keys ≡ false
unseen-tail key k keys h = rw (unseen-head key k keys h) at h

AreApart-append :
    (keys : List Text) (key : Text)
    → AreApart keys
    → is_seen key keys ≡ false
    → AreApart (keys ++ key ∷ [])
AreApart-append [] key d h = (refl, tt)
AreApart-append (k ∷ keys) key d h =
    let away : text_eq key k ≡ false = text_eq-false_comm k key (unseen-head key k keys h) in
    (unseen-append k key keys d.0 away, AreApart-append keys key d.1 (unseen-tail key k keys h))

module _ {F : Type 0} where
  abbrev has_key : Text → NormalizedFill F → Bool
  has_key key fill = elim fill.combo_key [ none ↦ false | some k ↦ text_eq key k ]

  -- The legs of a combo, in the order of the batch.
  abbrev pub legs_of : Text → List (NormalizedFill F) → List (NormalizedFill F)
  legs_of key fills = filter (has_key key) fills

  -- Each key with its legs, in the order of the first legs; `seen` are the keys that were met before.
  unfoldable pub combos_from :
      List Text → List (NormalizedFill F) → List (Text × List (NormalizedFill F))
  combos_from seen [] = []
  combos_from seen (fill ∷ fills) = elim fill.combo_key [
    | none ↦ combos_from seen fills
    | some key ↦
        let known = combos_from seen fills in
        let later = combos_from (seen ++ key ∷ []) fills in
        if is_seen key seen then known else (key, fill ∷ legs_of key fills) ∷ later
  ]

  -- A combo of fewer than two legs has no summary.
  abbrev pub summary_id : Text → List (NormalizedFill F) → List Text
  summary_id key [] = []
  summary_id key (leg ∷ []) = []
  summary_id key (leg ∷ next ∷ legs) =
      combo_exec_id_of key
        (filter (λ id. not (is_empty id)) (map (λ l. l.ib_exec_id) (leg ∷ next ∷ legs)))
      ∷ []

  abbrev pub summary_ids : List (Text × List (NormalizedFill F)) → List Text
  summary_ids [] = []
  summary_ids ((key, legs) ∷ combos) = summary_id key legs ++ summary_ids combos

  -- The ids of the summaries of a batch.
  abbrev pub summaries_of : List (NormalizedFill F) → List Text
  summaries_of fills = summary_ids (combos_from [] fills)

  abbrev pub keys_of : List (Text × List (NormalizedFill F)) → List Text
  keys_of combos = map (λ combo. combo.0) combos

  -- What a run does to its combos at a fill.
  abbrev pub with_leg :
      NormalizedFill F
      → List (Text × List (NormalizedFill F))
      → List (Text × List (NormalizedFill F))
  with_leg fill combos = elim fill.combo_key [ none ↦ combos | some key ↦ add_leg key fill combos ]

  unfoldable pub with_legs :
      List (NormalizedFill F)
      → List (Text × List (NormalizedFill F))
      → List (Text × List (NormalizedFill F))
  unfolding add_leg
  with_legs [] combos = combos
  with_legs (fill ∷ fills) combos = with_legs fills (with_leg fill combos)

  abbrev extended :
      List (NormalizedFill F)
      → List (Text × List (NormalizedFill F))
      → List (Text × List (NormalizedFill F))
  extended fills combos = map (λ combo. (combo.0, combo.1 ++ legs_of combo.0 fills)) combos

  extended-nil : (combos : List (Text × List (NormalizedFill F))) → extended [] combos ≡ combos
  extended-nil [] = refl
  extended-nil ((key, legs) ∷ combos) = rw (append-nil legs, extended-nil combos) refl

  extended-append :
      (fills : List (NormalizedFill F)) (xs ys : List (Text × List (NormalizedFill F)))
      → extended fills (xs ++ ys) ≡ extended fills xs ++ extended fills ys
  extended-append fills [] ys = refl
  extended-append fills (x ∷ xs) ys =
      ap (λ rest. (x.0, x.1 ++ legs_of x.0 fills) ∷ rest) (extended-append fills xs ys)

  -- A fill that is no leg of the combos.
  extended_plain :
      (fill : NormalizedFill F) (fills : List (NormalizedFill F))
      (combos : List (Text × List (NormalizedFill F)))
      → fill.combo_key ≡ none
      → extended (fill ∷ fills) combos ≡ extended fills combos
  extended_plain fill fills [] e = refl
  extended_plain fill fills ((key, legs) ∷ combos) e =
      rw (e, extended_plain fill fills combos e) refl

  extended_unseen :
      (key : Text) (fill : NormalizedFill F) (fills : List (NormalizedFill F))
      (combos : List (Text × List (NormalizedFill F)))
      → fill.combo_key ≡ some key
      → is_seen key (keys_of combos) ≡ false
      → extended (fill ∷ fills) combos ≡ extended fills combos
  extended_unseen key fill fills [] e h = refl
  extended_unseen key fill fills ((k, legs) ∷ combos) e h =
      rw
        (
          e,
          unseen-head key k (keys_of combos) h,
          extended_unseen key fill fills combos e (unseen-tail key k (keys_of combos) h),
        )
        refl

  add_leg_unseen :
      (key : Text) (fill : NormalizedFill F) (combos : List (Text × List (NormalizedFill F)))
      → is_seen key (keys_of combos) ≡ false
      → add_leg key fill combos ≡ combos ++ (key, fill ∷ []) ∷ []
  unfolding add_leg
  add_leg_unseen key fill [] h = refl
  add_leg_unseen key fill ((k, legs) ∷ combos) h =
      rw
        (
          unseen-head key k (keys_of combos) h,
          add_leg_unseen key fill combos (unseen-tail key k (keys_of combos) h),
        )
        refl

  keys-append :
      (xs : List (Text × List (NormalizedFill F))) (key : Text) (legs : List (NormalizedFill F))
      → keys_of (xs ++ (key, legs) ∷ []) ≡ keys_of xs ++ key ∷ []
  keys-append [] key legs = refl
  keys-append (x ∷ xs) key legs = ap (λ rest. x.0 ∷ rest) (keys-append xs key legs)

  has_key_of :
      (fill : NormalizedFill F) (k key : Text)
      → fill.combo_key ≡ some key
      → has_key k fill ≡ text_eq k key
  has_key_of fill k key e = ap (λ o. elim o [ none ↦ false | some j ↦ text_eq k j ]) e

  legs_of_hit :
      (k : Text) (fill : NormalizedFill F) (fills : List (NormalizedFill F))
      → has_key k fill ≡ true
      → legs_of k (fill ∷ fills) ≡ fill ∷ legs_of k fills
  legs_of_hit k fill fills h = ap (λ b. if b then fill ∷ legs_of k fills else legs_of k fills) h

  legs_of_miss :
      (k : Text) (fill : NormalizedFill F) (fills : List (NormalizedFill F))
      → has_key k fill ≡ false
      → legs_of k (fill ∷ fills) ≡ legs_of k fills
  legs_of_miss k fill fills h = ap (λ b. if b then fill ∷ legs_of k fills else legs_of k fills) h

  with_leg_of :
      (key : Text) (fill : NormalizedFill F) (combos : List (Text × List (NormalizedFill F)))
      → fill.combo_key ≡ some key
      → with_leg fill combos ≡ add_leg key fill combos
  with_leg_of key fill combos e =
      ap (λ o. elim o [ none ↦ combos | some j ↦ add_leg j fill combos ]) e

  -- A further leg of a combo that is there keeps the keys, and is in front of the later ones.
  add_leg_seen :
      (key : Text) (fill : NormalizedFill F) (fills : List (NormalizedFill F))
      (combos : List (Text × List (NormalizedFill F)))
      → fill.combo_key ≡ some key
      → AreApart (keys_of combos)
      → is_seen key (keys_of combos) ≡ true
      → (keys_of (add_leg key fill combos) ≡ keys_of combos)
        × (extended fills (add_leg key fill combos) ≡ extended (fill ∷ fills) combos)
  unfolding add_leg
  add_leg_seen key fill fills [] e d h = cc
  add_leg_seen key fill fills ((k, legs) ∷ combos) e d h = elim (Bool-cases (text_eq k key)) [
    | inl m ↦
        let same : k ≡ key = text_eq-true k key m in
        let rest =
          extended_unseen key fill fills combos e
            (subst (λ j. is_seen j (keys_of combos) ≡ false) same d.0) in
        let hit = legs_of_hit k fill fills (has_key_of fill k key e ∙ m) in
        let longer : (legs ++ fill ∷ []) ++ legs_of k fills ≡ legs ++ legs_of k (fill ∷ fills) =
          append_assoc legs (fill ∷ []) (legs_of k fills) ∙ ap (λ l. legs ++ l) (sym hit) in
        rw m (
          refl,
          ap (λ l. (k, l) ∷ extended fills combos) longer
              ∙ ap (λ cs. (k, legs ++ legs_of k (fill ∷ fills)) ∷ cs) (sym rest),
        )
    | inr m ↦
        let (keys, rest) = add_leg_seen key fill fills combos e d.1 (rw m at h) in
        let miss = legs_of_miss k fill fills (has_key_of fill k key e ∙ m) in
        rw m (
          ap (λ ks. k ∷ ks) keys,
          ap (λ cs. (k, legs ++ legs_of k fills) ∷ cs) rest
              ∙ ap (λ l. (k, legs ++ l) ∷ extended (fill ∷ fills) combos) (sym miss),
        )
  ]

  -- One step of the grouping of a batch, by the fill's key.
  abbrev step :
      List Text
      → NormalizedFill F
      → List (NormalizedFill F)
      → Option Text
      → List (Text × List (NormalizedFill F))
  step seen fill fills none = combos_from seen fills
  step seen fill fills (some key) =
      if is_seen key seen
      then combos_from seen fills
      else (key, fill ∷ legs_of key fills) ∷ combos_from (seen ++ key ∷ []) fills

  combos_from-step :
      (seen : List Text) (fill : NormalizedFill F) (fills : List (NormalizedFill F))
      → combos_from seen (fill ∷ fills) ≡ step seen fill fills fill.combo_key
  unfolding combos_from
  combos_from-step seen fill fills = by_key fill.combo_key
    where
      by_key :
          (o : Option Text)
          → elim o [
            | none ↦ combos_from seen fills
            | some key ↦
                if is_seen key seen
                then combos_from seen fills
                else (key, fill ∷ legs_of key fills) ∷ combos_from (seen ++ key ∷ []) fills
          ]
            ≡ step seen fill fills o
      by_key none = refl
      by_key (some key) = refl

  with_legs_unseen :
      (key : Text) (fill : NormalizedFill F) (fills : List (NormalizedFill F))
      (combos : List (Text × List (NormalizedFill F)))
      → fill.combo_key ≡ some key
      → is_seen key (keys_of combos) ≡ false
      → extended fills (combos ++ (key, fill ∷ []) ∷ [])
          ++ combos_from (keys_of (combos ++ (key, fill ∷ []) ∷ [])) fills
        ≡ extended (fill ∷ fills) combos ++ combos_from (keys_of combos) (fill ∷ fills)
  with_legs_unseen key fill fills combos e m =
      let last = (key, fill ∷ legs_of key fills) ∷ [] in
      let later = combos_from (keys_of combos ++ key ∷ []) fills in
      let met : combos_from (keys_of combos) (fill ∷ fills) ≡ last ++ later =
        combos_from-step (keys_of combos) fill fills
        ∙ (ap (step (keys_of combos) fill fills) e
            ∙ ap (λ b. if b then combos_from (keys_of combos) fills else last ++ later) m) in
      ap (λ ks. extended fills (combos ++ (key, fill ∷ []) ∷ []) ++ combos_from ks fills)
        (keys-append combos key (fill ∷ []))
      ∙ (ap (λ xs. xs ++ later) (extended-append fills combos ((key, fill ∷ []) ∷ []))
          ∙ (append_assoc (extended fills combos) last later
              ∙ (ap (λ xs. xs ++ (last ++ later)) (sym (extended_unseen key fill fills combos e m))
                  ∙ ap (λ ys. extended (fill ∷ fills) combos ++ ys) (sym met))))

  -- The grouping leg by leg over combos that are there: these get their further legs, and the new
  -- ones follow.
  pub with_legs-combos_from :
      (fills : List (NormalizedFill F)) (combos : List (Text × List (NormalizedFill F)))
      → AreApart (keys_of combos)
      → with_legs fills combos ≡ extended fills combos ++ combos_from (keys_of combos) fills
  unfolding with_legs combos_from
  with_legs-combos_from [] combos d = sym (append-nil (extended [] combos) ∙ extended-nil combos)
  with_legs-combos_from (fill ∷ fills) combos d = elim (Option-cases fill.combo_key) [
    | inl e ↦
        ap (with_legs fills) (ap (λ o. elim o [ none ↦ combos | some j ↦ add_leg j fill combos ]) e)
        ∙ (with_legs-combos_from fills combos d
            ∙ (ap (λ xs. xs ++ combos_from (keys_of combos) fills)
                  (sym (extended_plain fill fills combos e))
                ∙ ap (λ ys. extended (fill ∷ fills) combos ++ ys)
                    (sym (
                      combos_from-step (keys_of combos) fill fills
                      ∙ ap (step (keys_of combos) fill fills) e))))
    | inr (key, e) ↦ elim (Bool-cases (is_seen key (keys_of combos))) [
      | inl m ↦
          let (keys, rest) = add_leg_seen key fill fills combos e d m in
          let met : combos_from (keys_of combos) (fill ∷ fills)
              ≡ combos_from (keys_of combos) fills =
            combos_from-step (keys_of combos) fill fills
            ∙ (ap (step (keys_of combos) fill fills) e
                ∙ ap
                    (λ b.
                      if b
                      then combos_from (keys_of combos) fills
                      else (key, fill ∷ legs_of key fills)
                        ∷ combos_from (keys_of combos ++ key ∷ []) fills)
                    m) in
          ap (with_legs fills) (with_leg_of key fill combos e)
          ∙ (with_legs-combos_from fills (add_leg key fill combos) (subst AreApart (sym keys) d)
              ∙ (ap (λ ks. extended fills (add_leg key fill combos) ++ combos_from ks fills) keys
                  ∙ (ap (λ xs. xs ++ combos_from (keys_of combos) fills) rest
                      ∙ ap (λ ys. extended (fill ∷ fills) combos ++ ys) (sym met))))
      | inr m ↦
          let apart =
            subst AreApart (sym (keys-append combos key (fill ∷ [])))
              (AreApart-append (keys_of combos) key d m) in
          ap (with_legs fills) (with_leg_of key fill combos e ∙ add_leg_unseen key fill combos m)
          ∙ (with_legs-combos_from fills (combos ++ (key, fill ∷ []) ∷ []) apart
              ∙ with_legs_unseen key fill fills combos e m)
    ]
  ]
