-- ===== src/Items/Flat/Laws.antt =====
-- The end of the tags of flat positions: what is counted, what is kept, and that a second pass has
-- nothing left to end.
use ngv_trader.Prelude.{
  ℕ, ◌+◌, ◌≡◌, refl, inl, inr, Bool, Bool-cases, true, false, not, ◌&&◌, Option, none, some,
  is_none, List, [], ◌∷◌, filter, arith, FloatOps,
}
use ngv_trader.Items.Refs.{EntityType, entity_eq}
use ngv_trader.Items.Links.{TagLink}
use ngv_trader.Items.Links.Laws.{count}
use ngv_trader.Items.Flat.{HeldRow, SettledRow, is_held, ends_now, end_flat_position_tags}

abbrev pub is_open : TagLink → Bool
is_open link = is_none link.ended_at

masked :
    (account : Option ℕ) (f g : ℕ → Bool)
    → elim account [ none ↦ false | some a ↦ f a ] ≡ true
    → elim account [ none ↦ false | some a ↦ not (f a) && g a ] ≡ false
masked none f g h = refl
masked (some a) f g h = rw h refl

module _ {F : Type 0} ⦃fl : FloatOps F⦄ where
  -- The account of the link holds its contract.
  abbrev pub is_of_held : List (SettledRow F) → List (HeldRow F) → TagLink → Bool
  is_of_held settled live link = elim link.columns.account_id [
    | none ↦ false
    | some account_id ↦ is_held settled live account_id link.columns.con_id
  ]

  module _ (ct_date : ℕ → ℕ) (snapshots : List (ℕ × ℕ)) (settled : List (SettledRow F))
      (live : List (HeldRow F)) where
    ends_now-is_open :
        (link : TagLink)
        → ends_now ct_date snapshots settled live link ≡ true
        → is_none link.ended_at ≡ true
    unfolding ends_now
    ends_now-is_open link h = elim (Bool-cases (entity_eq link.entity_type EntityType.position)) [
      | inl e ↦ elim (Bool-cases (is_none link.ended_at)) [
        | inl o ↦ o
        | inr o ↦ cc (rw (e, o) at h)
      ]
      | inr e ↦ cc (rw e at h)
    ]

    ends_now_ended :
        (link : TagLink) (now : ℕ)
        → ends_now ct_date snapshots settled live (record link { ended_at = some now }) ≡ false
    unfolding ends_now
    ends_now_ended link now = elim (Bool-cases (entity_eq link.entity_type EntityType.position)) [
      | inl e ↦ rw e refl
      | inr e ↦ rw e refl
    ]

    ends_now_held :
        (link : TagLink)
        → is_of_held settled live link ≡ true
        → ends_now ct_date snapshots settled live link ≡ false
    unfolding ends_now
    ends_now_held link h = elim (Bool-cases (entity_eq link.entity_type EntityType.position)) [
      | inl e ↦ elim (Bool-cases (is_none link.ended_at)) [
        | inl o ↦ rw (e, o) (masked link.columns.account_id _ _ h)
        | inr o ↦ rw (e, o) refl
      ]
      | inr e ↦ rw e refl
    ]

    end_flat_position_tags-count :
        (now : ℕ) (links : List TagLink)
        → let (ended, rest) = end_flat_position_tags ct_date now snapshots settled live links in
          ended + count is_open rest ≡ count is_open links
    unfolding end_flat_position_tags
    end_flat_position_tags-count now [] = refl
    end_flat_position_tags-count now (link ∷ links) =
        elim (Bool-cases (ends_now ct_date snapshots settled live link)) [
          | inl e ↦
              rw (e, ends_now-is_open link e)
                (omega (arith, end_flat_position_tags-count now links))
          | inr e ↦ elim (Bool-cases (is_none link.ended_at)) [
            | inl o ↦ rw (e, o) (omega (arith, end_flat_position_tags-count now links))
            | inr o ↦ rw (e, o) (end_flat_position_tags-count now links)
          ]
        ]

    end_flat_position_tags_held :
        (now : ℕ) (links : List TagLink)
        → filter
            (is_of_held settled live)
            (end_flat_position_tags ct_date now snapshots settled live links).1
          ≡ filter (is_of_held settled live) links
    unfolding end_flat_position_tags
    end_flat_position_tags_held now [] = refl
    end_flat_position_tags_held now (link ∷ links) =
        elim (Bool-cases (ends_now ct_date snapshots settled live link)) [
          | inl e ↦ elim (Bool-cases (is_of_held settled live link)) [
            | inl o ↦ cc (e, ends_now_held link o)
            | inr o ↦ rw (e, o) (end_flat_position_tags_held now links)
          ]
          | inr e ↦ elim (Bool-cases (is_of_held settled live link)) [
            | inl o ↦ rw (e, o, end_flat_position_tags_held now links) refl
            | inr o ↦ rw (e, o) (end_flat_position_tags_held now links)
          ]
        ]

    end_flat_position_tags_again :
        (now later : ℕ) (links : List TagLink)
        → let rest = (end_flat_position_tags ct_date now snapshots settled live links).1 in
          end_flat_position_tags ct_date later snapshots settled live rest ≡ (0, rest)
    unfolding end_flat_position_tags
    end_flat_position_tags_again now later [] = refl
    end_flat_position_tags_again now later (link ∷ links) =
        let rest = end_flat_position_tags_again now later links in
        elim (Bool-cases (ends_now ct_date snapshots settled live link)) [
          | inl e ↦ rw (e, ends_now_ended link now, rest) refl
          | inr e ↦ rw (e, e, rest) refl
        ]

  -- What a pass over `before` leaves: `ended` counts the links that closed, the links of positions that
  -- are held stay as they were, and a later pass over the same rows ends no further link.
  pub record IsSwept (ct_date : ℕ → ℕ) (snapshots : List (ℕ × ℕ)) (settled : List (SettledRow F))
      (live : List (HeldRow F)) (before : List TagLink) (ended : ℕ) (after : List TagLink)
      : Type 0 where
    pub counted : ended + count is_open after ≡ count is_open before
    pub held_kept : filter (is_of_held settled live) after ≡ filter (is_of_held settled live) before
    pub settles :
        (later : ℕ) → end_flat_position_tags ct_date later snapshots settled live after ≡ (0, after)

  -- After the end of the tags of flat positions, the count and the links that are still open make up
  -- the links open before, the links of positions that are held are unchanged, and a later pass over
  -- the same rows changes nothing.
  pub end_flat_position_tags-IsSwept :
      (ct_date : ℕ → ℕ) (now : ℕ) (snapshots : List (ℕ × ℕ)) (settled : List (SettledRow F))
      (live : List (HeldRow F)) (links : List TagLink)
      → let (ended, after) = end_flat_position_tags ct_date now snapshots settled live links in
        IsSwept ct_date snapshots settled live links ended after
  end_flat_position_tags-IsSwept ct_date now snapshots settled live links = record {
    counted = end_flat_position_tags-count ct_date snapshots settled live now links;
    held_kept = end_flat_position_tags_held ct_date snapshots settled live now links;
    settles = λ later. end_flat_position_tags_again ct_date snapshots settled live now later links;
  }
