-- ===== src/Settle/Match/Laws.antt =====
-- What a match tells of the two feeds.
use mathlib.Core.List.{append_assoc, reverse-append, reverse-reverse}
use ngv_trader.Prelude.{
  ℕ, ◌≡◌, refl, sym, subst, ◌≢◌, ap, ◌∙◌, inl, inr, Bool, true, false, some, List, [], ◌∷◌, ◌++◌,
  reverse, Text, is_empty, All, All-append, any, filter, ◌==◌, Bool-cases, some_inj, Option-cases,
}
use ngv_trader.Settle.Rows.{
  LiveExecution, TradeExecution, OrderGroupKey, Store, order_group_key_from_live,
}
use ngv_trader.Settle.Match.{
  after_dot, strip_last_segment, is_bag_summary, is_live_leg, non_empty, has_live_siblings,
  is_settled_leg_at, match_bag_summary,
}

abbrev pub IsNotDot : ℕ → Type 0
IsNotDot c = (c == b'.') ≡ false

after_dot-append : (s t : Text) → All IsNotDot s → after_dot (s ++ b'.' ∷ t) ≡ some t
unfolding after_dot
after_dot-append [] t h = refl
after_dot-append (c ∷ s) t h = rw h.0 (after_dot-append s t h.1)

All-reverse : (s : Text) → All IsNotDot s → All IsNotDot (reverse s)
All-reverse [] h = h
All-reverse (c ∷ s) h =
    rw (reverse-append (c ∷ []) s)
      (All-append IsNotDot (reverse s) (c ∷ []) (All-reverse s h.1) (h.0, tt))

reverse_at_dot : (s t : Text) → reverse (s ++ b'.' ∷ t) ≡ reverse t ++ b'.' ∷ reverse s
reverse_at_dot s t =
    reverse-append s (b'.' ∷ t)
    ∙ (ap (λ (x : Text). x ++ reverse s) (reverse-append (b'.' ∷ []) t)
        ∙ append_assoc (reverse t) (b'.' ∷ []) (reverse s))

-- A live leg's id is the settled id, a dot and a segment without dots: stripping gives the settled
-- id back, if that is not empty.
pub strip_last_segment-append :
    (settled_id segment : Text)
    → is_empty (reverse settled_id) ≡ false
    → All IsNotDot segment
    → strip_last_segment (settled_id ++ b'.' ∷ segment) ≡ some settled_id
unfolding strip_last_segment
strip_last_segment-append settled_id segment nonempty h = rw (
  reverse_at_dot settled_id segment,
  after_dot-append (reverse segment) (reverse settled_id) (All-reverse segment h),
  nonempty,
  reverse-reverse,
  strip_last_segment,
)

module _ {F : Type 0} where
  -- Every row that is listed is a leg that settled in the summary's account at its instant.
  abbrev pub AreItsLegs : LiveExecution F → List (TradeExecution F) → Type 0
  AreItsLegs live legs = All (λ s. is_settled_leg_at live s ≡ true) legs

  filter-All :
      (p : TradeExecution F → Bool) (rows : List (TradeExecution F))
      → All (λ s. p s ≡ true) (filter p rows)
  filter-All p [] = tt
  filter-All p (r ∷ rows) = elim (Bool-cases (p r)) [
    | inl yes_it ↦ rw yes_it (yes_it, filter-All p rows)
    | inr not_it ↦ rw not_it (filter-All p rows)
  ]

  non_empty-some :
      (rows legs : List (TradeExecution F))
      → non_empty rows ≡ some legs
      → (rows ≡ legs) × (legs ≢ [])
  non_empty-some [] legs h = cc
  non_empty-some (r ∷ rows) legs h = (some_inj (r ∷ rows) legs h, λ e. cc)

  -- A live summary is taken for settled only if it is one and has an order key, no other row of
  -- that order which is not a summary is still live, and legs have settled in its account at its
  -- instant; those legs are the answer.
  pub match_bag_summary_sound :
      (store : Store F) (live : LiveExecution F) (legs : List (TradeExecution F))
      → match_bag_summary store live ≡ some legs
      → (is_bag_summary live ≡ true)
        × ((key : OrderGroupKey) × (order_group_key_from_live live ≡ some key)
            × (any (is_live_leg key live) store.live ≡ false))
        × (legs ≢ [])
        × (legs ≡ filter (is_settled_leg_at live) store.settled)
        × AreItsLegs live legs
  unfolding match_bag_summary
  match_bag_summary_sound store live legs h = elim (Bool-cases (is_bag_summary live)) [
    | inr other ↦ absurd (cc (rw (other, match_bag_summary) at h))
    | inl summary ↦ elim (Option-cases (order_group_key_from_live live)) [
      | inl unkeyed ↦ absurd (cc (rw (summary, unkeyed, match_bag_summary) at h))
      | inr (key, e) ↦ elim (Bool-cases (any (is_live_leg key live) store.live)) [
        | inl waits ↦
            absurd (cc (rw (siblings e, waits) at (rw (summary, e, match_bag_summary) at h)))
        | inr gone ↦
            let found =
              non_empty-some (filter (is_settled_leg_at live) store.settled) legs
                (rw (siblings e, gone) at (rw (summary, e, match_bag_summary) at h)) in
            (
              summary,
              (key, e, gone),
              found.1,
              sym found.0,
              subst (AreItsLegs live) found.0 (filter-All (is_settled_leg_at live) store.settled),
            )
      ]
    ]
  ]
    where
      siblings :
          {key : OrderGroupKey}
          → order_group_key_from_live live ≡ some key
          → has_live_siblings store.live live ≡ any (is_live_leg key live) store.live
      siblings e = rw (e, has_live_siblings)
