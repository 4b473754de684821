-- ===== src/Items/Links/Moves.antt =====
-- What a merge of tags leaves.
use ngv_trader.Prelude.{
  ℕ, ◌≡◌, refl, inl, inr, Bool, Bool-cases, true, false, not, ◌&&◌, some, Option-cases, List, [],
  ◌∷◌, ◌++◌, any, filter, ◌||◌, All, All-map, All-append, Text, ◌==◌, ==_iff, if◌then◌else◌, arith,
}
use ngv_trader.Items.Refs.{ItemRef, link_item}
use ngv_trader.Items.Links.{
  TagLink, LinkTables, new_tag_link, is_open_tag, is_row, is_of_tag, attach_tag, delete_tag_link,
  copy_tag_link, move_each, move_tag_links,
}
use ngv_trader.Items.Links.Laws.{
  AtMostOne, count-append, count_miss, attach_tag-IsAttached, filter-AtMostOne,
}

or_true : (b : Bool) → (b || true) ≡ true
or_true true = refl
or_true false = refl

mid_false : (a c : Bool) → (a && false && c) ≡ false
mid_false true c = refl
mid_false false c = refl

-- An ended link is open for no tag and no item.
add_ended-AtMostOne :
    (links : List TagLink) (id tag_id : ℕ) (item : ItemRef) (by : Text) (at ended : ℕ)
    → AtMostOne links
    → AtMostOne (links ++ new_tag_link id tag_id item by at (some ended) ∷ [])
unfolding new_tag_link
add_ended-AtMostOne links id tag_id item by at ended h s j =
    let link = new_tag_link id tag_id item by at (some ended) in
    let closed = mid_false (tag_id == s) _ in
    rw (count-append (is_open_tag s j) links (link ∷ []), count_miss (is_open_tag s j) link closed)
      (omega (arith, h s j))

copy_tag_link-AtMostOne :
    (now target : ℕ) (link : TagLink) (db : LinkTables)
    → AtMostOne db.tag_links
    → AtMostOne (copy_tag_link now target link db).1.tag_links
unfolding copy_tag_link
copy_tag_link-AtMostOne now target link db h = elim (Option-cases link.ended_at) [
  | inl e ↦
      rw (copy_tag_link, e)
        (attach_tag-IsAttached now target (link_item link.entity_type link.columns) link.created_by
          db h).at_most_one
  | inr (ended, e) ↦
      rw (copy_tag_link, e)
        (add_ended-AtMostOne db.tag_links db.next_tag_link_id target
          (link_item link.entity_type link.columns) link.created_by link.assigned_at ended h)
]

move_each-AtMostOne :
    (now target : ℕ) (links : List TagLink) (db : LinkTables)
    → AtMostOne db.tag_links
    → AtMostOne (move_each now target links db).1.tag_links
unfolding move_each delete_tag_link
move_each-AtMostOne now target [] db h = h
move_each-AtMostOne now target (link ∷ links) db h =
    let copied = (copy_tag_link now target link db).1 in
    move_each-AtMostOne now target links (delete_tag_link link.id copied) (
      filter-AtMostOne (λ l. not (is_row link.id l)) copied.tag_links
        (copy_tag_link-AtMostOne now target link db h))

module _ (source : ℕ) where
  -- The rows of the tag that are left are among those that are still to be moved.
  abbrev IsAwaited : List TagLink → TagLink → Type 0
  IsAwaited pending l = is_of_tag source l ≡ true → any (λ q. is_row q.id l) pending ≡ true

  any_more :
      (b : Bool) (x l : TagLink) (xs : List TagLink)
      → any (λ q. is_row q.id l) xs ≡ true
      → any (λ q. is_row q.id l) (if b then x ∷ xs else xs) ≡ true
  any_more true x l xs h = rw h (or_true (is_row x.id l))
  any_more false x l xs h = h

  pending_at_start :
      (links : List TagLink) → All (IsAwaited (filter (is_of_tag source) links)) links
  pending_at_start [] = tt
  pending_at_start (l ∷ links) =
      let rest = filter (is_of_tag source) links in
      let self : (l.id == l.id) ≡ true = (==_iff l.id l.id).1 refl in
      (
        λ e. rw (e, self) refl,
        All-map (IsAwaited rest) (IsAwaited (if is_of_tag source l then l ∷ rest else rest)) links
            (λ q h e. any_more (is_of_tag source l) l q rest (h e)) (pending_at_start links),
      )

  pending_rest :
      (l : TagLink) (pending links : List TagLink)
      → All (IsAwaited (l ∷ pending)) links
      → All (IsAwaited pending) (filter (λ q. not (is_row l.id q)) links)
  pending_rest l pending [] h = tt
  pending_rest l pending (q ∷ links) h = elim (Bool-cases (is_row l.id q)) [
    | inl e ↦ rw e (pending_rest l pending links h.1)
    | inr e ↦ rw e (λ s. rw e at h.0 s, pending_rest l pending links h.1)
  ]

  none_pending :
      (links : List TagLink) → All (IsAwaited []) links → filter (is_of_tag source) links ≡ []
  none_pending [] h = refl
  none_pending (l ∷ links) h = elim (Bool-cases (is_of_tag source l)) [
    | inl e ↦ cc (h.0 e)
    | inr e ↦ rw e (none_pending links h.1)
  ]

  module _ (now target : ℕ) (apart : (target == source) ≡ false) where
    copy_tag_link-pending :
        (pending : List TagLink) (link : TagLink) (db : LinkTables)
        → All (IsAwaited pending) db.tag_links
        → All (IsAwaited pending) (copy_tag_link now target link db).1.tag_links
    unfolding copy_tag_link attach_tag new_tag_link
    copy_tag_link-pending pending link db h =
        let item = link_item link.entity_type link.columns in
        elim (Option-cases link.ended_at) [
          | inr (ended, e) ↦
              rw (copy_tag_link, e)
                (All-append (IsAwaited pending) db.tag_links (_ ∷ []) h (λ t. cc (apart, t), tt))
          | inl e ↦ elim (Bool-cases (any (is_open_tag target item) db.tag_links)) [
            | inl g ↦ rw (copy_tag_link, e, attach_tag, g) h
            | inr g ↦
                rw (copy_tag_link, e, attach_tag, g)
                  (All-append (IsAwaited pending) db.tag_links (_ ∷ []) h (λ t. cc (apart, t), tt))
          ]
        ]

    move_each-none :
        (links : List TagLink) (db : LinkTables)
        → All (IsAwaited links) db.tag_links
        → filter (is_of_tag source) (move_each now target links db).1.tag_links ≡ []
    unfolding move_each delete_tag_link
    move_each-none [] db h = none_pending db.tag_links h
    move_each-none (link ∷ links) db h =
        let copied = (copy_tag_link now target link db).1 in
        move_each-none links (delete_tag_link link.id copied) (
          pending_rest link links copied.tag_links (copy_tag_link-pending (link ∷ links) link db h))

-- Merging one tag into another leaves no link of the first, and keeps at most one open link for
-- every tag and item.
pub move_tag_links-AtMostOne :
    (now source target : ℕ) (db : LinkTables)
    → (target == source) ≡ false
    → AtMostOne db.tag_links
    → let after = (move_tag_links now source target db).1.tag_links in
      AtMostOne after × (filter (is_of_tag source) after ≡ [])
unfolding move_tag_links
move_tag_links-AtMostOne now source target db apart h =
    let links = filter (is_of_tag source) db.tag_links in
    (
      move_each-AtMostOne now target links db h,
      move_each-none source now target apart links db (pending_at_start source db.tag_links),
    )
