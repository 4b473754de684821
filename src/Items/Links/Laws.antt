-- ===== src/Items/Links/Laws.antt =====
-- At most one open link of a tag to an item.
use ngv_trader.Prelude.{
  ℕ, ◌+◌, ◌≡◌, ◌≤◌, refl, inl, inr, Bool, Bool-cases, true, false, not, ◌&&◌, none, List, [], ◌∷◌,
  ◌++◌, any, filter, length, Text, ◌==◌, ==_iff, arith,
}
use ngv_trader.Items.Refs.{ItemRef}
use ngv_trader.Items.Refs.Laws.{link_filter_self, link_filter_same}
use ngv_trader.Items.Links.{TagLink, LinkTables, new_tag_link, is_open_tag, attach_tag}

abbrev pub count : {A : Type 0} → (A → Bool) → List A → ℕ
count p xs = length (filter p xs)

pub count-append :
    {A : Type 0} (p : A → Bool) (xs ys : List A) → count p (xs ++ ys) ≡ count p xs + count p ys
count-append p [] ys = omega arith
count-append p (x ∷ xs) ys = elim (Bool-cases (p x)) [
  | inl e ↦ rw e (omega (arith, count-append p xs ys))
  | inr e ↦ rw e (count-append p xs ys)
]

count-none :
    {A : Type 0} (p q : A → Bool) (xs : List A)
    → ((x : A) → p x ≡ q x)
    → any q xs ≡ false
    → count p xs ≡ 0
count-none p q [] same h = refl
count-none p q (x ∷ xs) same h = elim (Bool-cases (q x)) [
  | inl e ↦ cc (rw e at h)
  | inr e ↦ rw (same x, e) (count-none p q xs same (rw e at h))
]

count-some : {A : Type 0} (p : A → Bool) (xs : List A) → any p xs ≡ true → 1 ≤ count p xs
count-some p [] h = cc
count-some p (x ∷ xs) h = elim (Bool-cases (p x)) [
  | inl e ↦ rw e (omega arith)
  | inr e ↦ rw e (count-some p xs (rw e at h))
]

pub count_miss : {A : Type 0} (p : A → Bool) (x : A) → p x ≡ false → count p (x ∷ []) ≡ 0
count_miss p x e = rw e refl

count_single : {A : Type 0} (p : A → Bool) (x : A) → count p (x ∷ []) ≤ 1
count_single p x = elim (Bool-cases (p x)) [
  | inl e ↦ rw e (omega arith)
  | inr e ↦ rw e (omega arith)
]

-- At most one open link of a tag to an item, for every tag and every item.
abbrev pub AtMostOne : List TagLink → Type 0
AtMostOne links = (tag_id : ℕ) (item : ItemRef) → count (is_open_tag tag_id item) links ≤ 1

both_true : (a b c : Bool) → (a && b && c) ≡ true → (a ≡ true) × (b ≡ true) × (c ≡ true)
both_true true true true h = (refl, refl, refl)
both_true true true false h = cc
both_true true false c h = cc
both_true false b c h = cc

-- A tag and an item of which a link row is open select the same rows as those it was made for.
is_open_tag_same :
    (id t s : ℕ) (i j : ItemRef) (by : Text) (now : ℕ)
    → is_open_tag s j (new_tag_link id t i by now none) ≡ true
    → (l : TagLink) → is_open_tag s j l ≡ is_open_tag t i l
unfolding new_tag_link
is_open_tag_same id t s i j by now h l =
    let (tags, unended, items) = both_true (t == s) true _ h in
    rw ((==_iff t s).0 tags, link_filter_same i j items l.entity_type l.columns) refl

add_last-AtMostOne :
    (links : List TagLink) (id tag_id : ℕ) (item : ItemRef) (by : Text) (now : ℕ)
    → AtMostOne links
    → any (is_open_tag tag_id item) links ≡ false
    → AtMostOne (links ++ new_tag_link id tag_id item by now none ∷ [])
add_last-AtMostOne links id tag_id item by now h free s j =
    let link = new_tag_link id tag_id item by now none in
    let p = is_open_tag s j in
    let split = count-append p links (link ∷ []) in
    elim (Bool-cases (p link)) [
      | inl e ↦
          let empty =
            count-none p (is_open_tag tag_id item) links
              (is_open_tag_same id tag_id s item j by now e) free in
          omega (arith, split, empty, count_single p link)
      | inr e ↦ rw (split, count_miss p link e) (omega (arith, h s j))
    ]

-- After an attachment exactly one open link joins the tag and the item; the call reports whether it
-- added it.
pub record IsAttached (tag_id : ℕ) (item : ItemRef) (before : LinkTables) (p : Bool × LinkTables)
    : Type 0 where
  pub at_most_one : AtMostOne p.1.tag_links
  pub attached : count (is_open_tag tag_id item) p.1.tag_links ≡ 1
  pub reported : p.0 ≡ not (any (is_open_tag tag_id item) before.tag_links)

pub new_tag_link-is_open :
    (id tag_id : ℕ) (item : ItemRef) (by : Text) (now : ℕ)
    → is_open_tag tag_id item (new_tag_link id tag_id item by now none) ≡ true
unfolding new_tag_link
new_tag_link-is_open id tag_id item by now =
    rw ((==_iff tag_id tag_id).1 refl) (link_filter_self item)

-- An attachment keeps at most one open link for every tag and item, and leaves exactly one for its
-- own.
pub attach_tag-IsAttached :
    (now tag_id : ℕ) (item : ItemRef) (created_by : Text) (db : LinkTables)
    → AtMostOne db.tag_links
    → IsAttached tag_id item db (attach_tag now tag_id item created_by db)
unfolding attach_tag
attach_tag-IsAttached now tag_id item created_by db h =
    let p = is_open_tag tag_id item in
    elim (Bool-cases (any p db.tag_links)) [
      | inl e ↦ rw e (record {
        at_most_one = h;
        attached = omega (arith, count-some p db.tag_links e, h tag_id item);
        reported = rw e refl;
      })
      | inr e ↦
          let link = new_tag_link db.next_tag_link_id tag_id item created_by now none in
          let split = count-append p db.tag_links (link ∷ []) in
          let empty = count-none p p db.tag_links (λ _. refl) e in
          let self : count p (link ∷ []) ≡ 1 =
            rw (new_tag_link-is_open db.next_tag_link_id tag_id item created_by now) refl in
          rw e (record {
            at_most_one =
                add_last-AtMostOne db.tag_links db.next_tag_link_id tag_id item created_by now h e;
            attached = omega (arith, split, empty, self);
            reported = rw e refl;
          })
    ]

-- Taking rows away keeps at most one.
count-filter_le : {A : Type 0} (p q : A → Bool) (xs : List A) → count p (filter q xs) ≤ count p xs
count-filter_le p q [] = omega arith
count-filter_le p q (x ∷ xs) = elim (Bool-cases (q x)) [
  | inl e ↦ elim (Bool-cases (p x)) [
    | inl g ↦ rw (e, g) (omega (arith, count-filter_le p q xs))
    | inr g ↦ rw (e, g) (count-filter_le p q xs)
  ]
  | inr e ↦ elim (Bool-cases (p x)) [
    | inl g ↦ rw (e, g) (omega (arith, count-filter_le p q xs))
    | inr g ↦ rw (e, g) (count-filter_le p q xs)
  ]
]

pub filter-AtMostOne :
    (q : TagLink → Bool) (links : List TagLink) → AtMostOne links → AtMostOne (filter q links)
filter-AtMostOne q links h tag_id item =
    omega (arith, count-filter_le (is_open_tag tag_id item) q links, h tag_id item)
