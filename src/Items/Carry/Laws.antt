-- ===== src/Items/Carry/Laws.antt =====
-- What the trades get when the links of a live fill are attached to them.
use ngv_trader.Prelude.{
  ℕ, ◌≡◌, refl, ◌∙◌, inl, inr, Bool, Bool-cases, true, false, is_none, List, [], ◌∷◌, any,
  any-append, All, All-map, Text, if◌then◌else◌,
}
use ngv_trader.Items.Refs.{ItemRef, trade_item}
use ngv_trader.Items.Links.{
  is_task, TagLink, TaskLink, LinkTables, is_open_tag, attach_tag, attach_task,
}
use ngv_trader.Items.Links.Laws.{AtMostOne, attach_tag-IsAttached, new_tag_link-is_open}
use ngv_trader.Items.Carry.{attach_tags, attach_tasks, carry_to_trades}

-- A later table that has all the links of an earlier one.
abbrev Grows : LinkTables → LinkTables → Type 0
Grows db after = (p : TagLink → Bool) → any p db.tag_links ≡ true → any p after.tag_links ≡ true

attach_tag-Grows :
    (now tag_id : ℕ) (item : ItemRef) (by : Text) (db : LinkTables)
    → Grows db (attach_tag now tag_id item by db).1
unfolding attach_tag
attach_tag-Grows now tag_id item by db p h =
    elim (Bool-cases (any (is_open_tag tag_id item) db.tag_links)) [
      | inl e ↦ rw (attach_tag, e) h
      | inr e ↦ rw (attach_tag, e, any-append p db.tag_links, h) refl
    ]

attach_tag_has :
    (now tag_id : ℕ) (item : ItemRef) (by : Text) (db : LinkTables)
    → any (is_open_tag tag_id item) (attach_tag now tag_id item by db).1.tag_links ≡ true
unfolding attach_tag
attach_tag_has now tag_id item by db =
    elim (Bool-cases (any (is_open_tag tag_id item) db.tag_links)) [
      | inl e ↦ rw (attach_tag, e) e
      | inr e ↦
          rw
            (
              attach_tag,
              e,
              any-append (is_open_tag tag_id item) db.tag_links,
              e,
              new_tag_link-is_open db.next_tag_link_id tag_id item by now,
            )
            refl
    ]

-- The open links of the list are on the item.
abbrev pub AreOn : ℕ → List TagLink → LinkTables → Type 0
AreOn trade_id links after =
    All
      (λ l.
        is_none l.ended_at ≡ true
        → any (is_open_tag l.tag_id (trade_item trade_id)) after.tag_links ≡ true)
      links

pub record IsGrown (db after : LinkTables) : Type 0 where
  pub grows : Grows db after
  pub at_most_one : AtMostOne db.tag_links → AtMostOne after.tag_links

one_tag :
    (now : ℕ) (item : ItemRef) (l : TagLink) (db : LinkTables) (b : Bool)
    → IsGrown db (if b then attach_tag now l.tag_id item l.created_by db else (false, db)).1
one_tag now item l db true = record {
  grows = attach_tag-Grows now l.tag_id item l.created_by db;
  at_most_one = λ h. (attach_tag-IsAttached now l.tag_id item l.created_by db h).at_most_one;
}
one_tag now item l db false = record { grows = λ p h. h; at_most_one = λ h. h }

attach_tags-IsGrown :
    (now : ℕ) (item : ItemRef) (links : List TagLink) (db : LinkTables)
    → IsGrown db (attach_tags now item links db).1
unfolding attach_tags
attach_tags-IsGrown now item [] db = record { grows = λ p h. h; at_most_one = λ h. h }
attach_tags-IsGrown now item (l ∷ links) db =
    let one = one_tag now item l db (is_none l.ended_at) in
    let rest = attach_tags-IsGrown now item links _ in
    record {
      grows = λ p h. rest.grows p (one.grows p h);
      at_most_one = λ h. rest.at_most_one (one.at_most_one h);
    }

attach_tags-AreOn :
    (now trade_id : ℕ) (links : List TagLink) (db : LinkTables)
    → AreOn trade_id links (attach_tags now (trade_item trade_id) links db).1
unfolding attach_tags
attach_tags-AreOn now trade_id [] db = tt
attach_tags-AreOn now trade_id (l ∷ links) db =
    let item = trade_item trade_id in
    (
      λ e.
          (attach_tags-IsGrown now item links _).grows (is_open_tag l.tag_id item)
            (rw e (attach_tag_has now l.tag_id item l.created_by db)),
      attach_tags-AreOn now trade_id links _,
    )

attach_tasks_tags :
    (now : ℕ) (item : ItemRef) (links : List TaskLink) (db : LinkTables)
    → (attach_tasks now item links db).1.tag_links ≡ db.tag_links
unfolding attach_tasks attach_task
attach_tasks_tags now item [] db = refl
attach_tasks_tags now item (l ∷ links) db =
    let rest =
      attach_tasks_tags now item links (attach_task now l.task_id item l.created_by db).1 in
    elim (Bool-cases (any (is_task l.task_id item) db.task_links)) [
      | inl e ↦ rest ∙ rw (attach_task, e) refl
      | inr e ↦ rest ∙ rw (attach_task, e) refl
    ]

attach_both-IsGrown :
    (now trade_id : ℕ) (tags : List TagLink) (tasks : List TaskLink) (db : LinkTables)
    → let after =
        (attach_tasks now
          (trade_item trade_id)
          tasks
          (attach_tags now (trade_item trade_id) tags db).1).1 in
      IsGrown db after × AreOn trade_id tags after
attach_both-IsGrown now trade_id tags tasks db =
    let item = trade_item trade_id in
    let tagged = (attach_tags now item tags db).1 in
    let same = attach_tasks_tags now item tasks tagged in
    let grown = attach_tags-IsGrown now item tags db in
    (
      record {
        grows = λ p h. rw same (grown.grows p h);
        at_most_one = λ h. rw same (grown.at_most_one h);
      },
      All-map
          (λ l. is_none l.ended_at ≡ true → any (is_open_tag l.tag_id item) tagged.tag_links ≡ true)
          (λ l.
            is_none l.ended_at ≡ true
            → any (is_open_tag l.tag_id item) (attach_tasks now item tasks tagged).1.tag_links
              ≡ true)
          tags (λ l h e. rw same (h e)) (attach_tags-AreOn now trade_id tags db),
    )

AreOn-Grows :
    (trade_id : ℕ) (tags : List TagLink) (db after : LinkTables)
    → Grows db after
    → AreOn trade_id tags db
    → AreOn trade_id tags after
AreOn-Grows trade_id [] db after g h = tt
AreOn-Grows trade_id (l ∷ tags) db after g h = (
  λ e. g (is_open_tag l.tag_id (trade_item trade_id)) (h.0 e),
  AreOn-Grows trade_id tags db after g h.1,
)

pub record IsCarriedTo (trade_ids : List ℕ) (tags : List TagLink) (db after : LinkTables)
    : Type 0 where
  pub grown : IsGrown db after
  pub on_trades : All (λ t. AreOn t tags after) trade_ids

pub carry_to_trades-IsCarriedTo :
    (now : ℕ) (tags : List TagLink) (tasks : List TaskLink) (trade_ids : List ℕ) (db : LinkTables)
    → IsCarriedTo trade_ids tags db (carry_to_trades now tags tasks trade_ids db).1
unfolding carry_to_trades
carry_to_trades-IsCarriedTo now tags tasks [] db = record {
  grown = record { grows = λ p h. h; at_most_one = λ h. h };
  on_trades = tt;
}
carry_to_trades-IsCarriedTo now tags tasks (t ∷ trade_ids) db =
    let (first, on) = attach_both-IsGrown now t tags tasks db in
    let next =
      (attach_tasks now (trade_item t) tasks (attach_tags now (trade_item t) tags db).1).1 in
    let rest = carry_to_trades-IsCarriedTo now tags tasks trade_ids next in
    record {
      grown = record {
        grows = λ p h. rest.grown.grows p (first.grows p h);
        at_most_one = λ h. rest.grown.at_most_one (first.at_most_one h);
      };
      on_trades = (
        AreOn-Grows t tags next (carry_to_trades now tags tasks trade_ids next).1 rest.grown.grows
            on,
        rest.on_trades,
      );
    }
