-- ===== src/Items/Refs/Laws.antt =====
-- The key of an item and the links that it selects.
use ngv_trader.Prelude.{
  ℕ, ◌≡◌, refl, sym, ap, Bool, Bool-cases, inl, inr, true, false, ◌&&◌, Option, none, some, Text,
  text_eq, text_eq-true, text_eq_refl, option_eq, ◌==◌, ==_iff, arith,
}
use ngv_trader.Items.Refs.{
  EntityType, ItemRef, LinkColumns, entity_eq, columns_at, key_matches, link_columns, link_filter,
}

number_eq-true : (a b : Option ℕ) → option_eq ◌==◌ a b ≡ true → a ≡ b
number_eq-true none none h = refl
number_eq-true none (some b) h = cc
number_eq-true (some a) none h = cc
number_eq-true (some a) (some b) h = ap some ((==_iff a b).0 h)

code_eq-true : (a b : Option Text) → option_eq text_eq a b ≡ true → a ≡ b
code_eq-true none none h = refl
code_eq-true none (some b) h = cc
code_eq-true (some a) none h = cc
code_eq-true (some a) (some b) h = ap some (text_eq-true a b h)

number_eq_refl : (a : Option ℕ) → option_eq ◌==◌ a a ≡ true
number_eq_refl none = refl
number_eq_refl (some a) = ground arith

code_eq_refl : (a : Option Text) → option_eq text_eq a a ≡ true
code_eq_refl none = refl
code_eq_refl (some a) = text_eq_refl a

both : (a b : Bool) → (a && b) ≡ true → (a ≡ true) × (b ≡ true)
both true b h = (refl, h)
both false b h = cc

entity_eq-true : (a b : EntityType) → entity_eq a b ≡ true → a ≡ b
entity_eq-true a b h = ground arith

entity_eq_refl : (a : EntityType) → entity_eq a a ≡ true
entity_eq_refl a = ground arith

-- An item whose key an other item's columns have selects the same rows.
key_matches_same :
    (e : EntityType) (i j : ItemRef) (c : LinkColumns)
    → key_matches e (columns_at e i) j ≡ true
    → key_matches e c j ≡ key_matches e c i
key_matches_same EntityType.trade i j c h = rw (number_eq-true i.id j.id h) refl
key_matches_same EntityType.trade_group i j c h = rw (number_eq-true i.id j.id h) refl
key_matches_same EntityType.task i j c h = rw (number_eq-true i.id j.id h) refl
key_matches_same EntityType.strategy i j c h = rw (number_eq-true i.id j.id h) refl
key_matches_same EntityType.position i j c h =
    let (a, k) = both (option_eq ◌==◌ i.account_id j.account_id) _ h in
    rw (number_eq-true i.account_id j.account_id a, number_eq-true i.con_id j.con_id k) refl
key_matches_same EntityType.live_execution i j c h =
    rw (code_eq-true i.ib_exec_id j.ib_exec_id h) refl

key_matches_self : (e : EntityType) (i : ItemRef) → key_matches e (columns_at e i) i ≡ true
key_matches_self EntityType.trade i = number_eq_refl i.id
key_matches_self EntityType.trade_group i = number_eq_refl i.id
key_matches_self EntityType.task i = number_eq_refl i.id
key_matches_self EntityType.strategy i = number_eq_refl i.id
key_matches_self EntityType.position i =
    rw (number_eq_refl i.account_id, number_eq_refl i.con_id) refl
key_matches_self EntityType.live_execution i = code_eq_refl i.ib_exec_id

under_type :
    (e s t : EntityType) (a b : Bool)
    → s ≡ t
    → (e ≡ s → a ≡ b)
    → (entity_eq e t && a) ≡ (entity_eq e s && b)
under_type e s t a b same h = elim (Bool-cases (entity_eq e s)) [
  | inl g ↦ rw (sym same, g) (h (entity_eq-true e s g))
  | inr g ↦ rw (sym same, g) refl
]

-- The link row of an item is selected by that item.
pub link_filter_self : (i : ItemRef) → link_filter i i.entity_type (link_columns i) ≡ true
unfolding link_filter link_columns
link_filter_self i = rw (entity_eq_refl i.entity_type) (key_matches_self i.entity_type i)

-- Two items of which one selects the other's link row select the same rows.
pub link_filter_same :
    (i j : ItemRef)
    → link_filter j i.entity_type (link_columns i) ≡ true
    → (e : EntityType) (c : LinkColumns) → link_filter j e c ≡ link_filter i e c
unfolding link_filter link_columns
link_filter_same i j h e c =
    let (t, k) = both (entity_eq i.entity_type j.entity_type) _ h in
    under_type e i.entity_type j.entity_type (key_matches e c j) (key_matches e c i)
      (entity_eq-true i.entity_type j.entity_type t) (λ g. key_matches_same e i j c (rw g k))
