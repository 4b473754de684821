-- ===== src/Order/Fetch/Match/Laws.antt =====
-- The order that a trade is matched with.
use ngv_trader.Prelude.{
  ◌≡◌, ◌⊎◌, refl, sym, subst, inl, inr, Bool, true, false, Bool-cases, Option, none, some, some_inj,
  or_else, List, [], ◌∷◌, ◌++◌, filter, find?, Among, Among-filter, leb, ◌==◌, if◌then◌else◌,
}
use ngv_trader.Prelude.Int.{ℤ, pos, negsuc}
use ngv_trader.Order.Model.{Order}
use ngv_trader.Order.Broker.{Trade}
use ngv_trader.Order.Reference.{parse_order_ref}
use ngv_trader.Order.Fetch.Match.{
  fresher, last_updated, has_perm, has_order_id, order_named, find_matching_order,
}

find?-Among : {A : Type 0} (p : A → Bool) (xs : List A) (x : A) → find? p xs ≡ some x → Among x xs
find?-Among p [] x h = cc
find?-Among p (y ∷ ys) x h = elim (Bool-cases (p y)) [
  | inl e ↦ inl (sym (some_inj _ _ (rw e at h)))
  | inr e ↦ inr (find?-Among p ys x (rw e at h))
]

module _ {F : Type 0} where
  either-Among :
      (b : Bool) (o top other : Order F) (os : List (Order F))
      → Among top os
      → (if b then o else top) ≡ other
      → Among other (o ∷ os)
  either-Among true o top other os m e = inl (sym e)
  either-Among false o top other os m e = inr (subst (λ x. Among x os) e m)

  last_updated-Among : (os : List (Order F)) (o : Order F) → last_updated os ≡ some o → Among o os
  unfolding last_updated
  last_updated-Among [] o h = cc
  last_updated-Among (p ∷ []) o h = inl (sym (some_inj _ _ h))
  last_updated-Among (p ∷ q ∷ os) o h =
      let top : Order F = fresher q (last_updated os) in
      either-Among (leb top.updated_at p.updated_at) p top o (q ∷ os)
        (last_updated-Among (q ∷ os) top refl) (some_inj _ _ h)

  order_named-Among :
      (ref : Option ℤ) (os : List (Order F)) (o : Order F)
      → order_named ref os ≡ some o
      → Among o os
  unfolding order_named
  order_named-Among none os o h = cc
  order_named-Among (some (pos n)) os o h = find?-Among (λ p. p.id == n) os o h
  order_named-Among (some (negsuc n)) os o h = cc

  first-Among :
      (a b : Option (Order F)) (os : List (Order F)) (o : Order F)
      → ((x : Order F) → a ≡ some x → Among x os)
      → ((x : Order F) → b ≡ some x → Among x os)
      → or_else a b ≡ some o
      → Among o os
  first-Among none b os o f g h = g o h
  first-Among (some x) b os o f g h = f o h

  of_filter :
      (p : Order F → Bool) (os : List (Order F)) (o : Order F)
      → last_updated (filter p os) ≡ some o
      → Among o os
  of_filter p os o h = (Among-filter p o os (last_updated-Among (filter p os) o h)).0

  -- A match is one of the orders.
  pub find_matching_order-Among :
      (t : Trade F) (os : List (Order F)) (o : Order F)
      → find_matching_order t os ≡ some o
      → Among o os
  unfolding find_matching_order
  find_matching_order-Among t os o h =
      first-Among (order_named (parse_order_ref t.order_ref) os) _ os o
        (order_named-Among (parse_order_ref t.order_ref) os)
        (λ x g.
          first-Among (last_updated (filter (has_perm t.perm_id) os))
            (last_updated (filter (has_order_id t.order_id) os)) os x
            (of_filter (has_perm t.perm_id) os) (of_filter (has_order_id t.order_id) os) g)
        h

  last_updated-none : (os : List (Order F)) → last_updated os ≡ none → os ≡ []
  unfolding last_updated
  last_updated-none [] h = refl
  last_updated-none (o ∷ os) h = cc

  or_else-none : (a b : Option (Order F)) → or_else a b ≡ none → (a ≡ none) × (b ≡ none)
  or_else-none none b h = (refl, h)
  or_else-none (some x) b h = cc

  filter_last :
      (p : Order F → Bool) (os : List (Order F)) (o : Order F)
      → p o ≡ true
      → filter p os ≡ []
      → filter p (os ++ o ∷ []) ≡ o ∷ []
  filter_last p [] o h e = rw h refl
  filter_last p (x ∷ os) o h e = elim (Bool-cases (p x)) [
    | inl g ↦ cc (rw g at e)
    | inr g ↦ rw g (filter_last p os o h (rw g at e))
  ]

  find?_last :
      (p : Order F → Bool) (os : List (Order F)) (o : Order F)
      → find? p os ≡ none
      → find? p (os ++ o ∷ []) ≡ (if p o then some o else none)
  find?_last p [] o h = refl
  find?_last p (x ∷ os) o h = elim (Bool-cases (p x)) [
    | inl g ↦ cc (rw g at h)
    | inr g ↦ rw g (find?_last p os o (rw g at h))
  ]

  named_last :
      (ref : Option ℤ) (os : List (Order F)) (o : Order F)
      → order_named ref os ≡ none
      → (order_named ref (os ++ o ∷ []) ≡ some o) ⊎ (order_named ref (os ++ o ∷ []) ≡ none)
  unfolding order_named
  named_last none os o h = inr refl
  named_last (some (negsuc n)) os o h = inr refl
  named_last (some (pos n)) os o h = elim (Bool-cases (o.id == n)) [
    | inl e ↦ inl (rw (find?_last (λ p. p.id == n) os o h, e) refl)
    | inr e ↦ inr (rw (find?_last (λ p. p.id == n) os o h, e) refl)
  ]

  -- A trade without a match is matched with an order that joins the table with the trade's
  -- permanent id.
  pub find_matching_order_last :
      (t : Trade F) (os : List (Order F)) (o : Order F)
      → find_matching_order t os ≡ none
      → has_perm t.perm_id o ≡ true
      → find_matching_order t (os ++ o ∷ []) ≡ some o
  unfolding find_matching_order last_updated
  find_matching_order_last t os o h perm =
      let (unnamed, rest) = or_else-none (order_named (parse_order_ref t.order_ref) os) _ h in
      let (no_perm, _) = or_else-none (last_updated (filter (has_perm t.perm_id) os)) _ rest in
      let alone = filter_last (has_perm t.perm_id) os o perm (last_updated-none _ no_perm) in
      elim (named_last (parse_order_ref t.order_ref) os o unnamed) [
        | inl e ↦ rw e refl
        | inr e ↦ rw (e, alone) refl
      ]
