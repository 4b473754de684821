-- ===== src/Settle/Purge/Listed.antt =====
-- The ids of a purge are those of the live fills that are superseded.
use ngv_trader.Prelude.{
  ℕ, ◌+◌, ◌≡◌, refl, ◌∙◌, inl, inr, Bool, Bool-cases, true, false, not, ◌&&◌, ◌||◌, Option, none,
  some, is_some, List, [], ◌∷◌, ◌++◌, map, filter, length, All, All-map, Text, text_eq,
  text_eq_refl, text_mem, if◌then◌else◌, arith,
}
use ngv_trader.Settle.Rows.{LiveExecution, TradeExecution, Store}
use ngv_trader.Settle.Purge.{
  is_bag, settled_summary_of, settled_combo_summaries, add_summary, has_settled, is_purged,
}

text_mem-append :
    (x : Text) (ids more : List Text)
    → text_mem x (ids ++ more) ≡ (text_mem x ids || text_mem x more)
text_mem-append x [] more = refl
text_mem-append x (id ∷ ids) more = ground (arith, text_mem-append x ids more)

or_true : (b : Bool) → (b || true) ≡ true
or_true true = refl
or_true false = refl

abbrev firsts : List (Text × ℕ) → List Text
firsts entries = map (λ entry. entry.0) entries

summary_head :
    (b : Bool) (id : Text) (o : Option ℕ) (rest : List (Text × ℕ))
    → (b && is_some o) ≡ true
    → text_mem id (firsts (add_summary b id o rest)) ≡ true
summary_head true id (some n) rest h = rw (text_eq_refl id) refl
summary_head true id none rest h = cc
summary_head false id o rest h = cc

module _ {F : Type 0} where
  -- A settled fill is the counterpart: of the same id or, of a summary, a summary of its account and
  -- instant.
  abbrev pub is_superseded : Store F → LiveExecution F → Bool
  is_superseded store live =
      has_settled store live
      || (is_bag live.sec_type && is_some (settled_summary_of live store.settled))

  abbrev pub IsListed : List Text → (LiveExecution F → Bool) → LiveExecution F → Type 0
  IsListed ids p live = p live ≡ true → text_mem live.ib_exec_id ids ≡ true

  IsListed-more :
      (id : Text) (ids : List Text) (p : LiveExecution F → Bool) (live : LiveExecution F)
      → IsListed ids p live
      → IsListed (id ∷ ids) p live
  IsListed-more id ids p live h e = rw (h e) (or_true (text_eq live.ib_exec_id id))

  ids-more :
      (b : Bool) (live : LiveExecution F) (kept rows : List (LiveExecution F))
      (p : LiveExecution F → Bool)
      → All (IsListed (map (λ l. l.ib_exec_id) kept) p) rows
      → All (IsListed (map (λ l. l.ib_exec_id) (if b then live ∷ kept else kept)) p) rows
  ids-more true live kept rows p h =
      let ids = map (λ l. l.ib_exec_id) kept in
      All-map (IsListed ids p) (IsListed (live.ib_exec_id ∷ ids) p) rows
        (λ l g. IsListed-more live.ib_exec_id ids p l g) h
  ids-more false live kept rows p h = h

  pub ids-IsListed :
      (p : LiveExecution F → Bool) (rows : List (LiveExecution F))
      → All (IsListed (map (λ live. live.ib_exec_id) (filter p rows)) p) rows
  ids-IsListed p [] = tt
  ids-IsListed p (live ∷ rows) = (
    λ e. rw (e, text_eq_refl live.ib_exec_id) refl,
    ids-more (p live) live (filter p rows) rows p (ids-IsListed p rows),
  )

  summaries-more :
      (b : Bool) (id : Text) (o : Option ℕ) (rest : List (Text × ℕ)) (rows : List (LiveExecution F))
      (p : LiveExecution F → Bool)
      → All (IsListed (firsts rest) p) rows
      → All (IsListed (firsts (add_summary b id o rest)) p) rows
  summaries-more true id (some n) rest rows p h =
      All-map (IsListed (firsts rest) p) (IsListed (id ∷ firsts rest) p) rows
        (λ l g. IsListed-more id (firsts rest) p l g) h
  summaries-more true id none rest rows p h = h
  summaries-more false id o rest rows p h = h

  abbrev pub has_settled_summary : List (TradeExecution F) → LiveExecution F → Bool
  has_settled_summary settled live =
      is_bag live.sec_type && is_some (settled_summary_of live settled)

  pub summaries-IsListed :
      (settled : List (TradeExecution F)) (rows : List (LiveExecution F))
      → All
          (IsListed (firsts (settled_combo_summaries rows settled)) (has_settled_summary settled))
          rows
  unfolding settled_combo_summaries
  summaries-IsListed settled [] = tt
  summaries-IsListed settled (live ∷ rows) =
      let rest = settled_combo_summaries rows settled in
      let b = is_bag live.sec_type in
      let o = settled_summary_of live settled in
      (
        summary_head b live.ib_exec_id o rest,
        summaries-more b live.ib_exec_id o rest rows (has_settled_summary settled)
            (summaries-IsListed settled rows),
      )

  -- The purged ids are those of the superseded fills.
  pub superseded-IsListed :
      (ids more : List Text) (p q : LiveExecution F → Bool) (rows : List (LiveExecution F))
      → All (IsListed ids p) rows
      → All (IsListed more q) rows
      → All (IsListed (ids ++ more) (λ l. p l || q l)) rows
  superseded-IsListed ids more p q [] h g = tt
  superseded-IsListed ids more p q (l ∷ rows) h g = (
    λ e. text_mem-append l.ib_exec_id ids more ∙ either (p l) (q l) _ _ e h.0 g.0,
    superseded-IsListed ids more p q rows h.1 g.1,
  )
    where
      either :
          (a b c d : Bool)
          → (a || b) ≡ true
          → (a ≡ true → c ≡ true)
          → (b ≡ true → d ≡ true)
          → (c || d) ≡ true
      either true b c d e f k = rw (f refl) refl
      either false b c d e f k = rw (k e) (or_true c)

  pub kept_rows :
      (ids : List Text) (p : LiveExecution F → Bool) (rows : List (LiveExecution F))
      → All (IsListed ids p) rows
      → All (λ l. p l ≡ false) (filter (λ l. not (is_purged ids l)) rows)
  kept_rows ids p [] h = tt
  kept_rows ids p (l ∷ rows) h = elim (Bool-cases (is_purged ids l)) [
    | inl e ↦ rw e (kept_rows ids p rows h.1)
    | inr e ↦ rw e (unlisted (p l) _ e h.0, kept_rows ids p rows h.1)
  ]
    where
      unlisted : (a b : Bool) → b ≡ false → (a ≡ true → b ≡ true) → a ≡ false
      unlisted true b e f = cc (e, f refl)
      unlisted false b e f = refl

  pub split_length :
      (p : LiveExecution F → Bool) (rows : List (LiveExecution F))
      → length (filter p rows) + length (filter (λ l. not (p l)) rows) ≡ length rows
  split_length p [] = refl
  split_length p (l ∷ rows) = elim (Bool-cases (p l)) [
    | inl e ↦ rw e (omega (arith, split_length p rows))
    | inr e ↦ rw e (omega (arith, split_length p rows))
  ]
