-- ===== src/Fills/Ingest/Parents.antt =====
-- The combos that a run collects: they are those of the batch, and each has its parent in the cache.
use ngv_trader.Prelude.{
  ℕ, ◌≡◌, refl, ap, inl, inr, Option, none, some, Option-cases, List, [], ◌∷◌, ◌++◌, All,
  Bool-cases, Text, text_eq, text_eq_refl, lookup_text, FloatOps,
}
use ngv_trader.Fills.Rows.{Books, ParentTrade, NormalizedFill, FillSource}
use ngv_trader.Fills.Parents.{summary_parent, resolve_combo_parent}
use ngv_trader.Fills.Ingest.{
  IngestRun, add_leg, account_id_of, record_write, place_by_key, place_fill, write_fill,
  write_fills,
}
use ngv_trader.Fills.Ingest.Combos.{with_leg, with_legs}

module _ {F : Type 0} where
  abbrev HasParent : List (Text × ParentTrade F) → Text → Type 0
  HasParent cache key = (parent : ParentTrade F) × (lookup_text key cache ≡ some parent)

  abbrev pub HaveParents :
      List (Text × ParentTrade F) → List (Text × List (NormalizedFill F)) → Type 0
  HaveParents cache combos = All (λ combo. HasParent cache combo.0) combos

  HasParent-append :
      (key : Text) (cache : List (Text × ParentTrade F)) (entry : Text × ParentTrade F)
      → HasParent cache key
      → HasParent (cache ++ entry ∷ []) key
  HasParent-append key [] entry (parent, h) = absurd (cc h)
  HasParent-append key ((k, p) ∷ cache) entry (parent, h) = elim (Bool-cases (text_eq key k)) [
    | inl e ↦ rw e (p, refl)
    | inr e ↦ rw e (HasParent-append key cache entry (parent, rw e at h))
  ]

  HasParent-last :
      (key : Text) (cache : List (Text × ParentTrade F)) (parent : ParentTrade F)
      → HasParent (cache ++ (key, parent) ∷ []) key
  HasParent-last key [] parent = rw (text_eq_refl key) (parent, refl)
  HasParent-last key ((k, p) ∷ cache) parent = elim (Bool-cases (text_eq key k)) [
    | inl e ↦ rw e (p, refl)
    | inr e ↦ rw e (HasParent-last key cache parent)
  ]

  HaveParents-append :
      (cache : List (Text × ParentTrade F)) (entry : Text × ParentTrade F)
      (combos : List (Text × List (NormalizedFill F)))
      → HaveParents cache combos
      → HaveParents (cache ++ entry ∷ []) combos
  HaveParents-append cache entry [] h = tt
  HaveParents-append cache entry (combo ∷ combos) h =
      (HasParent-append combo.0 cache entry h.0, HaveParents-append cache entry combos h.1)

  add_leg-HaveParents :
      (key : Text) (fill : NormalizedFill F) (cache : List (Text × ParentTrade F))
      (combos : List (Text × List (NormalizedFill F)))
      → HasParent cache key
      → HaveParents cache combos
      → HaveParents cache (add_leg key fill combos)
  unfolding add_leg
  add_leg-HaveParents key fill cache [] p h = (p, tt)
  add_leg-HaveParents key fill cache ((k, legs) ∷ combos) p h = elim (Bool-cases (text_eq k key)) [
    | inl e ↦ rw e (h.0, h.1)
    | inr e ↦ rw e (h.0, add_leg-HaveParents key fill cache combos p h.1)
  ]

  module _ ⦃fl : FloatOps F⦄ where
    -- The cache after a leg has the key, and all that it had.
    resolve_combo_parent-HaveParents :
        (fill : NormalizedFill F) (key : Text) (account_id : ℕ) (source : FillSource) (now : ℕ)
        (cache : List (Text × ParentTrade F)) (books : Books F)
        (combos : List (Text × List (NormalizedFill F)))
        → HaveParents cache combos
        → HaveParents
            (resolve_combo_parent fill key account_id source now cache books).1
            (add_leg key fill combos)
    unfolding resolve_combo_parent
    resolve_combo_parent-HaveParents fill key account_id source now cache books combos h =
        elim (Option-cases (lookup_text key cache)) [
          | inr (cached, e) ↦
              rw (resolve_combo_parent, e) (add_leg-HaveParents key fill cache combos (cached, e) h)
          | inl e ↦ elim (Option-cases (summary_parent account_id key books)) [
            | inr (trade, f) ↦
                rw (resolve_combo_parent, e, f)
                  (add_leg-HaveParents key fill (cache ++ (key, trade) ∷ []) combos
                    (HasParent-last key cache trade)
                    (HaveParents-append cache (key, trade) combos h))
            | inl f ↦
                rw (resolve_combo_parent, e, f)
                  (add_leg-HaveParents key fill (cache ++ (key, _) ∷ []) combos
                    (HasParent-last key cache _) (HaveParents-append cache (key, _) combos h))
          ]
        ]

    -- The run's combos are the given ones, each with its parent.
    abbrev pub IsCollected : List (Text × List (NormalizedFill F)) → IngestRun F → Type 0
    IsCollected combos run =
        (run.legs_by_combo ≡ combos) × HaveParents run.combo_parents run.legs_by_combo

    account_id_of-IsCollected :
        (code : Text) (combos : List (Text × List (NormalizedFill F))) (run : IngestRun F)
        → IsCollected combos run
        → IsCollected combos (account_id_of code run).1
    unfolding account_id_of
    account_id_of-IsCollected code combos run h =
        elim (Option-cases (lookup_text code run.accounts)) [
          | inr (id, e) ↦ rw (account_id_of, e) h
          | inl e ↦ rw (account_id_of, e) h
        ]

    place_by_key-IsCollected :
        (trade_date : ℕ → Text) (source : FillSource) (now : ℕ) (fill : NormalizedFill F)
        (account_id : ℕ) (combos : List (Text × List (NormalizedFill F))) (run : IngestRun F)
        (key : Option Text)
        → IsCollected combos run
        → IsCollected
            (elim key [ none ↦ combos | some k ↦ add_leg k fill combos ])
            (place_by_key trade_date source now fill account_id run key).1
    unfolding place_by_key
    place_by_key-IsCollected trade_date source now fill account_id combos run none h = h
    place_by_key-IsCollected trade_date source now fill account_id combos run (some key) h = (
      ap (add_leg key fill) h.0,
      resolve_combo_parent-HaveParents fill key account_id source now run.combo_parents run.books
          run.legs_by_combo h.1,
    )

    write_fill-IsCollected :
        (trade_date : ℕ → Text) (source : FillSource) (now : ℕ) (fill : NormalizedFill F)
        (combos : List (Text × List (NormalizedFill F))) (run : IngestRun F)
        → IsCollected combos run
        → IsCollected (with_leg fill combos) (write_fill trade_date source now fill run)
    unfolding write_fill place_fill record_write
    write_fill-IsCollected trade_date source now fill combos run h =
        let (account_id, run1) = account_id_of fill.account_code run in
        place_by_key-IsCollected trade_date source now fill account_id combos run1 fill.combo_key
          (account_id_of-IsCollected fill.account_code combos run h)

    pub write_fills-IsCollected :
        (trade_date : ℕ → Text) (source : FillSource) (now : ℕ) (fills : List (NormalizedFill F))
        (combos : List (Text × List (NormalizedFill F))) (run : IngestRun F)
        → IsCollected combos run
        → IsCollected (with_legs fills combos) (write_fills trade_date source now fills run)
    unfolding write_fills with_legs
    write_fills-IsCollected trade_date source now [] combos run h = h
    write_fills-IsCollected trade_date source now (fill ∷ fills) combos run h =
        write_fills-IsCollected trade_date source now fills (with_leg fill combos) _
          (write_fill-IsCollected trade_date source now fill combos run h)
