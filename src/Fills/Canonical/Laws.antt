-- ===== src/Fills/Canonical/Laws.antt =====
-- What enforcing the canonical flags of one execution's revisions does to the table.
use ngv_trader.Prelude.{
  ◌≡◌, refl, inl, inr, Bool, true, false, none, some, some_inj, List, [], ◌∷◌, All, All-map, Among,
  if◌then◌else◌, subst,
}
use ngv_trader.Prelude.Int.{int_leb, int_leb_refl, int_leb_trans, int_leb_total}
use ngv_trader.Fills.Rows.{Execution}
use ngv_trader.Fills.Canonical.{higher, highest_revision}

module _ {F : Type 0} where
  abbrev IsBelow : Execution F → Execution F → Type 0
  IsBelow best row = int_leb row.exec_revision best.exec_revision ≡ true

  abbrev pub IsTop : Execution F → List (Execution F) → Type 0
  IsTop best rows = Among best rows × All (IsBelow best) rows

  row-IsTop :
      (row best : Execution F) (rows : List (Execution F))
      → int_leb best.exec_revision row.exec_revision ≡ true
      → IsTop best rows
      → IsTop row (row ∷ rows)
  row-IsTop row best rows e h =
      let below : All (IsBelow row) rows =
        All-map (IsBelow best) (IsBelow row) rows
          (λ r g. int_leb_trans r.exec_revision best.exec_revision row.exec_revision g e) h.1 in
      (inl refl, (int_leb_refl row.exec_revision, below))

  higher-IsTop :
      (row best : Execution F) (rows : List (Execution F)) (b : Bool)
      → int_leb best.exec_revision row.exec_revision ≡ b
      → IsTop best rows
      → IsTop (if b then row else best) (row ∷ rows)
  higher-IsTop row best rows true e h = row-IsTop row best rows e h
  higher-IsTop row best rows false e h =
      (inr h.0, (int_leb_total best.exec_revision row.exec_revision e, h.1))

  -- The row that is chosen is one of the rows, and none has a higher revision.
  pub highest_revision-IsTop :
      (rows : List (Execution F)) (best : Execution F)
      → highest_revision rows ≡ some best
      → IsTop best rows
  unfolding highest_revision
  highest_revision-IsTop [] best h = cc
  highest_revision-IsTop (row ∷ []) best h =
      subst (λ b. IsTop b (row ∷ [])) (some_inj _ _ h)
        (inl refl, (int_leb_refl row.exec_revision, tt))
  highest_revision-IsTop (row ∷ next ∷ rows) best h =
      let top : Execution F = higher next (highest_revision rows) in
      subst (λ b. IsTop b (row ∷ next ∷ rows)) (some_inj _ _ h)
        (higher-IsTop row top (next ∷ rows) (int_leb top.exec_revision row.exec_revision) refl
          (highest_revision-IsTop (next ∷ rows) top refl))

  pub highest_revision-none : (rows : List (Execution F)) → highest_revision rows ≡ none → rows ≡ []
  unfolding highest_revision
  highest_revision-none [] h = refl
  highest_revision-none (row ∷ rows) h = cc
