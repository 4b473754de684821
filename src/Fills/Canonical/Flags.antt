-- ===== src/Fills/Canonical/Flags.antt =====
-- The flags of one execution's revisions after they were enforced.
use ngv_trader.Prelude.{
  ℕ, ◌≡◌, refl, sym, ap, ◌⊎◌, inl, inr, Bool, true, false, not, ◌&&◌, List, [], ◌∷◌, filter, Text,
  All, All-among, Among, Among-filter, Bool-cases, Option-cases, ◌==◌, arith, subst,
}
use ngv_trader.Fills.Rows.{Execution}
use ngv_trader.Fills.Canonical.{
  is_of_base, highest_revision, set_canonical, flag_rows, enforce_canonical_flags,
}
use ngv_trader.Fills.Canonical.Laws.{IsTop, highest_revision-IsTop, highest_revision-none}

module _ {F : Type 0} where
  -- The ids of a table's rows differ.
  abbrev pub IdsDiffer : List (Execution F) → Type 0
  IdsDiffer [] = Unit
  IdsDiffer (row ∷ rows) = All (λ r. (r.id == row.id) ≡ false) rows × IdsDiffer rows

  module _ (account_id : ℕ) (base : Text) where
    abbrev pub is_canonical_of_base : Execution F → Bool
    is_canonical_of_base row = is_of_base account_id base row && row.is_canonical

    abbrev pub is_other : Execution F → Bool
    is_other row = not (is_of_base account_id base row)

    flag_rows-is_other :
        (best_id : ℕ) (rows : List (Execution F))
        → filter is_other (flag_rows account_id base best_id rows) ≡ filter is_other rows
    unfolding flag_rows
    flag_rows-is_other best_id [] = refl
    flag_rows-is_other best_id (row ∷ rows) = elim (Bool-cases (is_of_base account_id base row)) [
      | inl e ↦ rw (e, e) (flag_rows-is_other best_id rows)
      | inr e ↦ rw (e, e) (ap (λ rest. row ∷ rest) (flag_rows-is_other best_id rows))
    ]

    -- Without the best row itself no row is canonical.
    flag_rows_without :
        (best_id : ℕ) (rows : List (Execution F))
        → All (λ r. (r.id == best_id) ≡ false) rows
        → filter is_canonical_of_base (flag_rows account_id base best_id rows) ≡ []
    unfolding flag_rows
    flag_rows_without best_id [] h = refl
    flag_rows_without best_id (row ∷ rows) h = elim (Bool-cases (is_of_base account_id base row)) [
      | inl e ↦ rw (e, e, h.0) (flag_rows_without best_id rows h.1)
      | inr e ↦ rw (e, e) (flag_rows_without best_id rows h.1)
    ]

    flag_rows_head :
        (row : Execution F) (rows : List (Execution F))
        → is_of_base account_id base row ≡ true
        → All (λ r. (r.id == row.id) ≡ false) rows
        → filter is_canonical_of_base (flag_rows account_id base row.id (row ∷ rows))
          ≡ set_canonical row.id row ∷ []
    unfolding flag_rows
    flag_rows_head row rows e h =
        let self : (row.id == row.id) ≡ true = ground arith in
        rw (e, e, self)
          (ap (λ rest. record row { is_canonical = true } ∷ rest) (flag_rows_without row.id rows h))

    flag_rows_best :
        (best : Execution F) (rows : List (Execution F))
        → is_of_base account_id base best ≡ true
        → IdsDiffer rows
        → Among best rows
        → filter is_canonical_of_base (flag_rows account_id base best.id rows)
          ≡ set_canonical best.id best ∷ []
    unfolding flag_rows
    flag_rows_best best [] e h m = absurd m
    flag_rows_best best (row ∷ rows) e h (inl same) =
        subst
          (λ b.
            filter is_canonical_of_base (flag_rows account_id base b.id (row ∷ rows))
            ≡ set_canonical b.id b ∷ [])
          (sym same)
          (flag_rows_head row rows (subst (λ b. is_of_base account_id base b ≡ true) same e) h.0)
    flag_rows_best best (row ∷ rows) e h (inr later) =
        let apart : (best.id == row.id) ≡ false =
          All-among (λ r. (r.id == row.id) ≡ false) best rows h.0 later in
        let ne : (row.id == best.id) ≡ false = ground arith in
        elim (Bool-cases (is_of_base account_id base row)) [
          | inl of ↦ rw (of, of, ne) (flag_rows_best best rows e h.1 later)
          | inr of ↦ rw (of, of) (flag_rows_best best rows e h.1 later)
        ]

    -- The table after the flags of the base were enforced.
    pub record IsEnforced (before after : List (Execution F)) : Type 0 where
      pub others : filter is_other after ≡ filter is_other before
      pub one_canonical :
          (filter (is_of_base account_id base) before ≡ [])
          ⊎ ((best : Execution F) × IsTop best (filter (is_of_base account_id base) before)
              × (filter is_canonical_of_base after ≡ set_canonical best.id best ∷ []))

    -- Enforcing the flags of an execution leaves exactly one of its rows canonical, one of the
    -- highest revision, and no row of another execution changes, if the ids of the rows differ.
    pub enforce_canonical_flags-IsEnforced :
        (rows : List (Execution F))
        → IdsDiffer rows
        → IsEnforced rows (enforce_canonical_flags account_id base rows).1
    unfolding enforce_canonical_flags
    enforce_canonical_flags-IsEnforced rows h =
        let chosen = filter (is_of_base account_id base) rows in
        elim (Option-cases (highest_revision chosen)) [
          | inl e ↦
              rw (enforce_canonical_flags, e)
                (record { others = refl; one_canonical = inl (highest_revision-none chosen e) })
          | inr (best, e) ↦
              let top : IsTop best chosen = highest_revision-IsTop chosen best e in
              let m = Among-filter (is_of_base account_id base) best rows top.0 in
              rw (enforce_canonical_flags, e)
                (record {
                  others = flag_rows-is_other best.id rows;
                  one_canonical = inr (best, top, flag_rows_best best rows m.1 h m.0);
                })
        ]
