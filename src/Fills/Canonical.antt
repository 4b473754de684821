-- ===== src/Fills/Canonical.antt =====
-- `_enforce_canonical_flags` of src/services/sync_common.py.
use ngv_trader.Prelude.{
  ℕ, ◌+◌, Bool, true, false, not, ◌&&◌, Option, none, some, List, [], ◌∷◌, map, filter, length,
  Text, text_eq, ◌==◌, if◌then◌else◌,
}
use ngv_trader.Prelude.Int.{ℤ, int_leb}
use ngv_trader.Fills.Rows.{Execution}
pub mod Laws
pub mod Flags

abbrev bool_eq : Bool → Bool → Bool
bool_eq true b = b
bool_eq false b = not b

module _ {F : Type 0} where
  -- The `where` of the query.
  abbrev pub is_of_base : ℕ → Text → Execution F → Bool
  is_of_base account_id exec_id_base row =
      row.account_id == account_id && text_eq row.exec_id_base exec_id_base

  abbrev pub higher : Execution F → Option (Execution F) → Execution F
  higher row none = row
  higher row (some other) = if int_leb other.exec_revision row.exec_revision then row else other

  -- The first row by falling revision; of rows with one revision the table's first.
  unfoldable pub highest_revision : List (Execution F) → Option (Execution F)
  highest_revision [] = none
  highest_revision (row ∷ rows) = some (higher row (highest_revision rows))

  abbrev set_canonical : ℕ → Execution F → Execution F
  set_canonical best_id row = record row { is_canonical = row.id == best_id }

  -- The rows of the base get their flag, and the others are kept.
  unfoldable pub flag_rows : ℕ → Text → ℕ → List (Execution F) → List (Execution F)
  flag_rows account_id exec_id_base best_id [] = []
  flag_rows account_id exec_id_base best_id (row ∷ rows) =
      (if is_of_base account_id exec_id_base row then set_canonical best_id row else row)
      ∷ flag_rows account_id exec_id_base best_id rows

  abbrev is_changed : ℕ → Execution F → Bool
  is_changed best_id row = not (bool_eq row.is_canonical (row.id == best_id))

  -- The number of changed rows, and the table.
  unfoldable pub enforce_canonical_flags : ℕ → Text → List (Execution F) → ℕ × List (Execution F)
  unfolding highest_revision flag_rows
  enforce_canonical_flags account_id exec_id_base rows =
      let chosen = filter (is_of_base account_id exec_id_base) rows in
      elim (highest_revision chosen) [
        | none ↦ (0, rows)
        | some best ↦ (
          length (filter (is_changed best.id) chosen),
          flag_rows account_id exec_id_base best.id rows,
        )
      ]
