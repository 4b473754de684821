-- ===== src/Fills/ExecId.antt =====
-- `_parse_exec_id` of src/services/sync_common.py: the digits after the last dot are the revision.
use ngv_trader.Prelude.{
  ℕ, Bool, true, false, Option, none, some, or_else, List, [], ◌∷◌, ◌++◌, Text, ◌==◌, if◌then◌else◌,
}
use ngv_trader.Prelude.Int.{ℤ, pos}
use ngv_trader.Order.Reference.{parse_int}
pub mod Laws

abbrev onto_base : ℕ → Text × Text → Text × Text
onto_base c (base, suffix) = (c ∷ base, suffix)

-- The parts before and after the last dot.
unfoldable pub split_last_dot : Text → Option (Text × Text)
split_last_dot [] = none
split_last_dot (c ∷ s) = elim (split_last_dot s) [
  | some parts ↦ some (onto_base c parts)
  | none ↦ if c == b'.' then some ([], s) else none
]

abbrev revision_of : Option ℤ → ℤ
revision_of none = pos 1
revision_of (some n) = n

unfoldable pub parse_exec_id : Text → Text × ℤ
unfolding split_last_dot parse_int
parse_exec_id ib_exec_id = elim (split_last_dot ib_exec_id) [
  | none ↦ (ib_exec_id ++ b'.' ∷ [], pos 1)
  | some (base, suffix) ↦ (base ++ b'.' ∷ [], revision_of (parse_int suffix))
]
