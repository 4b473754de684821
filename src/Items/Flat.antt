-- ===== src/Items/Flat.antt =====
-- `open_position_keys` and `end_flat_position_tags` of src/services/item_links.py. `ct_date` is the
-- trading date of an instant; a row of `positions` has the date of its snapshot.
use ngv_trader.Prelude.{
  ℕ, ◌+◌, Bool, true, false, not, ◌&&◌, ◌||◌, Option, none, some, is_none, or_else, List, [], ◌∷◌,
  any, option_eq, ltb, leb, ◌==◌, FloatOps, is_truthy, if◌then◌else◌,
}
use ngv_trader.Items.Refs.{EntityType, entity_eq}
use ngv_trader.Items.Links.{TagLink}
pub mod Laws

pub record HeldRow (F : Type 0) : Type 0 where
  pub account_id : ℕ
  pub con_id : ℕ
  pub position : F

-- A row of `positions` with its snapshot date, which may be missing.
pub record SettledRow (F : Type 0) : Type 0 where
  pub held : HeldRow F
  pub as_of_date : Option ℕ

unfoldable pub date_given : ℕ → List (ℕ × ℕ) → Option ℕ
date_given account_id [] = none
date_given account_id ((account, date) ∷ dates) =
    let rest = date_given account_id dates in if account == account_id then some date else rest

module _ {F : Type 0} ⦃fl : FloatOps F⦄ where
  abbrev is_open_row : HeldRow F → Bool
  is_open_row row = is_truthy row.position

  -- `(account_id, con_id) in open_position_keys(session)`
  unfoldable pub is_held : List (SettledRow F) → List (HeldRow F) → ℕ → Option ℕ → Bool
  is_held settled live account_id con_id =
      any
        (λ s.
          is_open_row s.held
          && s.held.account_id == account_id
          && option_eq ◌==◌ (some s.held.con_id) con_id)
        settled
      || any
          (λ r.
            is_open_row r && r.account_id == account_id && option_eq ◌==◌ (some r.con_id) con_id)
          live

-- The later of two dates; a missing one does not count.
abbrev later : Option ℕ → Option ℕ → Option ℕ
later none rest = rest
later (some date) none = some date
later (some date) (some d) = if leb d date then some date else some d

module _ {F : Type 0} where
  -- `max(as_of_date)` of the rows that pass.
  unfoldable pub latest_date : (SettledRow F → Bool) → List (SettledRow F) → Option ℕ
  latest_date p [] = none
  latest_date p (s ∷ settled) =
      let rest = latest_date p settled in if p s then later s.as_of_date rest else rest

  -- The given date wins over the account's rows, and these over the latest of all accounts.
  unfoldable pub snapshot_date : List (ℕ × ℕ) → List (SettledRow F) → ℕ → Option ℕ
  unfolding latest_date date_given
  snapshot_date snapshot_as_of settled account_id = or_else (date_given account_id snapshot_as_of) (
      or_else (latest_date (λ s. s.held.account_id == account_id) settled)
        (latest_date (λ s. true) settled))

module _ {F : Type 0} ⦃fl : FloatOps F⦄ where
  -- Whether an open position link ends: the contract is flat, and the snapshot is not older than the
  -- link.
  unfoldable pub ends_now :
      (ℕ → ℕ) → List (ℕ × ℕ) → List (SettledRow F) → List (HeldRow F) → TagLink → Bool
  unfolding is_held snapshot_date
  ends_now ct_date snapshot_as_of settled live link =
      entity_eq link.entity_type EntityType.position
      && is_none link.ended_at
      && elim link.columns.account_id [
        | none ↦ false
        | some account_id ↦
            not (is_held settled live account_id link.columns.con_id)
            && elim (snapshot_date snapshot_as_of settled account_id) [
              | none ↦ false
              | some snapshot ↦ not (ltb snapshot (ct_date link.assigned_at))
            ]
      ]

  -- The number of the ended links, and the table.
  unfoldable pub end_flat_position_tags :
      (ℕ → ℕ)
      → ℕ
      → List (ℕ × ℕ)
      → List (SettledRow F)
      → List (HeldRow F)
      → List TagLink
      → ℕ × List TagLink
  unfolding ends_now
  end_flat_position_tags ct_date now snapshot_as_of settled live [] = (0, [])
  end_flat_position_tags ct_date now snapshot_as_of settled live (link ∷ links) =
      let (ended, rest) = end_flat_position_tags ct_date now snapshot_as_of settled live links in
      if ends_now ct_date snapshot_as_of settled live link
      then (ended + 1, record link { ended_at = some now } ∷ rest)
      else (ended, link ∷ rest)
