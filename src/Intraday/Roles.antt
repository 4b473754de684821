-- ===== src/Intraday/Roles.antt =====
-- `_exec_roles_by_exec_id`: which fills of a batch are spread summaries and which are their legs.
use ngv_trader.Prelude.{
  ℕ, ◌==◌, Bool, false, not, ◌&&◌, ◌||◌, Option, none, some, List, [], ◌∷◌, any, filter, Text, text,
  text_eq, option_eq, is_empty, if◌then◌else◌,
}
use ngv_trader.Settle.Rows.{ExecRole, OrderGroupKey, perm, order, group_key}
use ngv_trader.Intraday.Rows.{IbFill}

abbrev same_key : OrderGroupKey → OrderGroupKey → Bool
same_key (perm m) (perm n) = m == n
same_key (order m) (order n) = m == n
same_key (perm m) (order n) = false
same_key (order m) (perm n) = false

module _ {F : Type 0} where
  -- `order_group_key_from_execution` of a fill that has an execution id.
  unfoldable pub order_group_key_from_fill : IbFill F → Option OrderGroupKey
  unfolding group_key
  order_group_key_from_fill fill = elim fill.execution [
    | none ↦ none
    | some execution ↦
        if is_empty execution.exec_id then none else group_key execution.perm_id execution.order_id
  ]

  abbrev fill_sec_type : IbFill F → Option Text
  fill_sec_type fill = elim fill.contract [ none ↦ none | some contract ↦ contract.sec_type ]

  abbrev fill_con_id : IbFill F → Option ℕ
  fill_con_id fill = elim fill.contract [ none ↦ none | some contract ↦ contract.con_id ]

  abbrev pub is_bag_fill : IbFill F → Bool
  is_bag_fill fill = option_eq text_eq (fill_sec_type fill) (some (text "BAG"))

  abbrev pub is_of_order : OrderGroupKey → IbFill F → Bool
  is_of_order key fill = elim (order_group_key_from_fill fill) [
    | none ↦ false
    | some other ↦ same_key key other
  ]

  abbrev is_other_leg : ℕ → IbFill F → Bool
  is_other_leg con_id fill =
      not (is_bag_fill fill)
      && elim (fill_con_id fill) [ none ↦ false | some other ↦ not (other == con_id) ]

  -- A leg of another contract than the first leg's with a contract: two distinct contracts.
  unfoldable pub has_two_legs : List (IbFill F) → Bool
  has_two_legs [] = false
  has_two_legs (fill ∷ fills) =
      let rest = has_two_legs fills in
      if is_bag_fill fill then rest else elim (fill_con_id fill) [
        | none ↦ rest
        | some con_id ↦ any (is_other_leg con_id) fills || rest
      ]

  -- A group with a summary and legs of at least two contracts.
  unfoldable pub is_combo : List (IbFill F) → Bool
  unfolding has_two_legs
  is_combo group = any is_bag_fill group && has_two_legs group

  -- The role of a fill of the batch, whose execution ids differ: a group's fills get theirs at once,
  -- the others stay standalone.
  unfoldable pub exec_role_in : List (IbFill F) → IbFill F → ExecRole
  unfolding order_group_key_from_fill is_combo
  exec_role_in fills fill = elim (order_group_key_from_fill fill) [
    | none ↦ ExecRole.standalone
    | some key ↦
        if is_combo (filter (is_of_order key) fills)
        then if is_bag_fill fill then ExecRole.combo_summary else ExecRole.leg
        else ExecRole.standalone
  ]
