-- ===== src/Order/Status.antt =====
-- The order lifecycle of src/domain/enums.py and its transition table in
-- src/services/order_queue.py. A status is one of the nine values that the column holds.
use ngv_trader.Prelude.{ℕ, ◌≡◌, Bool, true, false, List, [], ◌∷◌, any, ◌==◌, arith}

pub data OrderStatus : Type 0 where
  queued submitting submitted partially_filled filled cancelled rejected failed : OrderStatus
  reconcile_required : OrderStatus

abbrev rank : OrderStatus → ℕ
rank OrderStatus.queued = 0
rank OrderStatus.submitting = 1
rank OrderStatus.submitted = 2
rank OrderStatus.partially_filled = 3
rank OrderStatus.filled = 4
rank OrderStatus.cancelled = 5
rank OrderStatus.rejected = 6
rank OrderStatus.failed = 7
rank OrderStatus.reconcile_required = 8

-- `a == b` on members of the enumeration.
abbrev pub status_eq : OrderStatus → OrderStatus → Bool
status_eq a b = rank a == rank b

abbrev pub status_mem : OrderStatus → List OrderStatus → Bool
status_mem s = any (status_eq s)

abbrev pub order_terminal_statuses : List OrderStatus
order_terminal_statuses =
    OrderStatus.filled ∷ OrderStatus.cancelled ∷ OrderStatus.rejected ∷ OrderStatus.failed ∷ []

abbrev pub is_terminal : OrderStatus → Bool
is_terminal s = status_mem s order_terminal_statuses

-- `ALLOWED_ORDER_STATUS_TRANSITIONS`
unfoldable pub allowed_order_status_transitions : OrderStatus → List OrderStatus
allowed_order_status_transitions OrderStatus.queued =
    OrderStatus.submitting ∷ OrderStatus.cancelled ∷ OrderStatus.failed ∷ []
allowed_order_status_transitions OrderStatus.submitting =
    OrderStatus.submitted ∷ OrderStatus.partially_filled ∷ OrderStatus.rejected ∷ OrderStatus.failed
    ∷ OrderStatus.reconcile_required ∷ []
allowed_order_status_transitions OrderStatus.submitted =
    OrderStatus.partially_filled ∷ OrderStatus.filled ∷ OrderStatus.cancelled ∷ OrderStatus.rejected
    ∷ OrderStatus.failed ∷ OrderStatus.reconcile_required ∷ []
allowed_order_status_transitions OrderStatus.partially_filled =
    OrderStatus.partially_filled ∷ OrderStatus.filled ∷ OrderStatus.cancelled
    ∷ OrderStatus.reconcile_required ∷ OrderStatus.failed ∷ []
allowed_order_status_transitions OrderStatus.reconcile_required =
    OrderStatus.submitting ∷ OrderStatus.submitted ∷ OrderStatus.partially_filled
    ∷ OrderStatus.filled ∷ OrderStatus.cancelled ∷ OrderStatus.rejected ∷ OrderStatus.failed ∷ []
allowed_order_status_transitions OrderStatus.filled = []
allowed_order_status_transitions OrderStatus.cancelled = []
allowed_order_status_transitions OrderStatus.rejected = []
allowed_order_status_transitions OrderStatus.failed = []

unfoldable pub can_transition_order_status : OrderStatus → OrderStatus → Bool
unfolding allowed_order_status_transitions
can_transition_order_status current next =
    status_mem next (allowed_order_status_transitions current)

-- A status has no way out exactly when it is one of the terminal ones.
pub can_transition_iff_not_terminal :
    (s t : OrderStatus)
    → (can_transition_order_status s t ≡ true → is_terminal s ≡ false)
      × (is_terminal s ≡ false → can_transition_order_status s OrderStatus.failed ≡ true)
unfolding can_transition_order_status
can_transition_iff_not_terminal s t = ground arith

-- Equal ranks are equal statuses.
pub status_eq-true : (s t : OrderStatus) → status_eq s t ≡ true → s ≡ t
status_eq-true s t h = ground arith

pub status_eq_refl : (s : OrderStatus) → status_eq s s ≡ true
status_eq_refl s = ground arith
