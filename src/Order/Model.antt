-- ===== src/Order/Model.antt =====
-- The rows of `orders` and `order_events` (src/models.py), the values that the messages carry, and
-- a call that works on one order: state and exceptions. A raise keeps what was written before it.
use ngv_trader.Prelude.{ℕ, Bool, Option, List, String, Text, if◌then◌else◌}
use ngv_trader.Order.Status.{OrderStatus}

-- The `ValueError`s of order creation; `empty_field` carries the field's name.
pub data CreateError : Type 0 where
  empty_field : Text → CreateError
  slash_not_future slash_without_root invalid_side invalid_quantity : CreateError
  invalid_order_type invalid_limit_price invalid_account : CreateError

-- What a call on orders raises: a refused input, `ValueError` of a refused transition, and its `RuntimeError`s.
pub data Error : Type 0 where
  refused : CreateError → Error
  invalid_transition : OrderStatus → OrderStatus → Error
  not_qualified : Text → Error
  not_managed : Text → Error
  no_limit_price : ℕ → Error
  not_supported : Error
  not_finite : Error

-- A message: the text of an f-string by its constructor, with the values put into it.
pub data Message (F : Type 0) : Type 0 where
  literal : String → Message F
  forced_change : OrderStatus → OrderStatus → Message F → Message F
  progress : String → Option Text → F → F → Option F → Message F
  progress_status : String → Option Text → Message F
  qualified : ℕ → Text → Message F
  missing_account : ℕ → Message F
  worker_error : Error → Message F
  of_error : Error → Message F
  synced_create synced_update : Option Text → Option ℕ → Option ℕ → Message F
  synced_status : Option Text → F → Option F → Message F
  synced_forced : OrderStatus → Message F

pub data EventType : Type 0 where
  status_change forced_status_change order_error order_reconciled : EventType
  order_reconcile_required order_reconcile_checked contract_qualified : EventType
  order_submitting order_created : EventType
  broker_order_synced_create broker_order_synced_status broker_order_synced_update : EventType

pub record Order (F : Type 0) : Type 0 where
  pub id : ℕ
  pub account_id : ℕ
  pub symbol : Text
  pub sec_type : Text
  pub exchange : Text
  pub currency : Text
  pub side : Text
  pub quantity : ℕ
  pub order_type : Text
  pub limit_price : Option F
  pub tif : Text
  pub status : OrderStatus
  pub source : Text
  pub con_id : Option ℕ
  pub local_symbol : Option Text
  pub trading_class : Option Text
  pub contract_month : Option Text
  pub contract_expiry : Option Text
  pub ib_order_id : Option ℕ
  pub ib_perm_id : Option ℕ
  pub filled_quantity : F
  pub avg_fill_price : Option F
  pub last_error : Option (Message F)
  pub request_text : Option Text
  pub submitted_at : Option ℕ
  pub completed_at : Option ℕ
  pub created_at : ℕ
  pub updated_at : ℕ

pub record OrderEvent (F : Type 0) : Type 0 where
  pub order_id : ℕ
  pub event_type : EventType
  pub message : Message F
  pub status : Option OrderStatus
  pub filled_quantity : Option F
  pub avg_fill_price : Option F
  pub ib_order_id : Option ℕ
  pub created_at : ℕ

-- The order that a call mutates, and the event log, oldest first.
pub record Work (F : Type 0) : Type 0 where
  pub order : Order F
  pub events : List (OrderEvent F)

pub data Result {ℓ} (A : Type ℓ) : Type ℓ where
  ok : A → Result A
  err : Error → Result A

abbrev pub Action : Type 0 → Type 0 → Type 0
Action F A = Work F → Result A × Work F

abbrev pub resume : {F A B : Type 0} → Result A × Work F → (A → Action F B) → Result B × Work F
resume (ok a, w) f = f a w
resume (err e, w) f = (err e, w)

infixl 5 ◌>>=◌ ◌>>◌
abbrev pub ◌>>=◌ : {F A B : Type 0} → Action F A → (A → Action F B) → Action F B
◌>>=◌ m f w = resume (m w) f

abbrev pub ◌>>◌ : {F A B : Type 0} → Action F A → Action F B → Action F B
m >> k = m >>= λ _. k

abbrev pub pure : {F A : Type 0} → A → Action F A
pure a w = (ok a, w)

abbrev pub raise : {F A : Type 0} → Error → Action F A
raise e w = (err e, w)

abbrev pub modify_order : {F : Type 0} → (Order F → Order F) → Action F (Unit {0})
modify_order f w = (ok tt, record w { order = f w.order })

-- `if not condition: raise error`
abbrev pub require : {F : Type 0} → Bool → Error → Action F (Unit {0})
require condition e w = (if condition then ok tt else err e, w)
