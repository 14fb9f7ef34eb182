-- ===== src/Shared/Events.antt =====
-- shared/events/events.go: the message contracts, and the names of Redis channels and keys.
pub mod Keys
use ticketer.Base.{ℕ, String}
use ticketer.Base.{ℤ}
use Prim.Native.String.{◌++◌}

abbrev pub order_pending : String
order_pending = "OrderPending"

-- The timestamp counts nanoseconds.
pub record OrderEvent : Type 0 where
  pub event_type : String
  pub order_id : String
  pub user_id : String
  pub event_id : String
  pub idempotency_key : String
  pub retry_count : ℤ
  pub timestamp : ℕ
  pub trace_id : String

-- What the program puts into the `interface{}` field: nothing, or the map with the one key
-- "remaining". A decoded message may hold any other JSON value, kept as its text.
pub data Extra : Type 0 where
  absent : Extra
  remaining : ℤ → Extra
  other : String → Extra

pub record WebSocketMessage : Type 0 where
  pub type : String
  pub order_id : String
  pub user_id : String
  pub status : String
  pub message : String
  pub extra : Extra

abbrev pub channel_order_confirmed : String
channel_order_confirmed = "order:confirmed"

abbrev pub channel_order_failed : String
channel_order_failed = "order:failed"

abbrev pub channel_inventory_update : String
channel_inventory_update = "inventory:update"

abbrev pub inventory_key_prefix : String
inventory_key_prefix = "inventory:"

abbrev pub user_lock_key_prefix : String
user_lock_key_prefix = "lock:"

unfoldable pub inventory_key : String → String
inventory_key event_id = inventory_key_prefix ++ event_id

unfoldable pub user_lock_key : String → String → String
user_lock_key event_id user_id = ((user_lock_key_prefix ++ event_id) ++ ":") ++ user_id
