-- ===== src/Shared/Models.antt =====
-- shared/models/models.go: orders, requests and responses.
use ticketer.Base.{List, ℕ, String, Option, ℤ}

abbrev pub status_pending : String
status_pending = "pending"

abbrev pub status_confirmed : String
status_confirmed = "confirmed"

abbrev pub status_failed : String
status_failed = "failed"

abbrev pub status_compensated : String
status_compensated = "compensated"

-- The time stamps, which only the database sets, are left out.
pub record Order : Type 0 where
  pub id : String
  pub event_id : String
  pub user_id : String
  pub idempotency_key : String
  pub status : String
  pub retry_count : ℤ
  pub failure_reason : Option String

pub record BookingRequest : Type 0 where
  pub user_id : String
  pub event_id : String
  pub idempotency_key : String

pub record BookingResponse : Type 0 where
  pub status : String
  pub order_id : String
  pub message : String

-- The ticket price in cents; the dates are never set by the program and are left out.
pub record Event : Type 0 where
  pub id : String
  pub name : String
  pub description : String
  pub total_tickets : ℤ
  pub ticket_price_cents : ℕ

pub record EventWithAvailability : Type 0 where
  pub event : Event
  pub tickets_remaining : ℤ
  pub tickets_sold : ℤ

pub record ErrorResponse : Type 0 where
  pub error : String
  pub code : ℕ
  pub message : String

-- The map of services, by its entries.
pub record HealthStatus : Type 0 where
  pub status : String
  pub services : List (String × String)
