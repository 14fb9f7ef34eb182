-- ===== src/Gateway/Http.antt =====
-- The responses of the HTTP handlers: a status and a JSON body.
use ticketer.Base.{ℕ, String, List, ℤ}
use ticketer.Shared.Models.{BookingResponse, ErrorResponse, EventWithAvailability, HealthStatus}

pub data Body : Type 0 where
  booking : BookingResponse → Body
  error : ErrorResponse → Body
  events : List EventWithAvailability → Body
  event : EventWithAvailability → Body
  -- the answers of StartFlashSale: the tickets remaining, and the event with its total
  already_started : ℤ → Body
  started : String → ℤ → Body
  health : HealthStatus → Body

pub record Response : Type 0 where
  pub status : ℕ
  pub body : Body

-- c.Status(code).JSON(ErrorResponse{…}), where the field `Code` repeats the status
abbrev pub failure : ℕ → String → String → Response
failure code name message = record {
  status = code;
  body = error (record { error = name; code = code; message = message });
}
