-- ===== src/Gateway/Booking.antt =====
-- services/api-gateway/handlers/booking.go: POST /api/v1/bookings.
pub mod Outcomes
pub mod Accepted
pub mod Refunds
pub mod Kept
pub mod Within
pub mod Once
pub mod Traffic
pub mod Interleaved
pub mod Rollback
pub mod Resent
use Prim.Native.String.{◌++◌}
use ticketer.Json.Event.{marshal_event}
use ticketer.Base.{
  ℕ, String, Option, none, some, ◌==◌, ℤ, pos, eqb_ℤ, not, Result, ok, err, if◌then◌else◌,
}
use ticketer.Shared.Events.{OrderEvent, order_pending}
use ticketer.Shared.Models.{BookingRequest}
use ticketer.Shared.Config.{Config}
use ticketer.Platform.Env.{Env}
use ticketer.Platform.Action.{Action, ◌>>=◌, ◌>>◌, pure, draw, write_message}
use ticketer.Gateway.Http.{Response, booking, failure}
use ticketer.Gateway.Gatekeeper.{
  result_sold_out, result_duplicate, try_acquire_ticket, release_ticket,
}

-- The event of a new booking.
abbrev pub pending_event : BookingRequest → String → ℕ → OrderEvent
pending_event req order_id time = record {
  event_type = order_pending;
  order_id = order_id;
  user_id = req.user_id;
  event_id = req.event_id;
  idempotency_key = req.idempotency_key;
  retry_count = pos 0;
  timestamp = time;
  trace_id = "";
}

abbrev pub conflict : String → String → Response
conflict status message = record {
  status = 409;
  body = booking (record { status = status; order_id = ""; message = message });
}

abbrev pub accepted : String → Response
accepted order_id = record {
  status = 202;
  body = booking (record {
    status = "processing";
    order_id = order_id;
    message = "Ticket secured in queue. Awaiting payment confirmation.";
  });
}

abbrev pub unpublished : Response
unpublished =
    failure 503 "service_unavailable" "Booking service temporarily unavailable. Please retry."

abbrev pub unavailable : Response
unavailable =
    failure 503 "service_unavailable" "Ticket service temporarily unavailable. Please retry."

module _ (e : Env) where
  -- The checks of the request's fields, in order; `none` if all pass.
  unfoldable pub validate : BookingRequest → Option Response
  validate req =
      if req.user_id == ""
      then some (failure 400 "missing_field" "user_id is required")
      else if req.event_id == ""
      then some (failure 400 "missing_field" "event_id is required")
      else if req.idempotency_key == ""
      then some (failure 400 "missing_field" "idempotency_key is required")
      else if not (e.uuid_parses req.user_id)
      then some (failure 400 "invalid_format" "user_id must be a valid UUID")
      else if not (e.uuid_parses req.event_id)
      then some (failure 400 "invalid_format" "event_id must be a valid UUID")
      else none

module _ (e : Env) (cfg : Config) where
  -- The outcome of WriteMessages; after an error the ticket is released.
  abbrev written : Result (Unit {0}) → BookingRequest → String → Action e.Store Response
  written (ok _) req order_id = pure (accepted order_id)
  written (err _) req order_id = do release_ticket e req.event_id req.user_id; pure unpublished

  -- The outcome of json.Marshal.
  abbrev marshalled : Result String → BookingRequest → String → Action e.Store Response
  marshalled (ok value) req order_id = do
    outcome ←
        write_message e
          (record { topic = cfg.kafka_topic_orders; key = req.event_id; value = value })
    written outcome req order_id
  marshalled (err _) req order_id = do
    release_ticket e req.event_id req.user_id
    pure (failure 500 "internal_error" "Failed to process booking")

  -- Step 2: publish to Kafka.
  unfoldable pub publish_order : BookingRequest → Action e.Store Response
  publish_order req = do
    order_id ← draw e e.uuid_new
    time ← draw e e.now
    marshalled (marshal_event e.clock (pending_event req order_id time)) req order_id

  -- The switch on the gatekeeper's code; any other code goes on as a success.
  abbrev pub acquired : Result ℤ → BookingRequest → Action e.Store Response
  acquired (err _) req = pure unavailable
  acquired (ok code) req =
      if eqb_ℤ code result_sold_out
      then pure (conflict "sold_out" "Sorry, all tickets have been sold out!")
      else if eqb_ℤ code result_duplicate
      then pure (conflict "duplicate" "You already have a pending booking for this event.")
      else publish_order req

  abbrev pub validated : Option Response → BookingRequest → Action e.Store Response
  validated (some refusal) req = pure refusal
  validated none req = do
    reply ← try_acquire_ticket e req.event_id req.user_id cfg.lock_ttl_seconds
    acquired reply req

  -- CreateBooking; its argument is the outcome of Fiber's BodyParser.
  unfoldable pub create_booking : Result BookingRequest → Action e.Store Response
  create_booking (err m) = pure (failure 400 "invalid_request" ("Invalid request body: " ++ m))
  create_booking (ok req) = validated (validate e req) req
