-- ===== src/Tests/Wire.antt =====
-- A clock that stands still, and the JSON of a booking's event.
use package.text.Mathlib.TextBridge.{of_list}
use ticketer.Base.{
  ok_inj, eqb, String, none, some, ◌≡◌, refl, arith, ◌==◌, ℤ, pos, ok, err, if◌then◌else◌, IsInt64,
  Bool-cases, inl, inr,
}
use ticketer.Shared.Events.{OrderEvent}
use ticketer.Shared.Models.{BookingRequest}
use ticketer.Gateway.Booking.{pending_event}
use ticketer.Strconv.{itoa}
use ticketer.Json.{escape, escapes, letter}
use ticketer.Json.Text.{chars}
use ticketer.Json.Event.{Clock, marshal_event, unmarshal_event}
use ticketer.Json.RoundTrip.{IsClock, unmarshal_event-marshal_event}

abbrev time : String
time = "1970-01-01T00:00:00.000001Z"

abbrev pub clock : Clock
clock = record {
  print = λ t.
      if eqb t 1000
      then ok (chars time)
      else err "Time.MarshalJSON: year outside of range [0,9999]";
  parse = λ s. if of_list s == time then some 1000 else none;
}

pub clock-IsClock : IsClock clock
unfolding chars escapes escape letter
clock-IsClock t s h = elim (Bool-cases (eqb t 1000)) [
  | inl b ↦
      let known : t ≡ 1000 = ground arith in
      let shown : chars time ≡ s = ok_inj (rw b at h) in rw (← shown, known) (refl, refl)
  | inr b ↦ let g = rw b at h in cc
]

abbrev pub request : BookingRequest
request = record { user_id = "user-1"; event_id = "event-1"; idempotency_key = "key-1" }

-- The event of the request, after so many attempts.
abbrev pub attempt : ℤ → OrderEvent
attempt n = record (pending_event request "order-1" 1000) { retry_count = n }

abbrev pub first : String
first =
    "{\"event_type\":\"OrderPending\",\"order_id\":\"order-1\",\"user_id\":\"user-1\",\"event_id\":\"event-1\",\"idempotency_key\":\"key-1\",\"retry_count\":0,\"timestamp\":\"1970-01-01T00:00:00.000001Z\",\"trace_id\":\"\"}"

abbrev pub second : String
second =
    "{\"event_type\":\"OrderPending\",\"order_id\":\"order-1\",\"user_id\":\"user-1\",\"event_id\":\"event-1\",\"idempotency_key\":\"key-1\",\"retry_count\":1,\"timestamp\":\"1970-01-01T00:00:00.000001Z\",\"trace_id\":\"\"}"

pub first_encodes : marshal_event clock (attempt (pos 0)) ≡ ok first
unfolding marshal_event chars escapes escape letter itoa
first_encodes = refl

pub second_encodes : marshal_event clock (attempt (pos 1)) ≡ ok second
unfolding marshal_event chars escapes escape letter itoa
second_encodes = refl

one_fits : IsInt64 (pos 1)
one_fits = (omega arith, omega arith)

small : IsInt64 (pos 0)
small = (omega arith, omega arith)

pub first_decodes : unmarshal_event clock first ≡ ok (attempt (pos 0))
first_decodes =
    unmarshal_event-marshal_event clock (attempt (pos 0)) first clock-IsClock small first_encodes

unmarshal_event-marshal_event_example : unmarshal_event clock second ≡ ok (attempt (pos 1))
unmarshal_event-marshal_event_example =
    unmarshal_event-marshal_event clock (attempt (pos 1)) second clock-IsClock one_fits
      second_encodes
