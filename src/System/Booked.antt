-- ===== src/System/Booked.antt =====
-- A booking from its request to its confirmation.
use ticketer.Json.Event.{marshal_event}
use ticketer.Base.{
  IsInt64, arith, String, true, false, none, ◌≡◌, ap, inl, inr, [], ◌∷◌, ◌++◌, pos, ◌<ℤ◌, ok, is_ok,
}
use ticketer.Shared.Events.{channel_order_confirmed}
use ticketer.Shared.Models.{BookingRequest, status_confirmed}
use ticketer.Shared.Config.{Config}
use ticketer.Platform.Redis.{IsRedis}
use ticketer.Json.RoundTrip.{IsClock, unmarshal_event-marshal_event}
use ticketer.Platform.Env.{accepts_row, Env, IsOnline}
use ticketer.Platform.Action.{World}
use ticketer.Gateway.Gatekeeper.{RunsScript, result_success}
use ticketer.Gateway.Gatekeeper.Reserve.{Sale, reserve, Shows}
use ticketer.Gateway.Gatekeeper.Acquire.{HoldsDigest}
use ticketer.Gateway.Booking.{accepted, validate, create_booking}
use ticketer.Gateway.Booking.Outcomes.{event_at, order_message}
use ticketer.Gateway.Booking.Accepted.{Decided, create_booking-online}
use ticketer.Worker.Payment.{Simulator}
use ticketer.Worker.Payment.Outcome.{payment_at}
use ticketer.Worker.Repository.{has_key, has_id}
use ticketer.Worker.Consumer.{pending_order, process_message}
use ticketer.Worker.Consumer.Paths.{confirmation, process_message-confirms}

zero_fits : IsInt64 (pos 0)
zero_fits = (omega arith, omega arith)

module _ (e : Env) (cfg : Config) (req : BookingRequest) (sale : Sale) (w : World e.Store)
    (value : String) (encodes : marshal_event e.clock (event_at e cfg req w.draws) ≡ ok value)
    (free : (reserve req.event_id req.user_id sale).0 ≡ result_success) where
  -- A booking that gets a ticket has its event in the log.
  written :
      Decided e cfg req sale w.draws w.log (create_booking e cfg (ok req) w)
      → let (response, w') = create_booking e cfg (ok req) w in
        (response ≡ accepted (e.uuid_new w.draws))
        × (w'.log ≡ w.log ++ order_message e cfg req value ∷ [])
  written (inl (c, r, shows, (value', m, log))) =
      let same : value' ≡ value = cc (m, encodes) in (r, rw (← same) log)
  written (inr (inl (c, _, _, _))) = cc (free, c)
  written (inr (inr (c, _, _, _))) = cc (free, c)

  -- Let Redis keep its laws and run the gatekeeper's text, every call be carried out, printed times
  -- be read back, the time to live be positive, the digest be held and the store show a sale in
  -- which the user of a valid request can get a ticket, and let the event of the booking be
  -- encoded. Then the booking is accepted and its event is in the log; and in any state where the
  -- keys of the order are new, the database accepts its row and identifier, the payment succeeds
  -- and the confirmation can be encoded, a worker that processes that event adds the row of the
  -- order as confirmed and publishes the confirmation.
  pub create_booking-confirmed :
      (worker : Config) (sim : Simulator) (text : String) (u : World e.Store)
      → IsRedis e.redis
      → RunsScript e.redis
      → IsOnline e
      → IsClock e.clock
      → pos 0 <ℤ cfg.lock_ttl_seconds
      → HoldsDigest e w
      → Shows e.redis w.redis sale
      → validate e req ≡ none
      → has_key req.idempotency_key u.orders ≡ false
      → has_id (e.uuid_new w.draws) u.orders ≡ false
      → accepts_row e (pending_order (event_at e cfg req w.draws)) ≡ true
      → e.accepts_id (e.uuid_new w.draws) ≡ true
      → (payment_at e sim u.draws).0.success ≡ true
      → e.marshal_message (confirmation (event_at e cfg req w.draws)) ≡ ok text
      → let (response, w') = create_booking e cfg (ok req) w in
        let u' = (process_message e worker sim value u).1 in
        let order = pending_order (event_at e cfg req w.draws) in
        (response ≡ accepted order.id)
        × (w'.log ≡ w.log ++ order_message e cfg req value ∷ [])
        × (u'.orders ≡ u.orders ++ record order { status = status_confirmed } ∷ [])
        × (u'.published ≡ u.published ++ (channel_order_confirmed, text) ∷ [])
  create_booking-confirmed worker sim text u laws runs online back t d s v k i row id paid m =
      let fine = ap is_ok encodes in
      let decided = create_booking-online e cfg req sale w laws runs online t d s v fine in
      let (response, log) = written decided in
      let (_, orders, published, _, _, _) =
        process_message-confirms e worker sim online value (event_at e cfg req w.draws) u
          (unmarshal_event-marshal_event e.clock _ value back zero_fits encodes) k i row id text
          paid m in
      (response, log, orders, published)
