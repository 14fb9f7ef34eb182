-- ===== src/Gateway/Booking/Outcomes.antt =====
-- What a booking has done, by the status of its response.
use ticketer.Json.Event.{marshal_event}
use ticketer.Base.{
  zero, ◌<◌, arith, sym, refl, ◌∙◌, List, append_assoc, append-nil, ℕ, suc, String, ◌≡◌, [], ◌∷◌,
  ◌++◌, Result, ok, err,
}
use ticketer.Shared.Events.{OrderEvent}
use ticketer.Shared.Models.{BookingRequest}
use ticketer.Shared.Config.{Config}
use ticketer.Platform.Env.{Env, Delivery, delivered, refused, reply_lost, resent}
use ticketer.Platform.Action.{World, Message, exchange}
use ticketer.Gateway.Http.{Response, failure}
use ticketer.Gateway.Gatekeeper.{release_ticket}
use ticketer.Gateway.Booking.{
  pending_event, accepted, unpublished, written, marshalled, publish_order,
}

module _ (e : Env) (cfg : Config) (req : BookingRequest) where
  abbrev pub event_at : ℕ → OrderEvent
  event_at n = pending_event req (e.uuid_new n) (e.now (suc n))

  abbrev pub order_message : String → Message
  order_message value = record { topic = cfg.kafka_topic_orders; key = req.event_id; value = value }

  -- The response to the outcome of the write, with the log that it left.
  unfoldable pub finished :
      Result (Unit {0}) × List Message → World e.Store → Response × World e.Store
  finished (ok _, log) w = (
    accepted (e.uuid_new w.draws),
    record w { draws = suc (suc w.draws); calls = suc w.calls; log = log },
  )
  finished (err m, log) w =
      let w' : World e.Store = record w {
        draws = suc (suc w.draws);
        calls = suc w.calls;
        log = log;
      } in
      (unpublished, (release_ticket e req.event_id req.user_id w').1)

  abbrev pub appends : Message → List Message → Result (Unit {0}) × List Message
  appends m log = (ok tt, log ++ m ∷ [])

  -- The second step of a booking, by the outcome of the encoding and the fate of the write.
  unfoldable pub published : Result String → Delivery → World e.Store → Response × World e.Store
  published (ok value) d w = finished (exchange d (appends (order_message value)) w.log) w
  published (err m) d w =
      let w' : World e.Store = record w { draws = suc (suc w.draws) } in
      (
        failure 500 "internal_error" "Failed to process booking",
        (release_ticket e req.event_id req.user_id w').1,
      )

  finish :
      (outcome : Result (Unit {0}) × List Message) (w : World e.Store)
      → written e cfg outcome.0 req
          (e.uuid_new w.draws)
          (record w { draws = suc (suc w.draws); calls = suc w.calls; log = outcome.1 })
        ≡ finished outcome w
  unfolding finished
  finish (ok _, log) w = refl
  finish (err m, log) w = refl

  pub publish_order_lem :
      (m : Result String) (d : Delivery) (w : World e.Store)
      → marshal_event e.clock (event_at w.draws) ≡ m
      → e.net w.calls ≡ d
      → publish_order e cfg req w ≡ published m d w
  unfolding publish_order published
  publish_order_lem (ok value) d w hm hd = rw (hm, marshalled) (rw hd (finish _ w))
  publish_order_lem (err x) d w hm hd = rw (hm, marshalled)

  -- The log after a write: one copy of the message for each time that it was carried out.
  abbrev pub copies : ℕ → Message → List Message
  copies zero m = []
  copies (suc k) m = m ∷ copies k m

  pub exchange-appends :
      (d : Delivery) (m : Message) (log : List Message)
      → let (outcome, log') = exchange d (appends m) log in
        (k : ℕ) × (log' ≡ log ++ copies k m) × (outcome ≡ ok tt → 0 < k)
  exchange-appends delivered m log = (1, refl, λ h. omega arith)
  exchange-appends (refused x) m log = (0, sym (append-nil log), λ h. cc)
  exchange-appends (reply_lost x) m log = (1, refl, λ h. omega arith)
  exchange-appends (resent d) m log =
      let (k, grown, more) = exchange-appends d m (log ++ m ∷ []) in
      (suc k, grown ∙ append_assoc log (m ∷ []) (copies k m), λ h. omega arith)
