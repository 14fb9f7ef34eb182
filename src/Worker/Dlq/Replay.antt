-- ===== src/Worker/Dlq/Replay.antt =====
-- A compensation that Kafka delivers again, and one of an event that cannot be read.
use ticketer.Json.Event.{unmarshal_event}
use ticketer.Base.{
  ◌^◌, String, true, ◌≡◌, refl, eq_refl, ℤ, pos, ◌+ℤ◌, ◌<ℤ◌, ok, err, int_laws, [], ◌∷◌, ◌++◌,
}
use ticketer.Shared.Events.{OrderEvent}
use ticketer.Shared.Config.{Config}
use ticketer.Platform.Redis.{IsRedis}
use ticketer.Platform.Env.{Env, IsOnline}
use ticketer.Platform.Action.{World}
use ticketer.Gateway.Gatekeeper.Reserve.{Sale, Shows}
use ticketer.Gateway.Gatekeeper.Release.{release}
use ticketer.Worker.Payment.{Simulator}
use ticketer.Worker.Consumer.{returned, decoded, send_to_dlq, process_message}
use ticketer.Worker.Dlq.{compensated, process_compensation}
use ticketer.Worker.Dlq.Compensation.{process_compensation-releases}

left-release :
    (event user : String) (sale : Sale)
    → (release event user sale).left event ≡ sale.left event +ℤ pos 1
unfolding release
left-release event user sale = rw (eq_refl event)

less_one : (n m : ℤ) → n +ℤ pos 2 <ℤ m → n +ℤ pos 1 <ℤ m
less_one n m h = omega int_laws

one_one : (n m : ℤ) → n +ℤ pos 2 <ℤ m → n +ℤ pos 1 +ℤ pos 1 <ℤ m
one_one n m h = omega int_laws

-- Let Redis keep its laws, every call be carried out, a message decode to an event whose identifier
-- the database accepts, and the store show a sale in which two tickets more fit into 64 bits. Then
-- a compensation whose message is delivered twice gives two tickets back to the event: it is not
-- idempotent.
pub process_compensation-again :
    (e : Env) (value : String) (v : OrderEvent) (sale : Sale) (w : World e.Store)
    → IsRedis e.redis
    → IsOnline e
    → unmarshal_event e.clock value ≡ ok v
    → e.accepts_id v.order_id ≡ true
    → Shows e.redis w.redis sale
    → sale.left v.event_id +ℤ pos 2 <ℤ pos (2 ^ 63)
    → let w₁ = (process_compensation e value w).1 in
      let w₂ = (process_compensation e value w₁).1 in
      Shows e.redis w₂.redis (release v.event_id v.user_id (release v.event_id v.user_id sale))
      × ((release v.event_id v.user_id (release v.event_id v.user_id sale)).left v.event_id
          ≡ sale.left v.event_id +ℤ pos 1 +ℤ pos 1)
process_compensation-again e value v sale w laws online u a shows fits =
    let first =
      process_compensation-releases e laws online value v u a sale w shows
        (less_one (sale.left v.event_id) (pos (2 ^ 63)) fits) in
    let second =
      process_compensation-releases e laws online value v u a (release v.event_id v.user_id sale) _
        first.1
        (rw (left-release v.event_id v.user_id sale)
          (one_one (sale.left v.event_id) (pos (2 ^ 63)) fits)) in
    (
      second.1,
      rw (
        left-release v.event_id v.user_id (release v.event_id v.user_id sale),
        left-release v.event_id v.user_id sale,
      ),
    )

-- With every call carried out, a message that does not decode is written to the dead letter queue
-- as it is, with no change to the store or to the rows, and its compensation then changes nothing
-- at all.
pub process_message-poison :
    (e : Env) (cfg : Config) (sim : Simulator) (value m : String) (w : World e.Store)
    → IsOnline e
    → unmarshal_event e.clock value ≡ err m
    → let (exit, w₁) = process_message e cfg sim value w in
      (exit ≡ returned)
      × (w₁.log ≡ w.log ++ record { topic = cfg.kafka_topic_dlq; key = ""; value = value } ∷ [])
      × (w₁.redis ≡ w.redis)
      × (w₁.orders ≡ w.orders)
      × ((process_compensation e value w₁).1 ≡ w₁)
unfolding process_message process_compensation send_to_dlq
process_message-poison e cfg sim value m w online u =
    rw (u, decoded, compensated) (rw (online w.calls) (refl, refl, refl, refl, refl))
