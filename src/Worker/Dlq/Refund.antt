-- ===== src/Worker/Dlq/Refund.antt =====
-- From a booking whose payment failed for good to the ticket that is back in the sale.
use ticketer.Json.Event.{marshal_event, unmarshal_event}
use ticketer.Base.{
  wrap64-IsInt64, ◌^◌, String, true, false, some, ◌≡◌, refl, ◌∙◌, ap, pos, ◌<ℤ◌, ltb_ℤ, [], ◌∷◌,
  ◌++◌, ok,
}
use ticketer.Shared.Events.{OrderEvent}
use ticketer.Shared.Models.{status_compensated}
use ticketer.Shared.Config.{Config}
use ticketer.Platform.Redis.{IsRedis}
use ticketer.Json.RoundTrip.{IsClock, unmarshal_event-marshal_event}
use ticketer.Platform.Env.{accepts_row, Env, IsOnline}
use ticketer.Platform.Action.{World}
use ticketer.Gateway.Gatekeeper.{result_success}
use ticketer.Gateway.Gatekeeper.Reserve.{Sale, reserve, Shows}
use ticketer.Gateway.Gatekeeper.Release.{Shows-agree, release-reserve, left-reserve, sub_add_lt}
use ticketer.Worker.Payment.{Simulator}
use ticketer.Worker.Payment.Outcome.{payment_at}
use ticketer.Worker.Repository.{has_key, has_id, set_status}
use ticketer.Worker.Repository.Rows.{set_status-append}
use ticketer.Worker.Consumer.{pending_order, next_attempt, process_message}
use ticketer.Worker.Consumer.Failures.{process_message-gives_up}
use ticketer.Worker.Dlq.{process_compensation}
use ticketer.Worker.Dlq.Compensation.{process_compensation-releases}

-- Let Redis keep its laws, every call be carried out, printed times be read back, and a message
-- decode to an event whose keys are new in the table and whose row and identifier the database
-- accepts; let its user have reserved the last state of a sale with fewer than 2^63 tickets, the
-- payment fail, and no attempt be left. Then the worker puts the encoded event into the dead letter
-- queue, and its compensation writes nothing more to the log and leaves one compensated order, and
-- a store that shows the sale from before the reservation.
pub process_compensation-refunds :
    (e : Env) (cfg : Config) (sim : Simulator) (value dead : String) (v : OrderEvent) (sale : Sale)
    (w : World e.Store)
    → IsRedis e.redis
    → IsOnline e
    → IsClock e.clock
    → unmarshal_event e.clock value ≡ ok v
    → has_key v.idempotency_key w.orders ≡ false
    → has_id v.order_id w.orders ≡ false
    → accepts_row e (pending_order v) ≡ true
    → e.accepts_id v.order_id ≡ true
    → (reserve v.event_id v.user_id sale).0 ≡ result_success
    → sale.left v.event_id <ℤ pos (2 ^ 63)
    → Shows e.redis w.redis (reserve v.event_id v.user_id sale).1
    → (payment_at e sim w.draws).0.success ≡ false
    → ltb_ℤ (next_attempt v).retry_count cfg.max_retries ≡ false
    → marshal_event e.clock (next_attempt v) ≡ ok dead
    → let w₁ = (process_message e cfg sim value w).1 in
      let w₂ = (process_compensation e dead w₁).1 in
      (w₁.log ≡ w.log ++ record { topic = cfg.kafka_topic_dlq; key = ""; value = dead } ∷ [])
      × (w₂.log ≡ w₁.log)
      × (w₂.orders
          ≡ w.orders
            ++ record (pending_order v) {
              status = status_compensated;
              failure_reason = some "payment_failed_permanently";
            }
              ∷ [])
      × Shows e.redis w₂.redis sale
process_compensation-refunds e cfg sim value dead v sale w laws online trip u hk hi ar ai c fits
      shows unpaid last m =
    let w₁ : World e.Store = (process_message e cfg sim value w).1 in
    let (_, rows, log, _, redis, _, _) =
      process_message-gives_up e cfg sim online value v w u hk hi ar ai unpaid last in
    let (rows', shows', _, log', _) =
      process_compensation-releases e laws online dead (next_attempt v)
        (unmarshal_event-marshal_event e.clock (next_attempt v) dead trip (wrap64-IsInt64 _) m) ai
        (reserve v.event_id v.user_id sale).1 w₁ (rw redis shows)
        (rw (left-reserve v.event_id v.user_id sale c)
          (sub_add_lt (sale.left v.event_id) (pos (2 ^ 63)) fits)) in
    let agree = release-reserve v.event_id v.user_id sale c in
    (
      rw m at log,
      log',
      rows'
          ∙ ap (set_status v.order_id status_compensated (some "payment_failed_permanently")) rows
          ∙ set_status-append v.order_id status_compensated _ _ w.orders hi refl,
      Shows-agree e.redis _ _ sale agree.0 agree.1 shows',
    )
