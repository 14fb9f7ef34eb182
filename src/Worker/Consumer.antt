-- ===== src/Worker/Consumer.antt =====
-- services/order-worker/consumer/consumer.go: the processing of one message of the orders topic.
pub mod Rows
pub mod Backoff
pub mod Settled
pub mod Paths
pub mod Failures
pub mod Start
pub mod Frame
use Prim.Native.String.{◌++◌}
use ticketer.Json.Event.{marshal_event, unmarshal_event}
use ticketer.Base.{
  ℕ, suc, ◌^◌, String, Bool, true, false, Option, none, some, ◌==◌, ℤ, pos, negsuc, ◌+ℤ◌, ◌*ℤ◌,
  wrap64, ltb_ℤ, Result, ok, err, or_zero, if◌then◌else◌, List, [], ◌∷◌,
}
use ticketer.Base
use ticketer.Shared.Events.{
  OrderEvent, WebSocketMessage, absent, channel_order_confirmed, channel_order_failed,
}
use ticketer.Shared.Models.{Order, status_pending, status_confirmed, status_failed}
use ticketer.Shared.Config.{Config}
use ticketer.Platform.Env.{Env}
use ticketer.Platform.Action.{
  World, Metrics, Action, ◌>>=◌, ◌>>◌, pure, modify, publish, write_message,
}
use ticketer.Worker.Payment.{Payment, Simulator, process_payment}
use ticketer.Worker.Repository.{create_order, update_order_status, get_order_by_idempotency_key}

-- How the handler ends: it returns, or it panics on a shift by a negative count.
pub data Exit : Type 0 where
  returned panicked : Exit

-- time.Duration(500*(1<<n)) * time.Millisecond in int64; `none` is the panic of a negative shift.
unfoldable pub backoff : ℤ → Option ℤ
backoff (pos n) = some (wrap64 (wrap64 (pos 500 *ℤ wrap64 (pos (2 ^ n))) *ℤ pos 1000000))
backoff (negsuc n) = none

module _ {Store : Type 0} where
  -- OrdersProcessed.WithLabelValues(label).Inc()
  abbrev pub count_order : String → Action Store (Unit {0})
  count_order label = modify λ w. record w {
    metrics = record (w.metrics) {
      orders_processed = Base.◌++◌ w.metrics.orders_processed (label ∷ []);
    };
  }

  abbrev pub observe_payment : Action Store (Unit {0})
  observe_payment = modify λ w. record w {
    metrics = record (w.metrics) { payment_observed = suc w.metrics.payment_observed };
  }

  abbrev pub observe_processing : Action Store (Unit {0})
  observe_processing = modify λ w. record w {
    metrics = record (w.metrics) { processing_observed = suc w.metrics.processing_observed };
  }

  abbrev pub count_dlq : Action Store (Unit {0})
  count_dlq =
      modify
        λ w. record w { metrics = record (w.metrics) { dlq_messages = suc w.metrics.dlq_messages } }

  abbrev pub sleep : ℤ → Action Store (Unit {0})
  sleep d = modify λ w. record w { slept = Base.◌++◌ w.slept (d ∷ []) }

-- The order record of an event.
abbrev pub pending_order : OrderEvent → Order
pending_order v = record {
  id = v.order_id;
  event_id = v.event_id;
  user_id = v.user_id;
  idempotency_key = v.idempotency_key;
  status = status_pending;
  retry_count = v.retry_count;
  failure_reason = none;
}

-- event.RetryCount++
abbrev pub next_attempt : OrderEvent → OrderEvent
next_attempt v = record v { retry_count = wrap64 (v.retry_count +ℤ pos 1) }

abbrev pub status_message : OrderEvent → String → String → WebSocketMessage
status_message v status message = record {
  type = "order_" ++ status;
  order_id = v.order_id;
  user_id = v.user_id;
  status = status;
  message = message;
  extra = absent;
}

module _ (e : Env) (cfg : Config) where
  -- sendToDLQ, which only logs an error
  unfoldable pub send_to_dlq : String → Action e.Store (Unit {0})
  send_to_dlq value = do
    write_message e (record { topic = cfg.kafka_topic_dlq; key = ""; value = value })
    pure tt

  abbrev published : Result String → String → Action e.Store (Unit {0})
  published (err _) status = pure tt
  published (ok payload) status = do
    publish e (if status == status_failed then channel_order_failed else channel_order_confirmed)
        payload
    pure tt

  -- publishStatusUpdate
  unfoldable pub publish_status_update : OrderEvent → String → String → Action e.Store (Unit {0})
  publish_status_update v status message =
      published (e.marshal_message (status_message v status message)) status

  abbrev confirmed : Result (Unit {0}) → OrderEvent → Action e.Store Exit
  confirmed (err _) v = pure returned
  confirmed (ok _) v = do
    publish_status_update v status_confirmed "Payment successful! Your ticket is confirmed. 🎉"
    count_order "confirmed"
    observe_processing
    pure returned

  -- The success path.
  abbrev confirm : OrderEvent → Action e.Store Exit
  confirm v = do reply ← update_order_status e v.order_id status_confirmed none; confirmed reply v

  abbrev retry_after : Option ℤ → OrderEvent → Action e.Store Exit
  retry_after none v = pure panicked
  retry_after (some d) v = do
    sleep d
    write_message e (record {
      topic = cfg.kafka_topic_orders;
      key = v.event_id;
      value = or_zero "" (marshal_event e.clock v);
    })
    count_order "retry"
    observe_processing
    pure returned

  -- The attempts are used up.
  abbrev give_up : OrderEvent → String → Action e.Store Exit
  give_up v reason = do
    update_order_status e v.order_id status_failed (some reason)
    send_to_dlq (or_zero "" (marshal_event e.clock v))
    count_order "dlq"
    count_dlq
    observe_processing
    pure returned

  -- The failure path, with the count of attempts raised.
  abbrev fail : OrderEvent → String → Action e.Store Exit
  fail v reason =
      if ltb_ℤ v.retry_count cfg.max_retries
      then retry_after (backoff v.retry_count) v
      else give_up v reason

  abbrev paid : Payment → OrderEvent → Action e.Store Exit
  paid p v = if p.success then confirm v else fail (next_attempt v) p.reason

  module _ (sim : Simulator) where
    -- Step 3: the payment, for a new order only.
    abbrev created : Result Bool → OrderEvent → Action e.Store Exit
    created (err _) v = pure returned
    created (ok false) v = do count_order "duplicate"; pure returned
    created (ok true) v = do p ← process_payment e sim; observe_payment; paid p v

    -- Step 2: the order record.
    abbrev record_order : OrderEvent → Action e.Store Exit
    record_order v = do reply ← create_order e (pending_order v); created reply v

    -- Step 1: the idempotency check.
    abbrev checked : Result (Option Order) → OrderEvent → Action e.Store Exit
    checked (err _) v = pure returned
    checked (ok none) v = record_order v
    checked (ok (some o)) v =
        if o.status == status_confirmed
        then (do count_order "duplicate"; pure returned)
        else record_order v

    abbrev pub decoded : Result OrderEvent → String → Action e.Store Exit
    decoded (err _) value = do send_to_dlq value; count_order "poison"; pure returned
    decoded (ok v) value = do
      existing ← get_order_by_idempotency_key e v.idempotency_key
      checked existing v

    -- processMessage, on the value of a Kafka message
    unfoldable pub process_message : String → Action e.Store Exit
    process_message value = decoded (unmarshal_event e.clock value) value
