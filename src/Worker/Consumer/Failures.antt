-- ===== src/Worker/Consumer/Failures.antt =====
-- The paths of a message whose payment fails, when every call is carried out.
use ticketer.Json.Event.{marshal_event, unmarshal_event}
use ticketer.Base.{
  pos, ◌+ℤ◌, wrap64, wrap64-IsInt64, suc, String, true, false, some, ◌≡◌, refl, [], ◌∷◌, ◌++◌, ℤ,
  ltb_ℤ, ok, or_zero, subst,
}
use ticketer.Shared.Events.{OrderEvent}
use ticketer.Shared.Models.{status_failed}
use ticketer.Shared.Config.{Config}
use ticketer.Json.RoundTrip.{IsClock, unmarshal_event-marshal_event}
use ticketer.Platform.Env.{last_try, accepts_row, Env, IsOnline}
use ticketer.Platform.Action.{World}
use ticketer.Worker.Payment.{Simulator}
use ticketer.Worker.Payment.Outcome.{process_payment_lem, payment_at}
use ticketer.Worker.Repository.{has_key, has_id, update_order, update_order_status}
use ticketer.Worker.Repository.Rows.{set_status-append, has_key-append}
use ticketer.Worker.Consumer.{
  returned, pending_order, next_attempt, backoff, process_message, send_to_dlq,
}
use ticketer.Worker.Consumer.Paths.{
  Skipped, recorded, process_message-recorded, process_message-Skipped,
}

module _ (e : Env) (cfg : Config) (sim : Simulator) (online : IsOnline e) where
  module _ (value : String) (v : OrderEvent) (w : World e.Store)
      (decodes : unmarshal_event e.clock value ≡ ok v)
      (new_key : has_key v.idempotency_key w.orders ≡ false)
      (new_id : has_id v.order_id w.orders ≡ false)
      (row_fits : accepts_row e (pending_order v) ≡ true)
      (id_fits : e.accepts_id v.order_id ≡ true) where
    -- Let every call be carried out, and a message decode to an event whose keys are new in the
    -- table and whose row and identifier the database accepts. If the payment fails and no attempt
    -- is left, the worker returns with one failed row added, which has the payment's reason, writes
    -- the event with its raised count of attempts to the dead letter queue, and counts both;
    -- nothing is published and the store stays as it was.
    pub process_message-gives_up :
        (payment_at e sim w.draws).0.success ≡ false
        → ltb_ℤ (next_attempt v).retry_count cfg.max_retries ≡ false
        → let (exit, w') = process_message e cfg sim value w in
          (exit ≡ returned)
          × (w'.orders
              ≡ w.orders
                ++ record (pending_order v) {
                  status = status_failed;
                  failure_reason = some (payment_at e sim w.draws).0.reason;
                }
                  ∷ [])
          × (w'.log
              ≡ w.log
                ++ record {
                  topic = cfg.kafka_topic_dlq;
                  key = "";
                  value = or_zero "" (
                      marshal_event e.clock
                        (record v { retry_count = wrap64 (v.retry_count +ℤ pos 1) }));
                }
                  ∷ [])
          × (w'.published ≡ w.published)
          × (w'.redis ≡ w.redis)
          × (w'.metrics.orders_processed ≡ w.metrics.orders_processed ++ "dlq" ∷ [])
          × (w'.metrics.dlq_messages ≡ suc w.metrics.dlq_messages)
    unfolding update_order_status update_order last_try send_to_dlq
    process_message-gives_up unpaid last =
        rw (process_message-recorded e cfg sim online value v w decodes new_key new_id row_fits) (
          rw (process_payment_lem e sim (recorded e v w)) (
            rw unpaid (
              rw last (
                rw (online (suc (suc w.calls))) (
                  rw id_fits (
                    rw (online (suc (suc (suc w.calls)))) (
                      refl,
                      set_status-append v.order_id status_failed _ (pending_order v) w.orders new_id
                          refl,
                      refl,
                      refl,
                      refl,
                      refl,
                      refl,
                    )))))))

    -- Let every call be carried out, and a message decode to an event whose keys are new in the
    -- table and whose row and identifier the database accepts. If the payment fails, attempts are
    -- left and the wait does not panic, the worker returns with one pending row added, waits,
    -- writes the event with its raised count of attempts to the orders topic again and counts a
    -- retry; nothing is published and the store stays as it was.
    pub process_message-retries :
        (d : ℤ)
        → (payment_at e sim w.draws).0.success ≡ false
        → ltb_ℤ (next_attempt v).retry_count cfg.max_retries ≡ true
        → backoff (next_attempt v).retry_count ≡ some d
        → let (exit, w') = process_message e cfg sim value w in
          (exit ≡ returned)
          × (w'.orders ≡ w.orders ++ pending_order v ∷ [])
          × (w'.log
              ≡ w.log
                ++ record {
                  topic = cfg.kafka_topic_orders;
                  key = v.event_id;
                  value = or_zero "" (marshal_event e.clock (next_attempt v));
                }
                  ∷ [])
          × (w'.published ≡ w.published)
          × (w'.redis ≡ w.redis)
          × (w'.slept ≡ w.slept ++ d ∷ [])
          × (w'.metrics.orders_processed ≡ w.metrics.orders_processed ++ "retry" ∷ [])
    process_message-retries d unpaid more wait =
        rw (process_message-recorded e cfg sim online value v w decodes new_key new_id row_fits) (
          rw (process_payment_lem e sim (recorded e v w)) (
            rw unpaid (
              rw more (
                rw wait
                  (rw (online (suc (suc w.calls))) (refl, refl, refl, refl, refl, refl, refl))))))

    -- Let every call be carried out, printed times be read back, and a message decode to an event
    -- whose keys are new in the table and whose row and identifier the database accepts. When its
    -- payment fails with attempts left, the wait does not panic, the event can be encoded and its
    -- raised count has the type of its column, the event that is written to the orders topic again
    -- finds the row of its first attempt: its processing is skipped as a duplicate, so the order
    -- stays pending and its ticket is neither paid for nor released.
    pub process_message-retry_lost :
        (d : ℤ) (again : String)
        → IsClock e.clock
        → (payment_at e sim w.draws).0.success ≡ false
        → ltb_ℤ (next_attempt v).retry_count cfg.max_retries ≡ true
        → backoff (next_attempt v).retry_count ≡ some d
        → marshal_event e.clock (next_attempt v) ≡ ok again
        → e.accepts_types (pending_order (next_attempt v)) ≡ true
        → let w₁ = (process_message e cfg sim value w).1 in
          (w₁.log
            ≡ w.log
              ++ record { topic = cfg.kafka_topic_orders; key = v.event_id; value = again } ∷ [])
          × (w₁.orders ≡ w.orders ++ pending_order v ∷ [])
          × Skipped e w₁ (process_message e cfg sim again w₁)
    process_message-retry_lost d again trip unpaid more wait m types =
        let (_, orders, log, _, _, _, _) = process_message-retries d unpaid more wait in
        (
          subst
              (λ r.
                (process_message e cfg sim value w).1.log
                ≡ w.log
                  ++ record {
                    topic = cfg.kafka_topic_orders;
                    key = v.event_id;
                    value = or_zero "" r;
                  }
                    ∷ [])
              m log,
          orders,
          process_message-Skipped e cfg sim online again (next_attempt v) _
              (unmarshal_event-marshal_event e.clock (next_attempt v) again trip (wrap64-IsInt64 _)
                m)
              types (rw orders (has_key-append v.idempotency_key (pending_order v) w.orders refl)),
        )
