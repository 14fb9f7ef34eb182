-- ===== src/Worker/Consumer/Paths.antt =====
-- The paths of one message when every call is carried out.
use ticketer.Json.Event.{unmarshal_event}
use ticketer.Base.{
  Bool, ◌&&◌, arith, suc, String, true, false, Option, none, some, ◌≡◌, refl, inl, inr, [], ◌∷◌,
  ◌++◌, ◌==◌, ok, Bool-cases,
}
use ticketer.Shared.Events.{OrderEvent, WebSocketMessage, channel_order_confirmed}
use ticketer.Shared.Models.{Order, status_confirmed}
use ticketer.Shared.Config.{Config}
use ticketer.Platform.Env.{accepts_row, last_try, Env, IsOnline}
use ticketer.Platform.Action.{World}
use ticketer.Worker.Payment.{Simulator}
use ticketer.Worker.Payment.Outcome.{process_payment_lem, payment_at}
use ticketer.Worker.Repository.{
  has_key, has_id, find_by_key, insert_order, update_order, create_order, update_order_status,
  get_order_by_idempotency_key,
}
use ticketer.Worker.Repository.Rows.{set_status-append, find_by_key-none}
use ticketer.Worker.Consumer.{
  Exit, returned, pending_order, status_message, publish_status_update, paid, created, record_order,
  checked, decoded, process_message,
}

-- What a confirmed user is told.
abbrev pub confirmation : OrderEvent → WebSocketMessage
confirmation v = status_message v status_confirmed "Payment successful! Your ticket is confirmed. 🎉"

-- The message was counted as a duplicate, and nothing else has changed.
abbrev pub Skipped : (e : Env) → World e.Store → Exit × World e.Store → Type 0
Skipped e w (exit, w') =
    (exit ≡ returned)
    × (w'.orders ≡ w.orders)
    × (w'.log ≡ w.log)
    × (w'.published ≡ w.published)
    × (w'.redis ≡ w.redis)
    × (w'.draws ≡ w.draws)
    × (w'.slept ≡ w.slept)
    × (w'.metrics.orders_processed ≡ w.metrics.orders_processed ++ "duplicate" ∷ [])

-- The world once the order of a new event is in the table.
abbrev pub recorded : (e : Env) → OrderEvent → World e.Store → World e.Store
recorded e v w = record w { calls = suc (suc w.calls); orders = w.orders ++ pending_order v ∷ [] }

both_true : (a b : Bool) → (a && b) ≡ true → (a ≡ true) × (b ≡ true)
both_true a b h = ground arith

module _ (e : Env) (cfg : Config) (sim : Simulator) (online : IsOnline e) where
  record_order-Skipped :
      (v : OrderEvent) (w : World e.Store)
      → e.accepts_types (pending_order v) ≡ true
      → has_key v.idempotency_key w.orders ≡ true
      → Skipped e w (record_order e cfg sim v w)
  unfolding create_order insert_order last_try
  record_order-Skipped v w a h =
      rw (online w.calls) (rw (a, h) (refl, refl, refl, refl, refl, refl, refl, refl))

  checked-Skipped :
      (existing : Option Order) (v : OrderEvent) (w : World e.Store)
      → e.accepts_types (pending_order v) ≡ true
      → has_key v.idempotency_key w.orders ≡ true
      → Skipped e w (checked e cfg sim (ok existing) v w)
  checked-Skipped none v w a h = record_order-Skipped v w a h
  checked-Skipped (some o) v w a h = elim (Bool-cases (o.status == status_confirmed)) [
    | inl c ↦ rw c (refl, refl, refl, refl, refl, refl, refl, refl)
    | inr c ↦ rw c (record_order-Skipped v w a h)
  ]

  -- With every call carried out, a message that decodes to an event whose values have the types of
  -- the columns, and whose idempotency key is in the table, with whatever status, is counted as a
  -- duplicate: no payment is drawn, and no row, message, publication, wait or stored value changes.
  pub process_message-Skipped :
      (value : String) (v : OrderEvent) (w : World e.Store)
      → unmarshal_event e.clock value ≡ ok v
      → e.accepts_types (pending_order v) ≡ true
      → has_key v.idempotency_key w.orders ≡ true
      → Skipped e w (process_message e cfg sim value w)
  unfolding process_message get_order_by_idempotency_key last_try
  process_message-Skipped value v w u a h =
      rw (u, decoded)
        (rw (online w.calls) (
          checked-Skipped (find_by_key v.idempotency_key w.orders) v
            (record w { calls = suc w.calls }) a h))

  pub process_message-recorded :
      (value : String) (v : OrderEvent) (w : World e.Store)
      → unmarshal_event e.clock value ≡ ok v
      → has_key v.idempotency_key w.orders ≡ false
      → has_id v.order_id w.orders ≡ false
      → accepts_row e (pending_order v) ≡ true
      → process_message e cfg sim value w ≡ created e cfg sim (ok true) v (recorded e v w)
  unfolding process_message get_order_by_idempotency_key create_order insert_order last_try
  process_message-recorded value v w u hk hi a =
      let (types, reference) =
        both_true (e.accepts_types (pending_order v)) (e.accepts_reference (pending_order v)) a in
      rw (u, decoded)
        (rw (online w.calls) (
          rw (find_by_key-none v.idempotency_key w.orders hk)
            (rw (online (suc w.calls)) (rw (types, hk) (rw (hi, reference))))))

  module _ (value : String) (v : OrderEvent) (w : World e.Store)
      (decodes : unmarshal_event e.clock value ≡ ok v)
      (new_key : has_key v.idempotency_key w.orders ≡ false)
      (new_id : has_id v.order_id w.orders ≡ false)
      (row_fits : accepts_row e (pending_order v) ≡ true)
      (id_fits : e.accepts_id v.order_id ≡ true) where
    -- Let every call be carried out, and a message decode to an event whose keys are new in the
    -- table and whose row and identifier the database accepts. If the payment succeeds and the
    -- confirmation can be encoded, the worker returns with one confirmed row added, publishes the
    -- encoded confirmation on the channel of confirmed orders, and counts the order as confirmed;
    -- the log and the store stay as they were.
    pub process_message-confirms :
        (payload : String)
        → (payment_at e sim w.draws).0.success ≡ true
        → e.marshal_message (confirmation v) ≡ ok payload
        → let (exit, w') = process_message e cfg sim value w in
          (exit ≡ returned)
          × (w'.orders ≡ w.orders ++ record (pending_order v) { status = status_confirmed } ∷ [])
          × (w'.published ≡ w.published ++ (channel_order_confirmed, payload) ∷ [])
          × (w'.log ≡ w.log)
          × (w'.redis ≡ w.redis)
          × (w'.metrics.orders_processed ≡ w.metrics.orders_processed ++ "confirmed" ∷ [])
    unfolding update_order_status update_order last_try publish_status_update
    process_message-confirms payload paid m =
        rw (process_message-recorded value v w decodes new_key new_id row_fits) (
          rw (process_payment_lem e sim (recorded e v w)) (
            rw paid (
              rw (online (suc (suc w.calls))) (
                rw id_fits (
                  rw m (
                    rw (online (suc (suc (suc w.calls)))) (
                      refl,
                      set_status-append v.order_id status_confirmed none (pending_order v) w.orders
                          new_id refl,
                      refl,
                      refl,
                      refl,
                      refl,
                    )))))))
