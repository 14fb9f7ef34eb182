-- ===== src/Worker/Consumer/Settled.antt =====
-- How an order of the table is settled, over any network.
use ticketer.Base.{
  String, true, false, Option, none, some, ◌≡◌, ◌≢◌, refl, ◌⊎◌, inl, inr, arith, List, [], ◌∷◌,
  ◌++◌, ℤ, ltb_ℤ, Result, ok, err, Bool-cases,
}
use ticketer.Shared.Events.{OrderEvent}
use ticketer.Shared.Models.{Order, status_confirmed, status_failed}
use ticketer.Shared.Config.{Config}
use ticketer.Platform.Env.{Env, Delivery, delivered, refused, reply_lost, resent, last_try}
use ticketer.Platform.Action.{World, exchange}
use ticketer.Worker.Payment.{Payment}
use ticketer.Worker.Repository.{
  has_key, has_id, set_status, insert_order, update_order, is_new, update_order_status,
}
use ticketer.Worker.Consumer.{
  next_attempt, published, publish_status_update, confirmed, retry_after, backoff, paid,
  send_to_dlq,
}

-- The order is left as it was, or is settled as confirmed or failed.
abbrev pub Settled : String → List Order → List Order → Type 0
Settled id rows rows' =
    (rows' ≡ rows)
    ⊎ ((status : String) × (reason : Option String) × ((status ≡ status_confirmed)
          ⊎ (status ≡ status_failed))
        × (rows' ≡ set_status id status reason rows))

module _ (e : Env) where
  update_order-Settled :
      (id status : String) (reason : Option String) (rows : List Order)
      → ((status ≡ status_confirmed) ⊎ (status ≡ status_failed))
      → Settled id rows (update_order e id status reason rows).1
  unfolding update_order
  update_order-Settled id status reason rows s = elim (Bool-cases (e.accepts_id id)) [
    | inl a ↦ rw a (inr (status, reason, s, refl))
    | inr a ↦ rw a (inl refl)
  ]

  exchange-Settled :
      {A : Type 0} (id : String) (d : Delivery) (f : List Order → Result A × List Order)
      (rows : List Order)
      → Settled id rows (f rows).1
      → Settled id rows (exchange (last_try d) f rows).1
  unfolding last_try
  exchange-Settled id delivered f rows s = s
  exchange-Settled id (refused m) f rows s = inl refl
  exchange-Settled id (reply_lost m) f rows s = s
  exchange-Settled id (resent d) f rows s = exchange-Settled id d f rows s

  update_order_status-Settled :
      (id status : String) (reason : Option String) (w : World e.Store)
      → ((status ≡ status_confirmed) ⊎ (status ≡ status_failed))
      → Settled id w.orders (update_order_status e id status reason w).1.orders
  unfolding update_order_status
  update_order_status-Settled id status reason w s =
      exchange-Settled id (e.net w.calls) (update_order e id status reason) w.orders
        (update_order-Settled id status reason w.orders s)

  -- An insert adds the order, whose keys no row has, or changes nothing.
  pub insert_order-cases :
      (o : Order) (rows : List Order)
      → let (reply, rows') = insert_order e o rows in
        ((is_new e reply ≡ ok true)
          × (rows' ≡ rows ++ o ∷ [])
          × (has_key o.idempotency_key rows ≡ false)
          × (has_id o.id rows ≡ false))
        ⊎ ((is_new e reply ≢ ok true) × (rows' ≡ rows))
  unfolding insert_order
  insert_order-cases o rows = ground arith

module _ (e : Env) (cfg : Config) where
  published-orders :
      (m : Result String) (status : String) (w : World e.Store)
      → (published e cfg m status w).1.orders ≡ w.orders
  published-orders (ok payload) status w = refl
  published-orders (err m) status w = refl

  confirmed-orders :
      (reply : Result (Unit {0})) (v : OrderEvent) (w : World e.Store)
      → (confirmed e cfg reply v w).1.orders ≡ w.orders
  unfolding publish_status_update
  confirmed-orders (ok x) v w = published-orders _ status_confirmed w
  confirmed-orders (err m) v w = refl

  retry_after-orders :
      (d : Option ℤ) (v : OrderEvent) (w : World e.Store)
      → (retry_after e cfg d v w).1.orders ≡ w.orders
  retry_after-orders none v w = refl
  retry_after-orders (some d) v w = refl

  -- A payment settles the order, or leaves it pending for a retry.
  pub paid-Settled :
      (p : Payment) (v : OrderEvent) (w : World e.Store)
      → Settled v.order_id w.orders (paid e cfg p v w).1.orders
  unfolding send_to_dlq
  paid-Settled p v w = elim (Bool-cases p.success) [
    | inl s ↦ rw s (
        let (reply, w') = update_order_status e v.order_id status_confirmed none w in
        rw (confirmed-orders reply v w')
          (update_order_status-Settled e v.order_id status_confirmed none w (inl refl)))
    | inr s ↦ elim (Bool-cases (ltb_ℤ (next_attempt v).retry_count cfg.max_retries)) [
      | inl l ↦ rw s (
          rw l (inl (retry_after-orders (backoff (next_attempt v).retry_count) (next_attempt v) w)))
      | inr l ↦ rw s (
          rw l
            (update_order_status-Settled e v.order_id status_failed (some p.reason) w (inr refl)))
    ]
  ]
