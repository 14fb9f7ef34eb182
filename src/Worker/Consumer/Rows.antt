-- ===== src/Worker/Consumer/Rows.antt =====
-- What one message can do to the table `orders`, over any network.
use ticketer.Json.Event.{unmarshal_event}
use ticketer.Base.{
  suc, String, Bool, true, false, Option, none, some, ◌≡◌, ◌≢◌, refl, ap, ◌∙◌, ◌⊎◌, inl, inr, List,
  [], ◌∷◌, ◌++◌, ◌==◌, subst, Result, ok, err, Bool-cases,
}
use ticketer.Shared.Events.{OrderEvent}
use ticketer.Shared.Models.{Order, status_pending, status_confirmed, status_failed}
use ticketer.Shared.Config.{Config}
use ticketer.Platform.Env.{Env, Delivery, delivered, refused, reply_lost, resent, last_try}
use ticketer.Platform.Action.{World, exchange}
use ticketer.Worker.Payment.{Simulator}
use ticketer.Worker.Payment.Outcome.{process_payment_lem}
use ticketer.Worker.Repository.{
  has_key, has_id, set_status, insert_order, is_new, create_order, get_order_by_idempotency_key,
}
use ticketer.Worker.Repository.Rows.{set_status-append}
use ticketer.Worker.Consumer.{
  pending_order, created, record_order, checked, decoded, process_message, send_to_dlq,
}
use ticketer.Worker.Consumer.Settled.{Settled, paid-Settled, insert_order-cases}

abbrev pub IsOutcome : String → Type 0
IsOutcome s = (s ≡ status_pending) ⊎ (s ≡ status_confirmed) ⊎ (s ≡ status_failed)

-- The table is as before, or has one row more: that of the event, under keys that were new.
abbrev pub Recorded : OrderEvent → List Order → List Order → Type 0
Recorded v rows rows' =
    (rows' ≡ rows)
    ⊎ ((o : Order) × (rows' ≡ rows ++ o ∷ [])
        × (o.id ≡ v.order_id)
        × (o.idempotency_key ≡ v.idempotency_key)
        × (has_key v.idempotency_key rows ≡ false)
        × (has_id v.order_id rows ≡ false)
        × IsOutcome o.status)

-- A new row that is settled stands where it was added.
Settled-Recorded :
    (v : OrderEvent) (rows rows' rows'' : List Order)
    → rows' ≡ rows ++ pending_order v ∷ []
    → has_key v.idempotency_key rows ≡ false
    → has_id v.order_id rows ≡ false
    → Settled v.order_id rows' rows''
    → Recorded v rows rows''
Settled-Recorded v rows rows' rows'' e hk hi (inl same) =
    inr (pending_order v, same ∙ e, refl, refl, hk, hi, inl refl)
Settled-Recorded v rows rows' rows'' e hk hi (inr (status, reason, s, set)) = inr (
  record (pending_order v) { status = status; failure_reason = reason },
  set
      ∙ ap (set_status v.order_id status reason) e
      ∙ set_status-append v.order_id status reason (pending_order v) rows hi refl,
  refl,
  refl,
  hk,
  hi,
  inr s,
)

module _ (e : Env) (cfg : Config) (sim : Simulator) where
  -- A payment, its metric and what follows it.
  created-Settled :
      (reply : Result Bool) (v : OrderEvent) (w : World e.Store)
      → Settled v.order_id w.orders (created e cfg sim reply v w).1.orders
  created-Settled (err m) v w = inl refl
  created-Settled (ok false) v w = inl refl
  created-Settled (ok true) v w = rw (process_payment_lem e sim w) (paid-Settled e cfg _ v _)

  created_unpaid :
      (reply : Result Bool) (v : OrderEvent) (w : World e.Store)
      → reply ≢ ok true
      → (created e cfg sim reply v w).1.orders ≡ w.orders
  created_unpaid (err m) v w h = refl
  created_unpaid (ok false) v w h = refl
  created_unpaid (ok true) v w h = absurd (h refl)

  -- After the insert, by the fate of its call.
  inserted-Recorded :
      (v : OrderEvent) (w : World e.Store) (d : Delivery)
      (f : List Order → Result (Option String) × List Order)
      → (((is_new e (f w.orders).0 ≡ ok true)
            × ((f w.orders).1 ≡ w.orders ++ pending_order v ∷ [])
            × (has_key v.idempotency_key w.orders ≡ false)
            × (has_id v.order_id w.orders ≡ false))
          ⊎ ((is_new e (f w.orders).0 ≢ ok true) × ((f w.orders).1 ≡ w.orders)))
      → let (answer, rows) = exchange (last_try d) f w.orders in
        let w' : World e.Store = record w { calls = suc w.calls; orders = rows } in
        Recorded v w.orders (created e cfg sim (is_new e answer) v w').1.orders
  unfolding last_try
  inserted-Recorded v w delivered f (inl (a, b, hk, hi)) =
      Settled-Recorded v w.orders (f w.orders).1 _ b hk hi (created-Settled _ v _)
  inserted-Recorded v w delivered f (inr (n, same)) = inl (created_unpaid _ v _ n ∙ same)
  inserted-Recorded v w (refused m) f c = inl refl
  inserted-Recorded v w (reply_lost m) f (inl (a, b, hk, hi)) =
      Settled-Recorded v w.orders (f w.orders).1 _ b hk hi (inl refl)
  inserted-Recorded v w (reply_lost m) f (inr (n, same)) = inl same
  inserted-Recorded v w (resent d) f c = inserted-Recorded v w d f c

  record_order-Recorded :
      (v : OrderEvent) (w : World e.Store)
      → Recorded v w.orders (record_order e cfg sim v w).1.orders
  unfolding create_order
  record_order-Recorded v w =
      inserted-Recorded v w (e.net w.calls) (insert_order e (pending_order v))
        (insert_order-cases e (pending_order v) w.orders)

  checked-Recorded :
      (existing : Result (Option Order)) (v : OrderEvent) (w : World e.Store)
      → Recorded v w.orders (checked e cfg sim existing v w).1.orders
  checked-Recorded (err m) v w = inl refl
  checked-Recorded (ok none) v w = record_order-Recorded v w
  checked-Recorded (ok (some o)) v w = elim (Bool-cases (o.status == status_confirmed)) [
    | inl c ↦ rw c (inl refl)
    | inr c ↦ rw c (record_order-Recorded v w)
  ]

  -- The read of the table leaves it alone, whatever its fate.
  read-orders :
      (d : Delivery) (f : List Order → Result (Option Order)) (rows : List Order)
      → (exchange d (λ (r : List Order). (f r, r)) rows).1 ≡ rows
  read-orders delivered f rows = refl
  read-orders (refused m) f rows = refl
  read-orders (reply_lost m) f rows = refl
  read-orders (resent d) f rows = read-orders d f rows

  -- For a message that decodes to an event, whatever fails on the way, every row of the table stays
  -- as it is, and at most one is added: that of the event, pending, confirmed or failed, under an
  -- identifier and an idempotency key that were new.
  pub process_message-Recorded :
      (value : String) (v : OrderEvent) (w : World e.Store)
      → unmarshal_event e.clock value ≡ ok v
      → Recorded v w.orders (process_message e cfg sim value w).1.orders
  unfolding process_message get_order_by_idempotency_key
  process_message-Recorded value v w h =
      let (existing, w') = get_order_by_idempotency_key e v.idempotency_key w in
      rw (h, decoded)
        (subst (λ rows. Recorded v rows (checked e cfg sim existing v w').1.orders)
          (read-orders (last_try (e.net w.calls)) _ w.orders) (checked-Recorded existing v w'))

  -- A message that does not decode changes no row.
  pub process_message-unread :
      (value m : String) (w : World e.Store)
      → unmarshal_event e.clock value ≡ err m
      → (process_message e cfg sim value w).1.orders ≡ w.orders
  unfolding process_message send_to_dlq
  process_message-unread value m w h = rw (h, decoded) refl
