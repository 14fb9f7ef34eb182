-- ===== src/Tests/Orders.antt =====
-- The theorems on the worker, applied to the event of the request.
use ticketer.Json.Event.{marshal_event}
use ticketer.Base.{
  or_zero, ◌*ℤ◌, true, false, some, ◌≡◌, ◌↔◌, refl, [], ◌∷◌, pos, ◌<ℤ◌, wrap64, ◌+ℤ◌, ltb_ℤ, ok,
}
use ticketer.Shared.Events.{channel_order_confirmed}
use ticketer.Shared.Models.{status_confirmed, status_failed}
use ticketer.Platform.Env.{reply_lost}
use ticketer.Platform.Action.{World}
use ticketer.Worker.Payment.{new_simulator, process_payment}
use ticketer.Worker.Payment.Outcome.{DrawsBelow, payment_at, IsReason, process_payment_outcome}
use ticketer.Worker.Repository.{has_key, has_id}
use ticketer.Worker.Consumer.{returned, pending_order, next_attempt, backoff, process_message}
use ticketer.Worker.Consumer.Rows.{Recorded, process_message-Recorded}
use ticketer.Worker.Consumer.Paths.{Skipped, process_message-Skipped, process_message-confirms}
use ticketer.Worker.Consumer.Failures.{process_message-gives_up, process_message-retry_lost}
use ticketer.Tests.Server.{Memory}
use ticketer.Tests.Wire.{
  clock, attempt, first, second, clock-IsClock, first_decodes, second_encodes,
}
use ticketer.Tests.Runs.{
  env, online, online-IsOnline, first_call, settings, world, always_paid, never_paid, taken_memory,
}

process_message-Recorded_example :
    let e = env (first_call (reply_lost "i/o timeout")) in
    Recorded
      (attempt (pos 0))
      []
      (process_message e (settings (pos 3)) never_paid first (world taken_memory [])).1.orders
process_message-Recorded_example =
    process_message-Recorded (env (first_call (reply_lost "i/o timeout"))) (settings (pos 3))
      never_paid first (attempt (pos 0)) (world taken_memory []) first_decodes

-- The row of the order is in the table.
abbrev known : World Memory
known = world taken_memory (pending_order (attempt (pos 0)) ∷ [])

has_key-known : has_key "key-1" (pending_order (attempt (pos 0)) ∷ []) ≡ true
unfolding has_key
has_key-known = refl

process_message-Skipped_example :
    Skipped online known (process_message online (settings (pos 3)) always_paid first known)
process_message-Skipped_example =
    process_message-Skipped online (settings (pos 3)) always_paid online-IsOnline first
      (attempt (pos 0)) known first_decodes refl has_key-known

new_key : has_key "key-1" [] ≡ false
unfolding has_key
new_key = refl

new_id : has_id "order-1" [] ≡ false
unfolding has_id
new_id = refl

paid : (payment_at online always_paid 0).0.success ≡ true
unfolding payment_at
paid = refl

unpaid : (payment_at online never_paid 0).0.success ≡ false
unfolding payment_at
unpaid = refl

last : ltb_ℤ (next_attempt (attempt (pos 0))).retry_count (pos 1) ≡ false
unfolding wrap64 ◌+ℤ◌
last = refl

more : ltb_ℤ (next_attempt (attempt (pos 0))).retry_count (pos 3) ≡ true
unfolding wrap64 ◌+ℤ◌
more = refl

wait : backoff (next_attempt (attempt (pos 0))).retry_count ≡ some (pos 1000000000)
unfolding backoff wrap64 ◌+ℤ◌ ◌*ℤ◌
wait = refl

process_message-confirms_example :
    let (exit, w') =
      process_message online (settings (pos 3)) always_paid first (world taken_memory []) in
    (exit ≡ returned)
    × (w'.orders ≡ record (pending_order (attempt (pos 0))) { status = status_confirmed } ∷ [])
    × (w'.published
        ≡ (channel_order_confirmed, "Payment successful! Your ticket is confirmed. 🎉") ∷ [])
    × (w'.log ≡ [])
    × (w'.redis ≡ taken_memory)
    × (w'.metrics.orders_processed ≡ "confirmed" ∷ [])
process_message-confirms_example =
    process_message-confirms online (settings (pos 3)) always_paid online-IsOnline first
      (attempt (pos 0)) (world taken_memory []) first_decodes new_key new_id refl refl
      "Payment successful! Your ticket is confirmed. 🎉" paid refl

process_message-gives_up_example :
    let (exit, w') =
      process_message online (settings (pos 1)) never_paid first (world taken_memory []) in
    (exit ≡ returned)
    × (w'.orders
        ≡ record (pending_order (attempt (pos 0))) {
          status = status_failed;
          failure_reason = some (payment_at online never_paid 0).0.reason;
        }
          ∷ [])
    × (w'.log
        ≡ record {
          topic = "orders-dlq";
          key = "";
          value = or_zero "" (marshal_event online.clock (next_attempt (attempt (pos 0))));
        }
          ∷ [])
    × (w'.published ≡ [])
    × (w'.redis ≡ taken_memory)
    × (w'.metrics.orders_processed ≡ "dlq" ∷ [])
    × (w'.metrics.dlq_messages ≡ 1)
process_message-gives_up_example =
    process_message-gives_up online (settings (pos 1)) never_paid online-IsOnline first
      (attempt (pos 0)) (world taken_memory []) first_decodes new_key new_id refl refl unpaid last

encoded : marshal_event clock (next_attempt (attempt (pos 0))) ≡ ok second
unfolding wrap64 ◌+ℤ◌
encoded = second_encodes

process_message-retry_lost_example :
    let w₁ =
      (process_message online (settings (pos 3)) never_paid first (world taken_memory [])).1 in
    (w₁.log ≡ record { topic = "orders"; key = "event-1"; value = second } ∷ [])
    × (w₁.orders ≡ pending_order (attempt (pos 0)) ∷ [])
    × Skipped online w₁ (process_message online (settings (pos 3)) never_paid second w₁)
process_message-retry_lost_example =
    process_message-retry_lost online (settings (pos 3)) never_paid online-IsOnline first
      (attempt (pos 0)) (world taken_memory []) first_decodes new_key new_id refl refl
      (pos 1000000000) second clock-IsClock unpaid more wait encoded refl

online-DrawsBelow : DrawsBelow online
online-DrawsBelow n i h = h

process_payment_outcome_example :
    let p = (process_payment online (new_simulator (pos 80)) (world taken_memory [])).0 in
    ((p.success ≡ true) ↔ ((false ≡ false) × (pos 0 <ℤ pos 80)))
    × (p.success ≡ false → IsReason p.reason)
process_payment_outcome_example =
    process_payment_outcome online (pos 80) (world taken_memory []) online-DrawsBelow
