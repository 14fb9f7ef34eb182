-- ===== src/Tests/Compensations.antt =====
-- The theorems on the dead letter queue, applied to the event of the request.
use ticketer.Json.Lexer.{tokens, step, open_token, punctuation}
use ticketer.Json.Parser.{read, parse, shift}
use ticketer.Json.Text.{chars}
use ticketer.Json.Event.{unmarshal_event, marshal_event}
use ticketer.Base.{
  err, ◌^◌, ltb_ℤ, false, some, ◌≡◌, refl, arith, [], ◌∷◌, pos, ◌+ℤ◌, ◌-ℤ◌, ◌<ℤ◌, wrap64, ok,
}
use ticketer.Shared.Models.{status_compensated}
use ticketer.Gateway.Gatekeeper.Reserve.{Shows, reserve}
use ticketer.Gateway.Gatekeeper.Release.{release}
use ticketer.Gateway.Events.Start.{restock}
use ticketer.Worker.Payment.Outcome.{payment_at}
use ticketer.Worker.Repository.{has_key, has_id}
use ticketer.Worker.Consumer.{returned, pending_order, next_attempt, process_message}
use ticketer.Worker.Dlq.{process_compensation}
use ticketer.Worker.Dlq.Replay.{process_compensation-again, process_message-poison}
use ticketer.Worker.Dlq.Refund.{process_compensation-refunds}
use ticketer.Tests.Server.{server, server-IsRedis}
use ticketer.Tests.Wire.{
  clock, attempt, first, second, clock-IsClock, first_decodes, second_encodes,
}
use ticketer.Tests.Runs.{
  online, online-IsOnline, settings, world, never_paid, open_sale, taken_sale, taken_memory,
  taken_Shows, taken_code, taken_fits,
}

one_fits : taken_sale.left "event-1" +ℤ pos 1 <ℤ pos (2 ^ 63)
unfolding reserve restock ◌+ℤ◌ ◌-ℤ◌
one_fits = omega arith

two_fit : taken_sale.left "event-1" +ℤ pos 2 <ℤ pos (2 ^ 63)
unfolding reserve restock ◌+ℤ◌ ◌-ℤ◌
two_fit = omega arith

process_compensation-again_example :
    let w₁ = (process_compensation online first (world taken_memory [])).1 in
    let w₂ = (process_compensation online first w₁).1 in
    Shows server w₂.redis (release "event-1" "user-1" (release "event-1" "user-1" taken_sale))
    × ((release "event-1" "user-1" (release "event-1" "user-1" taken_sale)).left "event-1"
        ≡ taken_sale.left "event-1" +ℤ pos 1 +ℤ pos 1)
process_compensation-again_example =
    process_compensation-again online first (attempt (pos 0)) taken_sale (world taken_memory [])
      server-IsRedis online-IsOnline first_decodes refl taken_Shows two_fit

malformed : unmarshal_event clock "{" ≡ err "invalid character in JSON"
unfolding unmarshal_event read tokens chars step open_token punctuation parse shift
malformed = refl

process_message-poison_example :
    let (exit, w₁) =
      process_message online (settings (pos 3)) never_paid "{" (world taken_memory []) in
    (exit ≡ returned)
    × (w₁.log ≡ record { topic = "orders-dlq"; key = ""; value = "{" } ∷ [])
    × (w₁.redis ≡ taken_memory)
    × (w₁.orders ≡ [])
    × ((process_compensation online "{" w₁).1 ≡ w₁)
process_message-poison_example =
    process_message-poison online (settings (pos 3)) never_paid "{" "invalid character in JSON"
      (world taken_memory []) online-IsOnline malformed

new_key : has_key "key-1" [] ≡ false
unfolding has_key
new_key = refl

new_id : has_id "order-1" [] ≡ false
unfolding has_id
new_id = refl

unpaid : (payment_at online never_paid 0).0.success ≡ false
unfolding payment_at
unpaid = refl

last : ltb_ℤ (next_attempt (attempt (pos 0))).retry_count (pos 1) ≡ false
unfolding wrap64 ◌+ℤ◌
last = refl

encoded : marshal_event clock (next_attempt (attempt (pos 0))) ≡ ok second
unfolding wrap64 ◌+ℤ◌
encoded = second_encodes

process_compensation-refunds_example :
    let w₁ =
      (process_message online (settings (pos 1)) never_paid first (world taken_memory [])).1 in
    let w₂ = (process_compensation online second w₁).1 in
    (w₁.log ≡ record { topic = "orders-dlq"; key = ""; value = second } ∷ [])
    × (w₂.log ≡ w₁.log)
    × (w₂.orders
        ≡ record (pending_order (attempt (pos 0))) {
          status = status_compensated;
          failure_reason = some "payment_failed_permanently";
        }
          ∷ [])
    × Shows server w₂.redis open_sale
process_compensation-refunds_example =
    process_compensation-refunds online (settings (pos 1)) never_paid first second (attempt (pos 0))
      open_sale (world taken_memory []) server-IsRedis online-IsOnline clock-IsClock first_decodes
      new_key new_id refl refl taken_code taken_fits taken_Shows unpaid last encoded
