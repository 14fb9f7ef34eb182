-- ===== src/Tests/Services.antt =====
-- The theorems on the smaller handlers and on the services together, applied to concrete runs.
use ticketer.Base.{List, ℕ, eqb, String, true, false, some, ◌≡◌, refl, [], ◌∷◌, pos, if◌then◌else◌}
use ticketer.Gateway.Http.{failure}
use ticketer.Gateway.Middleware.{
  HttpMetrics, answered, Counted, prometheus_middleware, prometheus_middleware-Counted,
}
use ticketer.Gateway.Hub.{Hub, lookup, inbound, step}
use ticketer.Gateway.Hub.Wired.{offered, IsWired}
use ticketer.Gateway.Subscriber.{start}
use ticketer.Gateway.Subscriber.Notify.{meets}
use ticketer.Worker.Payment.Outcome.{payment_at}
use ticketer.Worker.Repository.{has_key, has_id}
use ticketer.Worker.Consumer.{process_message}
use ticketer.Worker.Consumer.Paths.{confirmation}
use ticketer.System.{process_message-notifies}
use ticketer.Tests.Wire.{attempt, first, first_decodes}
use ticketer.Tests.Runs.{online, online-IsOnline, settings, world, always_paid, taken_memory}

abbrev idle : HttpMetrics
idle = record { in_flight = pos 0; observed = [] }

prometheus_middleware-Counted_example : Counted "GET" "/api/v1/events" idle (
    prometheus_middleware "GET" "/api/v1/events"
      (λ m. (answered (failure 400 "missing_param" "Event ID is required"), m))
      idle)
prometheus_middleware-Counted_example =
    prometheus_middleware-Counted "GET" "/api/v1/events"
      (λ m. (answered (failure 400 "missing_param" "Event ID is required"), m)) idle (λ n. refl)

abbrev user : ℕ → String
user c = if eqb c 1 then "user-1" else "user-2"

abbrev hub : Hub
hub = record { clients = 1 ∷ []; channels = λ c. record { waiting = "hello" ∷ []; closed = false } }

hub-IsWired : IsWired user hub.channels hub.clients
unfolding lookup
hub-IsWired = (refl, refl, tt)

registered : lookup user "user-1" hub.clients ≡ some 1
unfolding lookup
registered = refl

new_key : has_key "key-1" [] ≡ false
unfolding has_key
new_key = refl

new_id : has_id "order-1" [] ≡ false
unfolding has_id
new_id = refl

paid : (payment_at online always_paid 0).0.success ≡ true
unfolding payment_at
paid = refl

abbrev told : String
told = "Payment successful! Your ticket is confirmed. 🎉"

process_message-notifies_example :
    ((fresh : List (String × String)) × ((process_message online
          (settings (pos 3))
          always_paid
          first
          (world taken_memory [])).1.published
        ≡ fresh)
      × (start online (meets fresh) [] ≡ confirmation (attempt (pos 0)) ∷ []))
    × ((h' : Hub) × (step user online (inbound (confirmation (attempt (pos 0)))) hub ≡ some h')
        × (h'.channels 1 ≡ offered told (offered told (hub.channels 1))))
process_message-notifies_example =
    process_message-notifies online (settings (pos 3)) always_paid user first told told
      (attempt (pos 0)) (world taken_memory []) hub 1 online-IsOnline first_decodes new_key new_id
      refl refl paid refl refl refl hub-IsWired registered
