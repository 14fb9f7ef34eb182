-- ===== src/Tests/Starts.antt =====
-- The theorems on settings, tracing, start-up and the services at work, applied to concrete runs.
use ticketer.Base.{
  ℕ, eqb, suc, ◌<◌, ◌+◌, String, true, false, Option, none, some, ◌≡◌, refl, arith, [], ◌∷◌, ℤ, pos,
  ◌<ℤ◌, ◌≤ℤ◌, int_laws, ok, if◌then◌else◌,
}
use ticketer.Base
use ticketer.Shared.Config.{Config, load}
use ticketer.Shared.Config.Environment.{value_of, assignments, load-assignments}
use ticketer.Shared.Events.{channel_order_confirmed}
use ticketer.Shared.Models.{status_confirmed}
use ticketer.Platform.Env.{Env, refused}
use ticketer.Platform.Action.{World}
use ticketer.Platform.Startup.{Host, is_delivered, ping_interval}
use ticketer.Telemetry.{Otel, Stripped, strip_protocol, strip_protocol-Stripped}
use ticketer.Gateway.Main.{serving, gateway, configured, traced, start_up}
use ticketer.Gateway.Main.Serving.{Ready, start_up-Ready, start_up-first}
use ticketer.Gateway.Gatekeeper.{try_acquire_ticket, gatekeeper_script}
use ticketer.Shared.Events.{inventory_key, user_lock_key}
use ticketer.Gateway.Events.Start.{restock}
use ticketer.Gateway.Booking.{accepted, validate, create_booking, publish_order}
use ticketer.Gateway.Booking.Outcomes.{order_message}
use ticketer.Gateway.Server.{bookings, serve}
use ticketer.Worker.Main as WorkerMain
use ticketer.Worker.Main.Running.{Outcome, start_up-Outcome}
use ticketer.Worker.Payment.Outcome.{payment_at}
use ticketer.Worker.Repository.{has_key, has_id}
use ticketer.Worker.Consumer.Paths.{confirmation}
use ticketer.Worker.Consumer.{pending_order, process_message}
use ticketer.System.Sound.{IsSound}
use ticketer.System.Steps.{here, next, serves, processes, Reach-IsSound}
use ticketer.System.Booked.{create_booking-confirmed}
use ticketer.Tests.Server.{Memory, server-IsRedis, server-RunsScript}
use ticketer.Tests.Wire.{request, attempt, first, clock-IsClock, first_encodes}
use ticketer.Json.Event.{marshal_event}
use ticketer.Tests.Runs.{
  env, online, online-IsOnline, first_call, settings, world, always_paid, open_memory, open_sale,
  open_Shows, taken_code,
}

strip_protocol-Stripped_example :
    Stripped "https://jaeger:4317" (strip_protocol "https://jaeger:4317")
strip_protocol-Stripped_example = strip_protocol-Stripped "https://jaeger:4317"

abbrev chosen : Config
chosen = record (settings (pos 3)) {
  db_password = "secret";
  jaeger_endpoint = "http://jaeger:4317";
}

load-assignments_example : load (value_of (assignments chosen)) ≡ chosen
load-assignments_example =
    load-assignments chosen
      (
        refl,
        (
          refl,
          (
            refl,
            (
              refl,
              (refl, (refl, (refl, (refl, (refl, (refl, (refl, (refl, (refl, (refl, tt)))))))))),
            ),
          ),
        ),
      )
      (omega arith)

-- A host whose variables are unset, and which can do what it is asked.
abbrev host : Host
host = record {
  getenv = λ key. "";
  exporter_error = λ endpoint. none;
  resource_error = λ name version. some "no resource";
  listen_error = λ address. none;
}

abbrev otel : Otel
otel = record { provider = none; propagators = [] }

abbrev late : Env
late = env (first_call (refused "connection refused"))

start_up-Ready_example :
    Ready late (world open_memory []) (start_up late host otel (world open_memory []))
start_up-Ready_example = start_up-Ready late host otel (world open_memory []) server-IsRedis

early : (j : ℕ) → j < 1 → is_delivered (late.net (0 + j)) ≡ false
early j h = ground arith

start_up-first_example :
    let (boot, w') = start_up late host otel (world open_memory []) in
    (boot ≡ serving (gateway (configured host) (traced host otel)))
    × (w'.slept ≡ ping_interval ∷ [])
start_up-first_example =
    start_up-first late host otel (world open_memory []) 1 (omega arith) early refl refl refl

abbrev database : WorkerMain.Database
database = record { parses = λ dsn. none; makes = λ n. true; pings = λ n. eqb n 2 }

start_up-Outcome_example :
    Outcome late host otel
      (world open_memory [])
      (WorkerMain.repository_at host database)
      (WorkerMain.start_up late host database otel (world open_memory []))
start_up-Outcome_example = start_up-Outcome late host database otel (world open_memory [])

left_nonneg : (v : String) → pos 0 ≤ℤ open_sale.left v
unfolding restock
left_nonneg v = ground (arith)

open-IsSound : IsSound online (world open_memory [])
open-IsSound = record { digest = refl; stored = (open_sale, open_Shows, left_nonneg); keyed = tt }

abbrev cfg : Config
cfg = settings (pos 3)

abbrev booked : World Memory
booked = (serve online cfg (bookings (ok request)) (world open_memory [])).1

abbrev paid : World Memory
paid = (process_message online cfg always_paid first booked).1

Reach-IsSound_example : IsSound online paid
Reach-IsSound_example =
    Reach-IsSound online cfg cfg always_paid server-IsRedis server-RunsScript (omega arith)
      (omega arith) open-IsSound
      (next (next here (serves (bookings (ok request)))) (processes first))

valid : validate online request ≡ none
unfolding validate
valid = refl

new_key : has_key "key-1" booked.orders ≡ false
unfolding has_key serve create_booking validate try_acquire_ticket gatekeeper_script inventory_key
    user_lock_key publish_order marshal_event
new_key = refl

new_id : has_id "order-1" booked.orders ≡ false
unfolding has_id serve create_booking validate try_acquire_ticket gatekeeper_script inventory_key
    user_lock_key publish_order marshal_event
new_id = refl

paid_at : (payment_at online always_paid booked.draws).0.success ≡ true
unfolding payment_at serve create_booking
paid_at = refl

create_booking-confirmed_example :
    let (response, w') = create_booking online cfg (ok request) (world open_memory []) in
    let u' = (process_message online cfg always_paid first booked).1 in
    let order = pending_order (attempt (pos 0)) in
    (response ≡ accepted order.id)
    × (w'.log ≡ order_message online cfg request first ∷ [])
    × (u'.orders ≡ Base.◌++◌ booked.orders (record order { status = status_confirmed } ∷ []))
    × (u'.published
        ≡ Base.◌++◌ booked.published
            ((channel_order_confirmed, (confirmation (attempt (pos 0))).message) ∷ []))
create_booking-confirmed_example =
    create_booking-confirmed online cfg request open_sale (world open_memory []) first first_encodes
      taken_code cfg always_paid (confirmation (attempt (pos 0))).message booked server-IsRedis
      server-RunsScript online-IsOnline clock-IsClock (omega arith) refl open_Shows valid new_key
      new_id refl refl paid_at refl
