-- ===== src/Tests/Bookings.antt =====
-- The theorems on bookings, applied to the sale of two tickets.
use ticketer.Json.Event.{marshal_event}
use ticketer.Shared.Events.{user_lock_key}
use ticketer.Gateway.Booking.Traffic.{accepts-once, accepts, accepts-bound}
use ticketer.Gateway.Gatekeeper.Reserve.{Sale}
use ticketer.Base.{
  ℕ, eqb, some, ◌^◌, ◌<ℤ◌, ◌&&◌, ◌+◌, ◌≤◌, if◌then◌else◌, ◌==◌, ◌+ℤ◌, ◌≤ℤ◌, ap, is_ok, none, ◌≡◌,
  refl, arith, [], ◌∷◌, pos, ok,
}
use ticketer.Shared.Events.{inventory_key, user_lock_key}
use ticketer.Platform.Env.{Env, Delivery, delivered, refused, reply_lost, resent, repeats}
use ticketer.Gateway.Gatekeeper.{gatekeeper_source, gatekeeper_script, try_acquire_ticket}
use ticketer.Gateway.Gatekeeper.Reserve.{Shows}
use ticketer.Gateway.Booking.{validate, publish_order, create_booking}
use ticketer.Gateway.Booking.Outcomes.{order_message}
use ticketer.Gateway.Booking.Accepted.{Promised, create_booking-202, Decided, create_booking-online}
use ticketer.Gateway.Booking.Resent.{create_booking-resent}
use ticketer.Gateway.Http.{booking, failure}
use ticketer.Gateway.Gatekeeper.Acquire.{Shows-load}
use ticketer.Gateway.Events.Start.{restock}
use ticketer.Gateway.Booking.Rollback.{
  publish_order-rollback, publish_order-double_use, publish_order-extra_ticket,
}
use ticketer.Tests.Server.{Memory, server, server-IsRedis, server-RunsScript}
use ticketer.Tests.Wire.{request, first, first_encodes}
use ticketer.Tests.Runs.{
  env, online, online-IsOnline, first_call, settings, world, open_sale, open_memory, open_Shows,
  taken_memory, taken_sale, taken_Shows, taken_code, taken_fits,
}

-- The write never arrives, and the release is sent again.
abbrev dropped_and_resent : Env
dropped_and_resent = env (λ n. if eqb n 0 then refused "connection refused" else resent delivered)

-- Every call is sent twice.
abbrev all_resent : ℕ → Delivery
all_resent n = resent delivered

one_fits : open_sale.left "event-1" +ℤ pos 1 <ℤ pos (2 ^ 63)
unfolding restock ◌+ℤ◌
one_fits = omega arith

validate-request : validate online request ≡ none
unfolding validate
validate-request = refl

create_booking-online_example :
    Decided online
      (settings (pos 3))
      request
      open_sale
      0
      []
      (create_booking online (settings (pos 3)) (ok request) (world open_memory []))
create_booking-online_example =
    create_booking-online online (settings (pos 3)) request open_sale (world open_memory [])
      server-IsRedis server-RunsScript online-IsOnline (omega arith) refl open_Shows
      validate-request (ap is_ok first_encodes)

answered_202 :
    (create_booking online (settings (pos 3)) (ok request) (world open_memory [])).0.status ≡ 202
unfolding create_booking validate try_acquire_ticket gatekeeper_script publish_order inventory_key
    user_lock_key marshal_event
answered_202 = refl

create_booking-202_example :
    Promised online
      (settings (pos 3))
      request
      open_sale
      0
      []
      (create_booking online (settings (pos 3)) (ok request) (world open_memory []))
create_booking-202_example =
    create_booking-202 online (settings (pos 3)) request open_sale (world open_memory [])
      server-IsRedis server-RunsScript (omega arith) refl open_Shows answered_202

publish_order-rollback_example :
    let e = env (first_call (refused "connection refused")) in
    let (response, w') = publish_order e (settings (pos 3)) request (world taken_memory []) in
    (response
      ≡ failure 503 "service_unavailable" "Booking service temporarily unavailable. Please retry.")
    × Shows server w'.redis open_sale
    × (w'.log ≡ [])
publish_order-rollback_example =
    publish_order-rollback (env (first_call (refused "connection refused"))) (settings (pos 3))
      request open_sale (world taken_memory []) first "connection refused" server-IsRedis taken_code
      taken_fits taken_Shows first_encodes refl refl

publish_order-double_use_example :
    let e = env (first_call (reply_lost "i/o timeout")) in
    let (response, w') = publish_order e (settings (pos 3)) request (world taken_memory []) in
    (response
      ≡ failure 503 "service_unavailable" "Booking service temporarily unavailable. Please retry.")
    × Shows server w'.redis open_sale
    × (w'.log ≡ order_message e (settings (pos 3)) request first ∷ [])
publish_order-double_use_example =
    publish_order-double_use (env (first_call (reply_lost "i/o timeout"))) (settings (pos 3))
      request open_sale (world taken_memory []) first "i/o timeout" server-IsRedis taken_code
      taken_fits taken_Shows first_encodes refl refl

publish_order-extra_ticket_example :
    let (response, w') =
      publish_order dropped_and_resent (settings (pos 3)) request (world taken_memory []) in
    (response
      ≡ failure 503 "service_unavailable" "Booking service temporarily unavailable. Please retry.")
    × ((sale' : Sale) × Shows server w'.redis sale'
        × (sale'.left "event-1" ≡ open_sale.left "event-1" +ℤ pos 1))
    × (w'.log ≡ [])
publish_order-extra_ticket_example =
    publish_order-extra_ticket dropped_and_resent (settings (pos 3)) request open_sale
      (world taken_memory []) first "connection refused" server-IsRedis taken_code one_fits
      taken_Shows first_encodes refl refl

-- The script is in the cache.
abbrev loaded_memory : Memory
loaded_memory = server.script_load gatekeeper_source open_memory

loaded_Shows : Shows server loaded_memory open_sale
loaded_Shows = Shows-load online server-IsRedis open_sale open_memory open_Shows

still_cached :
    server.cached gatekeeper_source
      (gatekeeper_script server
        (inventory_key "event-1")
        (user_lock_key "event-1" "user-1")
        (pos 300)
        loaded_memory).1
    ≡ some gatekeeper_source
unfolding gatekeeper_script inventory_key user_lock_key
still_cached = refl

validate-resent : validate (env (first_call (resent delivered))) request ≡ none
unfolding validate
validate-resent = refl

create_booking-resent_example :
    let e = env (first_call (resent delivered)) in
    let (response, w') =
      create_booking e (settings (pos 3)) (ok request) (world loaded_memory []) in
    (response ≡ record {
      status = 409;
      body = booking (record {
        status = "duplicate";
        order_id = "";
        message = "You already have a pending booking for this event.";
      });
    })
    × Shows server w'.redis taken_sale
    × (w'.log ≡ [])
create_booking-resent_example =
    create_booking-resent (env (first_call (resent delivered))) (settings (pos 3)) request open_sale
      (world loaded_memory []) server-IsRedis server-RunsScript (omega arith) loaded_Shows
      validate-resent taken_code refl still_cached refl

accepts-bound_example :
    let (n, w') =
      accepts
        (env all_resent)
        (settings (pos 3))
        (λ req. req.event_id == "event-1")
        (request ∷ request ∷ [])
        (world open_memory []) in
    (sale' : Sale) × Shows server w'.redis sale'
    × (pos (n + 0) +ℤ sale'.left "event-1"
        ≤ℤ pos (repeats (env all_resent) w'.calls) +ℤ open_sale.left "event-1")
    × (pos 0 ≤ℤ open_sale.left "event-1" → pos 0 ≤ℤ sale'.left "event-1")
unfolding repeats
accepts-bound_example =
    accepts-bound (env all_resent) (settings (pos 3)) "event-1" (request ∷ request ∷ []) open_sale
      (world open_memory []) server-IsRedis server-RunsScript (omega arith) refl open_Shows

accepts-once_example :
    (accepts online
        (settings (pos 3))
        (λ req. (req.event_id == "event-1") && (req.user_id == "user-1"))
        (request ∷ request ∷ [])
        (world open_memory [])).0
      + (if open_sale.held (user_lock_key "event-1" "user-1") then 1 else 0)
    ≤ 1
accepts-once_example =
    accepts-once online (settings (pos 3)) "event-1" "user-1" (request ∷ request ∷ []) open_sale
      (world open_memory []) server-IsRedis server-RunsScript (omega arith) refl open_Shows
