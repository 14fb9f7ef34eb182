-- ===== src/Gateway/Booking/Resent.antt =====
-- services/api-gateway/redis/gatekeeper.go, whose client of services/api-gateway/main.go sends a command
-- again when its answer is lost: what that does to a booking.
use ticketer.Base.{
  ltb_ℤ, String, none, some, ◌≡◌, refl, ◌∙◌, ap, inl, inr, ℤ, pos, ◌<ℤ◌, ok, Bool-cases, eq_refl,
  Result,
}
use ticketer.Shared.Events.{inventory_key, user_lock_key}
use ticketer.Shared.Models.{BookingRequest}
use ticketer.Shared.Config.{Config}
use ticketer.Platform.Redis.{IsRedis}
use ticketer.Platform.Env.{Env, delivered, resent}
use ticketer.Platform.Action.{World, exchange}
use ticketer.Gateway.Http.{booking}
use ticketer.Gateway.Gatekeeper.{
  result_success, result_duplicate, gatekeeper_source, gatekeeper_script, RunsScript,
  try_acquire_ticket,
}
use ticketer.Gateway.Gatekeeper.Reserve.{Sale, reserve, Shows, script-reserve}
use ticketer.Gateway.Booking.{validate, validated, create_booking}

-- A reservation that took a ticket is refused when it is made again.
reserve-held :
    (event user : String) (sale : Sale)
    → let (code, sale') = reserve event user sale in
      code ≡ result_success → reserve event user sale' ≡ (result_duplicate, sale')
unfolding reserve
reserve-held event user sale = elim (Bool-cases (sale.held (user_lock_key event user))) [
  | inl h ↦ rw h (λ c. cc)
  | inr h ↦ elim (Bool-cases (ltb_ℤ (pos 0) (sale.left event))) [
    | inl more ↦ rw (h, more) (λ c. rw (eq_refl (user_lock_key event user)) refl)
    | inr none_left ↦ rw (h, none_left) (λ c. cc)
  ]
]

module _ (e : Env) (laws : IsRedis e.redis) (runs : RunsScript e.redis) (event user : String)
    (ttl : ℤ) (t : pos 0 <ℤ ttl) where
  abbrev script : e.Store → Result ℤ × e.Store
  script = gatekeeper_script e.redis (inventory_key event) (user_lock_key event user) ttl

  eval_sha_cached :
      (sha : String) (s : e.Store)
      → e.cached sha s ≡ some gatekeeper_source
      → e.eval_sha sha (inventory_key event) (user_lock_key event user) ttl s ≡ script s
  eval_sha_cached sha s c =
      laws.eval_sha_lem sha (inventory_key event) (user_lock_key event user) ttl s
      ∙ rw (c, runs) refl

  try_acquire_ticket-resent :
      (sale : Sale) (w : World e.Store)
      → Shows e.redis w.redis sale
      → (reserve event user sale).0 ≡ result_success
      → e.cached w.script_sha w.redis ≡ some gatekeeper_source
      → e.cached w.script_sha (script w.redis).1 ≡ some gatekeeper_source
      → e.net w.calls ≡ resent delivered
      → let (reply, w') = try_acquire_ticket e event user ttl w in
        (reply ≡ ok result_duplicate)
        × Shows e.redis w'.redis (reserve event user sale).1
        × (w'.log ≡ w.log)
  unfolding try_acquire_ticket
  try_acquire_ticket-resent sale w shows c c₁ c₂ net =
      let first = script-reserve e.redis laws event user ttl w.redis sale shows t in
      let again = script-reserve e.redis laws event user ttl (script w.redis).1 _ first.1 t in
      let held = reserve-held event user sale c in
      let answer : (script (script w.redis).1).0 ≡ ok result_duplicate =
        again.0 ∙ ap (λ r. ok r.0) held in
      let send : e.Store → Result ℤ × e.Store =
        e.eval_sha w.script_sha (inventory_key event) (user_lock_key event user) ttl in
      let twice : exchange (resent delivered) send w.redis ≡ script (script w.redis).1 =
        ap (λ r. send r.1) (eval_sha_cached w.script_sha w.redis c₁)
        ∙ eval_sha_cached w.script_sha (script w.redis).1 c₂ in
      rw (net, twice) (rw answer (refl, rw held at again.1, refl))

-- Let Redis keep its laws and run the gatekeeper's text, the time to live be positive, the store
-- show a sale in which the user of a valid request can get a ticket, and the script stay in the
-- cache. If the first EVALSHA is carried out but its answer is lost, so that go-redis sends it
-- again and it is carried out a second time, the booking is answered by the 409 of a duplicate,
-- although the store shows the sale after its reservation; the log is as it was, so no order comes
-- of it.
pub create_booking-resent :
    (e : Env) (cfg : Config) (req : BookingRequest) (sale : Sale) (w : World e.Store)
    → IsRedis e.redis
    → RunsScript e.redis
    → pos 0 <ℤ cfg.lock_ttl_seconds
    → Shows e.redis w.redis sale
    → validate e req ≡ none
    → (reserve req.event_id req.user_id sale).0 ≡ result_success
    → e.cached w.script_sha w.redis ≡ some gatekeeper_source
    → e.cached w.script_sha
        (gatekeeper_script e.redis
          (inventory_key req.event_id)
          (user_lock_key req.event_id req.user_id)
          cfg.lock_ttl_seconds
          w.redis).1
      ≡ some gatekeeper_source
    → e.net w.calls ≡ resent delivered
    → let (response, w') = create_booking e cfg (ok req) w in
      (response ≡ record {
        status = 409;
        body = booking (record {
          status = "duplicate";
          order_id = "";
          message = "You already have a pending booking for this event.";
        });
      })
      × Shows e.redis w'.redis (reserve req.event_id req.user_id sale).1
      × (w'.log ≡ w.log)
unfolding create_booking
create_booking-resent e cfg req sale w laws runs t shows valid c c₁ c₂ net =
    let (answer, after, log) =
      try_acquire_ticket-resent e laws runs req.event_id req.user_id cfg.lock_ttl_seconds t sale w
        shows c c₁ c₂ net in
    rw (valid, validated) (rw answer (refl, after, log))
