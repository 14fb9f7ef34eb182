-- ===== src/Gateway/Booking/Traffic.antt =====
-- Sequences of bookings, their rollbacks included, over any network.
use ticketer.Base.{
  ℤ, int_laws, arith, ◌≤◌, ◌&&◌, if◌then◌else◌, Bool, ◌==◌, ℕ, ◌+◌, String, inl, inr, List, [], ◌∷◌,
  pos, ◌+ℤ◌, ◌<ℤ◌, ◌≤ℤ◌, ok, Option-cases, ◌∙◌,
}
use ticketer.Shared.Models.{BookingRequest}
use ticketer.Shared.Config.{Config}
use ticketer.Platform.Redis.{IsRedis}
use ticketer.Platform.Env.{Env, repeats}
use ticketer.Platform.Action.{World}
use ticketer.Gateway.Gatekeeper.{RunsScript, try_acquire_ticket}
use ticketer.Gateway.Gatekeeper.Reserve.{Sale, Shows}
use ticketer.Gateway.Gatekeeper.Frame.{try_acquire_ticket-repeats}
use ticketer.Gateway.Gatekeeper.Acquire.{HoldsDigest, try_acquire_ticket-Answered}
use ticketer.Gateway.Gatekeeper.Grants.{is_user, locked_le}
use ticketer.Gateway.Booking.{validate, validated, create_booking}
use ticketer.Shared.Events.{user_lock_key}
use ticketer.Gateway.Booking.Once.{Once, refused-Once, acquired-Once}
use ticketer.Gateway.Booking.Kept.{refusal, acquired-digest}
use ticketer.Gateway.Booking.Within.{accepted_for, Within, unchanged-Within, acquired-Within}

-- The bookings are served one after another; the result counts those that the test
-- selects and that are accepted.
unfoldable pub accepts :
    (e : Env)
    → Config
    → (BookingRequest → Bool)
    → List BookingRequest
    → World e.Store
    → ℕ × World e.Store
accepts e cfg selects [] w = (0, w)
accepts e cfg selects (req ∷ reqs) w =
    let (response, w₁) = create_booking e cfg (ok req) w in
    let (n, w₂) = accepts e cfg selects reqs w₁ in (accepted_for (selects req) response + n, w₂)

module _ (e : Env) (cfg : Config) (laws : IsRedis e.redis) (v : String) (runs : RunsScript e.redis)
    (ttl : pos 0 <ℤ cfg.lock_ttl_seconds) (req : BookingRequest) where
  -- One booking.
  create_booking-Within :
      (sale : Sale) (w : World e.Store)
      → HoldsDigest e w
      → Shows e.redis w.redis sale
      → let (response, w') = create_booking e cfg (ok req) w in
        Within e v sale
          (accepted_for (req.event_id == v) response)
          (repeats e w.calls)
          (repeats e w'.calls)
          w'.redis
        × HoldsDigest e w'
  unfolding create_booking
  create_booking-Within sale w digest shows = elim (Option-cases (validate e req)) [
    | inr (r, q) ↦
        rw (q, validated)
          (
            unchanged-Within e cfg laws v req sale r _ _ w.redis (refusal e cfg req r q) shows
                (omega arith),
            digest,
          )
    | inl q ↦
        let next = try_acquire_ticket e req.event_id req.user_id cfg.lock_ttl_seconds w in
        let (answered, held) =
          try_acquire_ticket-Answered e laws runs req.event_id req.user_id cfg.lock_ttl_seconds ttl
            sale w digest shows in
        rw (q, validated)
          (
            acquired-Within e cfg laws v req sale next.0 _ next.1 answered
                (try_acquire_ticket-repeats e req.event_id req.user_id cfg.lock_ttl_seconds w),
            acquired-digest e cfg req next.0 next.1 ∙ held,
          )
  ]

module _ (e : Env) (cfg : Config) (laws : IsRedis e.redis) (v x : String)
    (runs : RunsScript e.redis) (ttl : pos 0 <ℤ cfg.lock_ttl_seconds) where
  create_booking-Once :
      (req : BookingRequest) (sale : Sale) (w : World e.Store)
      → HoldsDigest e w
      → Shows e.redis w.redis sale
      → let (response, w') = create_booking e cfg (ok req) w in
        Once e v x sale (accepted_for (is_user v x req.event_id req.user_id) response) w'.redis
        × HoldsDigest e w'
  unfolding create_booking
  create_booking-Once req sale w digest shows = elim (Option-cases (validate e req)) [
    | inr (r, q) ↦
        rw (q, validated)
          (
            refused-Once e cfg laws v x req sale sale r w.redis (refusal e cfg req r q) shows
                (omega arith),
            digest,
          )
    | inl q ↦
        let next = try_acquire_ticket e req.event_id req.user_id cfg.lock_ttl_seconds w in
        let (answered, held) =
          try_acquire_ticket-Answered e laws runs req.event_id req.user_id cfg.lock_ttl_seconds ttl
            sale w digest shows in
        rw (q, validated)
          (
            acquired-Once e cfg laws v x req sale next.0 next.1 answered,
            acquired-digest e cfg req next.0 next.1 ∙ held,
          )
  ]

  -- The bookings of one user that are accepted, with the lock from before, are those of the lock
  -- that is left.
  accepts-locked :
      (reqs : List BookingRequest) (sale : Sale) (w : World e.Store)
      → HoldsDigest e w
      → Shows e.redis w.redis sale
      → let (n, w') = accepts e cfg (λ req. is_user v x req.event_id req.user_id) reqs w in
        Once e v x sale n w'.redis
  unfolding accepts
  accepts-locked [] sale w d shows = (sale, shows, omega arith)
  accepts-locked (req ∷ reqs) sale w d shows =
      let ((sale₁, shows₁, le₁), d₁) = create_booking-Once req sale w d shows in
      let (sale₂, shows₂, le₂) = accepts-locked reqs sale₁ _ d₁ shows₁ in
      (sale₂, shows₂, omega (arith, le₁, le₂))

-- No double booking at the API. Let Redis keep its documented laws and run the gatekeeper's text as
-- its translation does, and let the lock's time to live be positive, the gateway hold the script's
-- digest and the store show a sale. As no lock reaches the end of its time to live during a
-- sequence of bookings over any network, also one that repeats calls, at most one booking of one
-- user for one event, each under one text of its identifier, is answered by 202, however often they
-- and others ask and whichever bookings are rolled back, and none if they held the lock before.
pub accepts-once :
    (e : Env) (cfg : Config) (v x : String) (reqs : List BookingRequest) (sale : Sale)
    (w : World e.Store)
    → IsRedis e.redis
    → RunsScript e.redis
    → pos 0 <ℤ cfg.lock_ttl_seconds
    → HoldsDigest e w
    → Shows e.redis w.redis sale
    → (accepts e cfg (λ req. (req.event_id == v) && (req.user_id == x)) reqs w).0
        + (if sale.held (user_lock_key v x) then 1 else 0)
      ≤ 1
accepts-once e cfg v x reqs sale w laws runs t d shows =
    let (sale', _, le) = accepts-locked e cfg laws v x runs t reqs sale w d shows in
    omega (arith, le, locked_le (sale'.held (user_lock_key v x)))

none_yet : (p : ℕ) (z : ℤ) → pos (0 + p) +ℤ z ≤ℤ pos p +ℤ z
none_yet p z = omega int_laws

add_le :
    (a b p q r : ℕ) (x y z : ℤ)
    → pos (a + p) +ℤ y ≤ℤ pos q +ℤ z
    → pos (b + q) +ℤ x ≤ℤ pos r +ℤ y
    → pos (a + b + p) +ℤ x ≤ℤ pos r +ℤ z
add_le a b p q r x y z h k = omega int_laws

-- How far the API can oversell. Let Redis keep its documented laws and run the gatekeeper's text as
-- its translation does, and let the lock's time to live be positive, the gateway hold the script's
-- digest and the store show a sale. After any sequence of bookings by any users over any network,
-- those that are rolled back because their event could not be written included, the store shows a
-- sale in which the tickets still left for an event, with its bookings that were answered by 202,
-- are at most those left before and one for each time that a client library repeated a call which
-- had been carried out; without such repetitions nothing is oversold. A count of tickets that was
-- not negative has not become so.
pub accepts-bound :
    (e : Env) (cfg : Config) (v : String) (reqs : List BookingRequest) (sale : Sale)
    (w : World e.Store)
    → IsRedis e.redis
    → RunsScript e.redis
    → pos 0 <ℤ cfg.lock_ttl_seconds
    → HoldsDigest e w
    → Shows e.redis w.redis sale
    → let (n, w') = accepts e cfg (λ req. req.event_id == v) reqs w in
      (sale' : Sale) × Shows e.redis w'.redis sale'
      × (pos (n + repeats e w.calls) +ℤ sale'.left v ≤ℤ pos (repeats e w'.calls) +ℤ sale.left v)
      × (pos 0 ≤ℤ sale.left v → pos 0 ≤ℤ sale'.left v)
unfolding accepts
accepts-bound e cfg v [] sale w laws runs t d shows =
    (sale, shows, none_yet (repeats e w.calls) (sale.left v), λ h. h)
accepts-bound e cfg v (req ∷ reqs) sale w laws runs t d shows =
    let ((sale₁, shows₁, le₁, nonneg₁), d₁) =
      create_booking-Within e cfg laws v runs t req sale w d shows in
    let (sale₂, shows₂, le₂, nonneg₂) = accepts-bound e cfg v reqs sale₁ _ laws runs t d₁ shows₁ in
    (sale₂, shows₂, add_le _ _ _ _ _ _ _ _ le₁ le₂, λ h. nonneg₂ (nonneg₁ h))
