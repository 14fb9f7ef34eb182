-- ===== src/Gateway/Booking/Once.antt =====
-- What one booking does to the lock of a user, its rollback included, over any network.
use ticketer.Base.{
  List, ◌∙◌, ℕ, ◌+◌, ◌≤◌, String, Bool, true, false, ◌&&◌, ◌≡◌, refl, inl, inr, arith, ◌==◌, eqb,
  eq_iff, ℤ, Result, ok, err, if◌then◌else◌, Bool-cases,
}
use ticketer.Shared.Events.{user_lock_key}
use ticketer.Shared.Models.{BookingRequest}
use ticketer.Shared.Config.{Config}
use ticketer.Platform.Redis.{IsRedis}
use ticketer.Platform.Env.{Env, Delivery}
use ticketer.Platform.Action.{World, Message}
use ticketer.Gateway.Http.{Response, failure}
use ticketer.Gateway.Gatekeeper.{result_success, release_ticket}
use ticketer.Gateway.Gatekeeper.Reserve.{Sale, reserve, Shows}
use ticketer.Gateway.Gatekeeper.Acquire.{Answered}
use ticketer.Gateway.Gatekeeper.Grants.{granted, is_user, locked, reserve-locked}
use ticketer.Gateway.Booking.{conflict, unavailable, unpublished, acquired}
use ticketer.Gateway.Booking.Accepted.{reserve-cases}
use ticketer.Gateway.Booking.Outcomes.{published, finished, publish_order_lem}
use ticketer.Gateway.Booking.Refunds.{released}
use ticketer.Gateway.Booking.Within.{accepted_for}

-- A store that shows a sale in which the user x holds the lock for the event v, if they held it before or
-- got a ticket.
abbrev pub Once : (e : Env) → String → String → Sale → ℕ → e.Store → Type 0
Once e v x sale n s =
    (sale' : Sale) × Shows e.redis s sale' × (n + locked sale v x ≤ locked sale' v x)

all_of :
    (b : Bool) (m k : ℕ)
    → granted b (ok result_success) + m ≤ k
    → (if b && true then 1 else 0) + m ≤ k
all_of true m k h = h
all_of false m k h = h

none_counted : (b : Bool) (m k : ℕ) → m ≤ k → (if b && false then 1 else 0) + m ≤ k
none_counted true m k h = omega arith
none_counted false m k h = omega arith

-- The lock that a reservation sets was free, and it sets no other.
reserve-free :
    (event user : String) (sale : Sale)
    → (reserve event user sale).0 ≡ result_success
    → sale.held (user_lock_key event user) ≡ false
unfolding reserve
reserve-free event user sale c = ground arith

reserve-other :
    (event user k : String) (sale : Sale)
    → (reserve event user sale).0 ≡ result_success
    → (user_lock_key event user == k) ≡ false
    → (reserve event user sale).1.held k ≡ sale.held k
unfolding reserve
reserve-other event user k sale c q = ground arith

locked_same : (a b : Bool) → b ≡ a → (if a then 1 else 0) ≤ (if b then 1 else 0)
locked_same a b h = ground arith

-- A release takes away no lock from before the reservation.
rolled_back-locked :
    (event user v x : String) (sale sale' : Sale)
    → (reserve event user sale).0 ≡ result_success
    → ((k : String)
        → (user_lock_key event user == k) ≡ false
        → sale'.held k ≡ (reserve event user sale).1.held k)
    → locked sale v x ≤ locked sale' v x
rolled_back-locked event user v x sale sale' c same =
    let k : String = user_lock_key v x in
    elim (Bool-cases (user_lock_key event user == k)) [
      | inl q ↦
          let p : user_lock_key event user ≡ k =
            ground (arith, eq_iff (user_lock_key event user) k) in
          let free : sale.held k ≡ false = rw p at (reserve-free event user sale c) in ground arith
      | inr q ↦ locked_same _ _ (same k q ∙ reserve-other event user k sale c q)
    ]

module _ (e : Env) (cfg : Config) (laws : IsRedis e.redis) (v x : String)
    (req : BookingRequest) where
  abbrev mine : Bool
  mine = is_user v x req.event_id req.user_id

  rolled_back :
      (sale : Sale) (response : Response) (w : World e.Store)
      → eqb response.status 202 ≡ false
      → (reserve req.event_id req.user_id sale).0 ≡ result_success
      → Shows e.redis w.redis (reserve req.event_id req.user_id sale).1
      → Once e v x sale
          (accepted_for mine response)
          (release_ticket e req.event_id req.user_id w).1.redis
  rolled_back sale response w h c shows =
      let (sale', shows', _, _, frees) = released e laws v req _ w shows in
      (
        sale',
        shows',
        rw h (
            none_counted mine _ _
              (rolled_back-locked req.event_id req.user_id v x sale sale' c frees)),
      )

  finished-Once :
      (sale : Sale) (outcome : Result (Unit {0}) × List Message) (w : World e.Store)
      → (reserve req.event_id req.user_id sale).0 ≡ result_success
      → Shows e.redis w.redis (reserve req.event_id req.user_id sale).1
      → let (response, w') = finished e cfg req outcome w in
        Once e v x sale (accepted_for mine response) w'.redis
  unfolding finished
  finished-Once sale (ok _, log) w c shows =
      let kept = reserve-locked v x req.event_id req.user_id sale in
      (_, shows, all_of mine _ _ (rw c at kept.0))
  finished-Once sale (err m, log) w c shows = rolled_back sale unpublished _ refl c shows

  published-Once :
      (sale : Sale) (m : Result String) (d : Delivery) (w : World e.Store)
      → (reserve req.event_id req.user_id sale).0 ≡ result_success
      → Shows e.redis w.redis (reserve req.event_id req.user_id sale).1
      → let (response, w') = published e cfg req m d w in
        Once e v x sale (accepted_for mine response) w'.redis
  unfolding published
  published-Once sale (ok value) d w c shows = finished-Once sale _ w c shows
  published-Once sale (err m) d w c shows =
      rolled_back sale (failure 500 "internal_error" "Failed to process booking") _ refl c shows

  -- A response that accepts nothing, with no lock ended.
  pub refused-Once :
      (sale sale' : Sale) (response : Response) (s : e.Store)
      → eqb response.status 202 ≡ false
      → Shows e.redis s sale'
      → locked sale v x ≤ locked sale' v x
      → Once e v x sale (accepted_for mine response) s
  refused-Once sale sale' response s h shows le = (sale', shows, rw h (none_counted mine _ _ le))

  pub acquired-Once :
      (sale : Sale) (reply : Result ℤ) (w : World e.Store)
      → Answered e sale (reserve req.event_id req.user_id sale) reply w.redis
      → let (response, w') = acquired e cfg reply req w in
        Once e v x sale (accepted_for mine response) w'.redis
  acquired-Once sale reply w (inl (a, shows)) = elim (reserve-cases req.event_id req.user_id sale) [
    | inl c ↦
        rw (a, c)
          (rw (publish_order_lem e cfg req _ _ w refl refl) (published-Once sale _ _ w c shows))
    | inr (inl (c, same)) ↦
        rw (a, c)
          (refused-Once sale sale (conflict "sold_out" "Sorry, all tickets have been sold out!")
            w.redis refl (rw same at shows) (omega arith))
    | inr (inr (c, same)) ↦
        rw (a, c)
          (refused-Once sale sale
            (conflict "duplicate" "You already have a pending booking for this event.") w.redis refl
            (rw same at shows) (omega arith))
  ]
  acquired-Once sale reply w (inr (inl (a, c, shows))) = rw a (
      refused-Once sale _
        (conflict "duplicate" "You already have a pending booking for this event.") w.redis refl
        shows (reserve-locked v x req.event_id req.user_id sale).1)
  acquired-Once sale reply w (inr (inr (m, a, inl shows))) =
      rw a (refused-Once sale sale unavailable _ refl shows (omega arith))
  acquired-Once sale reply w (inr (inr (m, a, inr shows))) = rw a (
      refused-Once sale _ unavailable _ refl shows
        (reserve-locked v x req.event_id req.user_id sale).1)
