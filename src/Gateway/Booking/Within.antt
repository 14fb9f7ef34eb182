-- ===== src/Gateway/Booking/Within.antt =====
-- What one booking does to the tickets left, its rollback included, over any network.
use ticketer.Base.{
  suc, ◌≤◌, ◌+◌, List, ℕ, String, Bool, true, false, ◌&&◌, ◌≡◌, refl, inl, inr, arith, ◌==◌, eqb, ℤ,
  pos, ◌+ℤ◌, ◌≤ℤ◌, int_laws, Result, ok, err, if◌then◌else◌,
}
use ticketer.Shared.Models.{BookingRequest}
use ticketer.Shared.Config.{Config}
use ticketer.Platform.Redis.{IsRedis}
use ticketer.Platform.Env.{Env, Delivery, resends, repeats}
use ticketer.Platform.Action.{World, Message}
use ticketer.Gateway.Http.{Response, failure}
use ticketer.Gateway.Gatekeeper.{result_success, release_ticket}
use ticketer.Gateway.Gatekeeper.Reserve.{Sale, reserve, Shows}
use ticketer.Gateway.Gatekeeper.Frame.{one_more}
use ticketer.Gateway.Gatekeeper.Acquire.{Answered}
use ticketer.Gateway.Gatekeeper.Grants.{granted, reserve-Takes}
use ticketer.Gateway.Booking.{unavailable, unpublished, acquired}
use ticketer.Gateway.Booking.{conflict}
use ticketer.Gateway.Booking.Refunds.{released}
use ticketer.Gateway.Booking.Accepted.{reserve-cases}
use ticketer.Gateway.Booking.Outcomes.{published, finished, publish_order_lem}

-- One for a booking that is selected and accepted.
abbrev pub accepted_for : Bool → Response → ℕ
accepted_for b response = if b && eqb response.status 202 then 1 else 0

-- A store that shows a sale in which the tickets left for the event v, with n sold, are at most those
-- left before and the calls that were repeated meanwhile; p and q count the repeated calls.
abbrev pub Within : (e : Env) → String → Sale → ℕ → ℕ → ℕ → e.Store → Type 0
Within e v sale n p q s =
    (sale' : Sale) × Shows e.redis s sale'
    × (pos (n + p) +ℤ sale'.left v ≤ℤ pos q +ℤ sale.left v)
    × (pos 0 ≤ℤ sale.left v → pos 0 ≤ℤ sale'.left v)

all_of :
    (b : Bool) (m k : ℤ)
    → pos (granted b (ok result_success)) +ℤ m ≤ℤ k
    → pos (if b then 1 else 0) +ℤ m ≤ℤ k
all_of true m k h = h
all_of false m k h = h

counted :
    (b : Bool) (p q : ℕ) (m k : ℤ)
    → pos (if b then 1 else 0) +ℤ m ≤ℤ k
    → p ≤ q
    → pos ((if b && true then 1 else 0) + p) +ℤ m ≤ℤ pos q +ℤ k
counted true p q m k h l = omega int_laws
counted false p q m k h l = omega int_laws

uncounted :
    (b : Bool) (r p q : ℕ) (n m k : ℤ)
    → n ≤ℤ pos r +ℤ (pos (if b then 1 else 0) +ℤ m)
    → pos (if b then 1 else 0) +ℤ m ≤ℤ k
    → p + r ≤ q
    → pos ((if b && false then 1 else 0) + p) +ℤ n ≤ℤ pos q +ℤ k
uncounted true r p q n m k h j l = omega int_laws
uncounted false r p q n m k h j l = omega int_laws

none_counted :
    (b : Bool) (p q : ℕ) (m k : ℤ)
    → m ≤ℤ k
    → p ≤ q
    → pos ((if b && false then 1 else 0) + p) +ℤ m ≤ℤ pos q +ℤ k
none_counted true p q m k h l = omega int_laws
none_counted false p q m k h l = omega int_laws

earlier :
    (n p p' q : ℕ) (m k : ℤ)
    → p ≤ p'
    → pos (n + p') +ℤ m ≤ℤ pos q +ℤ k
    → pos (n + p) +ℤ m ≤ℤ pos q +ℤ k
earlier n p p' q m k l h = omega int_laws

pub fewer : (n : ℕ) (m k : ℤ) → pos n +ℤ m ≤ℤ k → m ≤ℤ k
fewer n m k h = omega int_laws

pub same_le : (n : ℤ) → n ≤ℤ n
same_le n = omega int_laws

module _ (e : Env) (cfg : Config) (laws : IsRedis e.redis) (v : String) (req : BookingRequest) where
  pub taken :
      (sale : Sale)
      → (reserve req.event_id req.user_id sale).0 ≡ result_success
      → let left = (reserve req.event_id req.user_id sale).1.left v in
        (pos (if req.event_id == v then 1 else 0) +ℤ left ≤ℤ sale.left v)
        × (pos 0 ≤ℤ sale.left v → pos 0 ≤ℤ left)
  taken sale c =
      let takes = reserve-Takes v req.event_id req.user_id sale in
      (all_of (req.event_id == v) _ _ (rw c at takes.0), takes.1)

  -- A reservation with a release behind it.
  rolled_back :
      (sale : Sale) (response : Response) (p : ℕ) (w : World e.Store)
      → eqb response.status 202 ≡ false
      → (reserve req.event_id req.user_id sale).0 ≡ result_success
      → Shows e.redis w.redis (reserve req.event_id req.user_id sale).1
      → p ≤ repeats e w.calls
      → Within e v sale
          (accepted_for (req.event_id == v) response)
          p
          (repeats e (suc w.calls))
          (release_ticket e req.event_id req.user_id w).1.redis
  unfolding repeats
  rolled_back sale response p w h c shows l =
      let (sale', shows', back, kept, _) = released e laws v req _ w shows in
      let (le, nonneg) = taken sale c in
      (
        sale',
        shows',
        rw h (
            uncounted (req.event_id == v) (resends (e.net w.calls)) p _ _ _ _ back le
              (omega arith)),
        λ k. kept (nonneg k),
      )

  finished-Within :
      (sale : Sale) (outcome : Result (Unit {0}) × List Message) (w : World e.Store)
      → (reserve req.event_id req.user_id sale).0 ≡ result_success
      → Shows e.redis w.redis (reserve req.event_id req.user_id sale).1
      → let (response, w') = finished e cfg req outcome w in
        Within e v sale
          (accepted_for (req.event_id == v) response)
          (repeats e w.calls)
          (repeats e w'.calls)
          w'.redis
  unfolding finished release_ticket
  finished-Within sale (ok _, log) w c shows =
      let (le, nonneg) = taken sale c in
      (_, shows, counted (req.event_id == v) _ _ _ _ le (one_more e w.calls), nonneg)
  finished-Within sale (err m, log) w c shows =
      let w' : World e.Store = record w {
        draws = suc (suc w.draws);
        calls = suc w.calls;
        log = log;
      } in
      rolled_back sale unpublished _ w' refl c shows (one_more e w.calls)

  published-Within :
      (sale : Sale) (m : Result String) (d : Delivery) (w : World e.Store)
      → (reserve req.event_id req.user_id sale).0 ≡ result_success
      → Shows e.redis w.redis (reserve req.event_id req.user_id sale).1
      → let (response, w') = published e cfg req m d w in
        Within e v sale
          (accepted_for (req.event_id == v) response)
          (repeats e w.calls)
          (repeats e w'.calls)
          w'.redis
  unfolding published release_ticket
  published-Within sale (ok value) d w c shows = finished-Within sale _ w c shows
  published-Within sale (err m) d w c shows =
      let w' : World e.Store = record w { draws = suc (suc w.draws) } in
      rolled_back sale (failure 500 "internal_error" "Failed to process booking") _ w' refl c shows
        (omega arith)

  -- A response that accepts nothing, in front of a sale that has not grown.
  refused-Within :
      (sale sale' : Sale) (response : Response) (p q : ℕ) (s : e.Store)
      → eqb response.status 202 ≡ false
      → Shows e.redis s sale'
      → (sale'.left v ≤ℤ sale.left v) × (pos 0 ≤ℤ sale.left v → pos 0 ≤ℤ sale'.left v)
      → p ≤ q
      → Within e v sale (accepted_for (req.event_id == v) response) p q s
  refused-Within sale sale' response p q s h shows le l =
      (sale', shows, rw h (none_counted (req.event_id == v) p q _ _ le.0 l), le.1)

  -- The same for a sale that is as it was.
  pub unchanged-Within :
      (sale : Sale) (response : Response) (p q : ℕ) (s : e.Store)
      → eqb response.status 202 ≡ false
      → Shows e.redis s sale
      → p ≤ q
      → Within e v sale (accepted_for (req.event_id == v) response) p q s
  unchanged-Within sale response p q s h shows l =
      refused-Within sale sale response p q s h shows (same_le (sale.left v), λ k. k) l

  -- The same for a sale from which a ticket was taken that no response accepts.
  reserved-Within :
      (sale : Sale) (response : Response) (p q : ℕ) (s : e.Store)
      → eqb response.status 202 ≡ false
      → Shows e.redis s (reserve req.event_id req.user_id sale).1
      → p ≤ q
      → Within e v sale (accepted_for (req.event_id == v) response) p q s
  reserved-Within sale response p q s h shows l =
      let takes = reserve-Takes v req.event_id req.user_id sale in
      refused-Within sale _ response p q s h shows (fewer _ _ _ takes.0, takes.1) l

  pub acquired-Within :
      (sale : Sale) (reply : Result ℤ) (p : ℕ) (w : World e.Store)
      → Answered e sale (reserve req.event_id req.user_id sale) reply w.redis
      → p ≤ repeats e w.calls
      → let (response, w') = acquired e cfg reply req w in
        Within e v sale (accepted_for (req.event_id == v) response) p (repeats e w'.calls) w'.redis
  acquired-Within sale reply p w (inl (a, shows)) l =
      elim (reserve-cases req.event_id req.user_id sale) [
        | inl c ↦
            rw (a, c)
              (rw (publish_order_lem e cfg req _ _ w refl refl) (
                let (sale', shows', le, nonneg) = published-Within sale _ _ w c shows in
                (sale', shows', earlier _ p (repeats e w.calls) _ _ _ l le, nonneg)))
        | inr (inl (c, same)) ↦
            rw (a, c)
              (unchanged-Within sale (conflict "sold_out" "Sorry, all tickets have been sold out!")
                p _ w.redis refl (rw same at shows) l)
        | inr (inr (c, same)) ↦
            rw (a, c)
              (unchanged-Within sale
                (conflict "duplicate" "You already have a pending booking for this event.") p _
                w.redis refl (rw same at shows) l)
      ]
  acquired-Within sale reply p w (inr (inl (a, c, shows))) l = rw a (
      reserved-Within sale
        (conflict "duplicate" "You already have a pending booking for this event.") p _ w.redis refl
        shows l)
  acquired-Within sale reply p w (inr (inr (m, a, inl shows))) l =
      rw a (unchanged-Within sale unavailable p _ _ refl shows l)
  acquired-Within sale reply p w (inr (inr (m, a, inr shows))) l =
      rw a (reserved-Within sale unavailable p _ _ refl shows l)
