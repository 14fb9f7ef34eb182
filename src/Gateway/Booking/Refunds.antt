-- ===== src/Gateway/Booking/Refunds.antt =====
-- services/api-gateway/redis/gatekeeper.go, ReleaseTicket: what comes back when the pipeline is sent once or
-- several times.
use ticketer.Base.{
  suc, ◌∙◌, ℕ, String, Bool, true, false, refl, ◌==◌, ℤ, pos, ◌+ℤ◌, ◌≤ℤ◌, int_laws, if◌then◌else◌,
}
use ticketer.Shared.Models.{BookingRequest}
use ticketer.Platform.Redis.{IsRedis}
use ticketer.Platform.Env.{Env, Delivery, delivered, refused, reply_lost, resent, resends}
use ticketer.Platform.Action.{World, exchange}
use ticketer.Gateway.Gatekeeper.{release_ticket, release_commands}
use ticketer.Gateway.Gatekeeper.Reserve.{Sale, Shows}
use ticketer.Gateway.Gatekeeper.Stored.{at_most, Frees, release_commands-Shows}

one_le :
    (b : Bool) (m k : ℤ)
    → m ≤ℤ pos (if b then 1 else 0) +ℤ k
    → m ≤ℤ pos 0 +ℤ (pos (if b then 1 else 0) +ℤ k)
one_le b m k h = omega int_laws

twice_le :
    (b : Bool) (r : ℕ) (n m k : ℤ)
    → m ≤ℤ pos (if b then 1 else 0) +ℤ k
    → n ≤ℤ pos r +ℤ (pos (if b then 1 else 0) +ℤ m)
    → n ≤ℤ pos (suc r) +ℤ (pos (if b then 1 else 0) +ℤ k)
twice_le true r n m k h j = omega int_laws
twice_le false r n m k h j = omega int_laws

module _ (e : Env) (laws : IsRedis e.redis) (v : String) (req : BookingRequest) where
  -- At most one ticket has come back, and one for each repetition.
  abbrev pub Returned : Sale → ℕ → e.Store → Type 0
  Returned sale r s =
      (sale' : Sale) × Shows e.redis s sale'
      × (sale'.left v ≤ℤ pos r +ℤ (pos (if req.event_id == v then 1 else 0) +ℤ sale.left v))
      × (pos 0 ≤ℤ sale.left v → pos 0 ≤ℤ sale'.left v)
      × Frees req.event_id req.user_id sale sale'

  run_once :
      (sale : Sale) (s : e.Store)
      → Shows e.redis s sale
      → Returned sale 0 (release_commands e.redis req.event_id req.user_id s).1
  run_once sale s shows =
      let (sale', shows', back, frees) = release_commands-Shows e.redis laws _ _ s sale shows in
      (sale', shows', one_le (req.event_id == v) _ _ (back v).0, (back v).1, frees)

  by_fate :
      (d : Delivery) (sale : Sale) (s : e.Store)
      → Shows e.redis s sale
      → Returned sale
          (resends d)
          (exchange d (release_commands e.redis req.event_id req.user_id) s).1
  unfolding resends
  by_fate delivered sale s shows = run_once sale s shows
  by_fate (refused m) sale s shows = (
    sale,
    shows,
    one_le (req.event_id == v) _ _ (at_most (req.event_id == v) (sale.left v)),
    λ h. h,
    λ k h. refl,
  )
  by_fate (reply_lost m) sale s shows = run_once sale s shows
  by_fate (resent d) sale s shows =
      let (sale₁, shows₁, back₁, frees₁) = release_commands-Shows e.redis laws _ _ s sale shows in
      let (sale₂, shows₂, back₂, nonneg₂, frees₂) = by_fate d sale₁ _ shows₁ in
      (
        sale₂,
        shows₂,
        twice_le (req.event_id == v) (resends d) _ _ _ (back₁ v).0 back₂,
        λ h. nonneg₂ ((back₁ v).1 h),
        λ k h. frees₂ k h ∙ frees₁ k h,
      )

  -- A release, whatever its fate.
  pub released :
      (sale : Sale) (w : World e.Store)
      → Shows e.redis w.redis sale
      → Returned sale
          (resends (e.net w.calls))
          (release_ticket e req.event_id req.user_id w).1.redis
  unfolding release_ticket
  released sale w shows = by_fate (e.net w.calls) sale w.redis shows
