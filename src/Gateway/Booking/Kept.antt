-- ===== src/Gateway/Booking/Kept.antt =====
-- What a booking keeps on every branch: the digest of the script, and the status of a refused request.
use ticketer.Base.{
  List, String, false, ◌≡◌, refl, inl, inr, arith, eqb, ℤ, Result, ok, err, Bool-cases, some, eqb_ℤ,
}
use ticketer.Shared.Models.{BookingRequest}
use ticketer.Shared.Config.{Config}
use ticketer.Platform.Env.{Env, Delivery}
use ticketer.Platform.Action.{World, Message}
use ticketer.Gateway.Http.{Response}
use ticketer.Gateway.Gatekeeper.{result_sold_out, result_duplicate, release_ticket}
use ticketer.Gateway.Booking.{validate, acquired}
use ticketer.Gateway.Booking.Outcomes.{published, finished, publish_order_lem}

module _ (e : Env) (cfg : Config) (req : BookingRequest) where
  finished-digest :
      (outcome : Result (Unit {0}) × List Message) (w : World e.Store)
      → (finished e cfg req outcome w).1.script_sha ≡ w.script_sha
  unfolding finished release_ticket
  finished-digest (ok _, log) w = refl
  finished-digest (err m, log) w = refl

  published-digest :
      (m : Result String) (d : Delivery) (w : World e.Store)
      → (published e cfg req m d w).1.script_sha ≡ w.script_sha
  unfolding published release_ticket
  published-digest (ok value) d w = finished-digest _ w
  published-digest (err m) d w = refl

  pub acquired-digest :
      (reply : Result ℤ) (w : World e.Store)
      → (acquired e cfg reply req w).1.script_sha ≡ w.script_sha
  acquired-digest (err m) w = refl
  acquired-digest (ok code) w = elim (Bool-cases (eqb_ℤ code result_sold_out)) [
    | inl b ↦ rw b refl
    | inr b ↦ elim (Bool-cases (eqb_ℤ code result_duplicate)) [
      | inl d ↦ rw (b, d) refl
      | inr d ↦
          rw (b, d) (rw (publish_order_lem e cfg req _ _ w refl refl) (published-digest _ _ w))
    ]
  ]

  pub refusal : (r : Response) → validate e req ≡ some r → eqb r.status 202 ≡ false
  unfolding validate
  refusal r h = ground arith
