-- ===== src/Gateway/Booking/Interleaved/Phases.antt =====
-- What one phase of a booking does to the tickets left.
use ticketer.Base.{
  eqb, arith, ◌+◌, ◌≤◌, ◌&&◌, ℕ, suc, String, Bool, true, false, ◌≡◌, refl, ◌∙◌, inl, inr, ◌==◌, ℤ,
  pos, ◌+ℤ◌, ◌<ℤ◌, ◌≤ℤ◌, int_laws, Result, ok, err, if◌then◌else◌, Option-cases,
}
use ticketer.Json.Event.{marshal_event}
use ticketer.Shared.Models.{BookingRequest}
use ticketer.Shared.Config.{Config}
use ticketer.Platform.Redis.{IsRedis}
use ticketer.Platform.Env.{Env, resends, repeats}
use ticketer.Platform.Action.{World}
use ticketer.Gateway.Gatekeeper.{RunsScript, try_acquire_ticket, release_ticket}
use ticketer.Gateway.Gatekeeper.Reserve.{Sale, reserve, Shows}
use ticketer.Gateway.Gatekeeper.Acquire.{HoldsDigest, Answered, try_acquire_ticket-Answered}
use ticketer.Gateway.Gatekeeper.Grants.{reserve-Takes}
use ticketer.Gateway.Http.{Response}
use ticketer.Gateway.Gatekeeper.Frame.{one_more, try_acquire_ticket-repeats}
use ticketer.Gateway.Booking.{pending_event, validate, conflict, unavailable}
use ticketer.Gateway.Booking.Accepted.{reserve-cases}
use ticketer.Gateway.Booking.Refunds.{released}
use ticketer.Gateway.Booking.Kept.{refusal}
use ticketer.Gateway.Booking.Within.{accepted_for, taken, fewer, same_le}
use ticketer.Gateway.Booking.Interleaved.{
  Fault, fault_response, unencoded, unwritten, Phase, asks, publishes, releases, answered,
  after_reply, after_write, ask, write, advance,
}

abbrev pub one_if : Bool → ℕ
one_if b = if b then 1 else 0

-- The tickets of the event v that a request holds: from its reservation to its rollback, or for good if
-- it is accepted.
abbrev pub holds : String → Phase → ℕ
holds v (asks req) = 0
holds v (publishes req) = one_if (req.event_id == v)
holds v (releases req fault) = one_if (req.event_id == v)
holds v (answered req response) = accepted_for (req.event_id == v) response

-- A store that shows a sale in which the tickets left or held are at most those from before and the
-- calls that were repeated meanwhile; p and q count the repeated calls.
abbrev pub Bounded : (e : Env) → String → Sale → ℕ → ℕ → ℕ → ℕ → e.Store → Type 0
Bounded e v sale n m p q s =
    (sale' : Sale) × Shows e.redis s sale'
    × (pos (m + p) +ℤ sale'.left v ≤ℤ pos (n + q) +ℤ sale.left v)
    × (pos 0 ≤ℤ sale.left v → pos 0 ≤ℤ sale'.left v)

with_some : (n p q : ℕ) (m k : ℤ) → pos n +ℤ m ≤ℤ k → p ≤ q → pos (n + p) +ℤ m ≤ℤ pos (0 + q) +ℤ k
with_some n p q m k h l = omega int_laws

quiet :
    (b : Bool) (p q : ℕ) (m k : ℤ)
    → m ≤ℤ k
    → p ≤ q
    → pos ((if b && false then 1 else 0) + p) +ℤ m ≤ℤ pos (0 + q) +ℤ k
quiet true p q m k h l = omega int_laws
quiet false p q m k h l = omega int_laws

as_before : (n p q : ℕ) (k : ℤ) → p ≤ q → pos (n + p) +ℤ k ≤ℤ pos (n + q) +ℤ k
as_before n p q k l = omega int_laws

accepted_le :
    (b : Bool) (p q : ℕ) (k : ℤ)
    → p ≤ q
    → pos ((if b && true then 1 else 0) + p) +ℤ k ≤ℤ pos (one_if b + q) +ℤ k
accepted_le true p q k l = omega int_laws
accepted_le false p q k l = omega int_laws

given_back :
    (b : Bool) (p r : ℕ) (m k : ℤ)
    → m ≤ℤ pos r +ℤ (pos (one_if b) +ℤ k)
    → pos ((if b && false then 1 else 0) + p) +ℤ m ≤ℤ pos (one_if b + (p + r)) +ℤ k
given_back true p r m k h = omega int_laws
given_back false p r m k h = omega int_laws

module _ (e : Env) (cfg : Config) (laws : IsRedis e.redis) (v : String) where
  -- A request that holds nothing, in front of a sale that is as it was.
  idle :
      (sale : Sale) (response : Response) (req : BookingRequest) (p q : ℕ) (s : e.Store)
      → eqb response.status 202 ≡ false
      → Shows e.redis s sale
      → p ≤ q
      → Bounded e v sale 0 (holds v (answered req response)) p q s
  idle sale response req p q s h shows l =
      (sale, shows, rw h (quiet (req.event_id == v) p q _ _ (same_le (sale.left v)) l), λ k. k)

  -- The same once a ticket was taken for a request that is not accepted.
  lost :
      (sale : Sale) (response : Response) (req : BookingRequest) (p q : ℕ) (s : e.Store)
      → eqb response.status 202 ≡ false
      → Shows e.redis s (reserve req.event_id req.user_id sale).1
      → p ≤ q
      → Bounded e v sale 0 (holds v (answered req response)) p q s
  lost sale response req p q s h shows l =
      let takes = reserve-Takes v req.event_id req.user_id sale in
      (_, shows, rw h (quiet (req.event_id == v) p q _ _ (fewer _ _ _ takes.0) l), takes.1)

  after_reply-Bounded :
      (req : BookingRequest) (sale : Sale) (reply : Result ℤ) (p q : ℕ) (s : e.Store)
      → Answered e sale (reserve req.event_id req.user_id sale) reply s
      → p ≤ q
      → Bounded e v sale 0 (holds v (after_reply e cfg reply req)) p q s
  after_reply-Bounded req sale reply p q s (inl (a, shows)) l =
      elim (reserve-cases req.event_id req.user_id sale) [
        | inl c ↦
            let (le, nonneg) = taken e cfg laws v req sale c in
            rw (a, c) (_, shows, with_some _ p q _ _ le l, nonneg)
        | inr (inl (c, same)) ↦
            rw (a, c)
              (idle sale (conflict "sold_out" "Sorry, all tickets have been sold out!") req p q s
                refl (rw same at shows) l)
        | inr (inr (c, same)) ↦
            rw (a, c)
              (idle sale (conflict "duplicate" "You already have a pending booking for this event.")
                req p q s refl (rw same at shows) l)
      ]
  after_reply-Bounded req sale reply p q s (inr (inl (a, c, shows))) l = rw a (
      lost sale (conflict "duplicate" "You already have a pending booking for this event.") req p q
        s refl shows l)
  after_reply-Bounded req sale reply p q s (inr (inr (m, a, inl shows))) l =
      rw a (idle sale unavailable req p q s refl shows l)
  after_reply-Bounded req sale reply p q s (inr (inr (m, a, inr shows))) l =
      rw a (lost sale unavailable req p q s refl shows l)

  written-Bounded :
      (req : BookingRequest) (sale : Sale) (outcome : Result (Unit {0})) (order_id : String)
      (p q : ℕ) (s : e.Store)
      → Shows e.redis s sale
      → p ≤ q
      → Bounded e v sale
          (one_if (req.event_id == v))
          (holds v (after_write e cfg outcome req order_id))
          p
          q
          s
  written-Bounded req sale (ok _) order_id p q s shows l =
      (sale, shows, accepted_le (req.event_id == v) p q _ l, λ h. h)
  written-Bounded req sale (err m) order_id p q s shows l =
      (sale, shows, as_before (one_if (req.event_id == v)) p q (sale.left v) l, λ h. h)

  write-Bounded :
      (req : BookingRequest) (sale : Sale) (m : Result String) (order_id : String)
      (w : World e.Store)
      → Shows e.redis w.redis sale
      → let (p, w') = write e cfg m req order_id w in
        Bounded e v sale
          (one_if (req.event_id == v))
          (holds v p)
          (repeats e w.calls)
          (repeats e w'.calls)
          w'.redis
        × (w'.script_sha ≡ w.script_sha)
  write-Bounded req sale (ok value) order_id w shows =
      (written-Bounded req sale _ order_id _ _ w.redis shows (one_more e w.calls), refl)
  write-Bounded req sale (err m) order_id w shows = (
    (sale, shows, as_before (one_if (req.event_id == v)) _ _ (sale.left v) (omega arith), λ h. h),
    refl,
  )

  released-Bounded :
      (req : BookingRequest) (sale : Sale) (fault : Fault) (w : World e.Store)
      → Shows e.redis w.redis sale
      → Bounded e v sale
          (one_if (req.event_id == v))
          (accepted_for (req.event_id == v) (fault_response fault))
          (repeats e w.calls)
          (repeats e (suc w.calls))
          (release_ticket e req.event_id req.user_id w).1.redis
  unfolding repeats
  released-Bounded req sale unencoded w shows =
      let (sale', shows', back, nonneg, _) = released e laws v req sale w shows in
      (sale', shows', given_back (req.event_id == v) _ (resends (e.net w.calls)) _ _ back, nonneg)
  released-Bounded req sale unwritten w shows =
      let (sale', shows', back, nonneg, _) = released e laws v req sale w shows in
      (sale', shows', given_back (req.event_id == v) _ (resends (e.net w.calls)) _ _ back, nonneg)

  module _ (runs : RunsScript e.redis) (ttl : pos 0 <ℤ cfg.lock_ttl_seconds) where
    pub advance-Bounded :
        (p : Phase) (sale : Sale) (w : World e.Store)
        → HoldsDigest e w
        → Shows e.redis w.redis sale
        → let (q, w') = advance e cfg p w in
          Bounded e v sale (holds v p) (holds v q) (repeats e w.calls) (repeats e w'.calls) w'.redis
          × HoldsDigest e w'
    unfolding advance release_ticket
    advance-Bounded (asks req) sale w digest shows = elim (Option-cases (validate e req)) [
      | inr (r, q) ↦
          rw (q, ask)
            (idle sale r req _ _ w.redis (refusal e cfg req r q) shows (omega arith), digest)
      | inl q ↦
          let next = try_acquire_ticket e req.event_id req.user_id cfg.lock_ttl_seconds w in
          let (answer, held) =
            try_acquire_ticket-Answered e laws runs req.event_id req.user_id cfg.lock_ttl_seconds
              ttl sale w digest shows in
          rw (q, ask)
            (
              after_reply-Bounded req sale next.0 _ _ next.1.redis answer
                  (try_acquire_ticket-repeats e req.event_id req.user_id cfg.lock_ttl_seconds w),
              held,
            )
    ]
    advance-Bounded (publishes req) sale w digest shows =
        let drawn : World e.Store = record w { draws = suc (suc w.draws) } in
        let m =
          marshal_event e.clock (pending_event req (e.uuid_new w.draws) (e.now (suc w.draws))) in
        let (bounded, same) = write-Bounded req sale m (e.uuid_new w.draws) drawn shows in
        (bounded, same ∙ digest)
    advance-Bounded (releases req fault) sale w digest shows =
        (released-Bounded req sale fault w shows, digest)
    advance-Bounded (answered req response) sale w digest shows = (
      (
        sale,
        shows,
        as_before (holds v (answered req response)) _ _ (sale.left v) (omega arith),
        λ h. h,
      ),
      digest,
    )
