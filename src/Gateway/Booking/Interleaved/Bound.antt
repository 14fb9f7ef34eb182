-- ===== src/Gateway/Booking/Interleaved/Bound.antt =====
-- What the phases of any number of bookings, in any order, do to the tickets left.
use ticketer.Base.{
  ℕ, ◌+◌, String, ◌≡◌, arith, List, [], ◌∷◌, ◌++◌, ℤ, pos, ◌+ℤ◌, ◌<ℤ◌, ◌≤ℤ◌, int_laws,
}
use ticketer.Shared.Config.{Config}
use ticketer.Platform.Redis.{IsRedis}
use ticketer.Platform.Env.{Env, repeats}
use ticketer.Platform.Action.{World}
use ticketer.Gateway.Gatekeeper.{RunsScript}
use ticketer.Gateway.Gatekeeper.Reserve.{Sale, Shows}
use ticketer.Gateway.Gatekeeper.Acquire.{HoldsDigest}
use ticketer.Gateway.Booking.Within.{same_le}
use ticketer.Gateway.Booking.Interleaved.Phases.{holds, Bounded, advance-Bounded}
use ticketer.Gateway.Booking.Interleaved.{
  Phase, advance, Turn, arrives, advances, Turns, here, next,
}

-- The tickets that requests under way hold, and those that are sold.
unfoldable pub total : String → List Phase → ℕ
total v [] = 0
total v (p ∷ ps) = holds v p + total v ps

total-++ :
    (v : String) (before after : List Phase)
    → total v (before ++ after) ≡ total v before + total v after
unfolding total
total-++ v [] after = omega arith
total-++ v (p ∷ before) after = omega (arith, total-++ v before after)

none_held : (n p : ℕ) (k : ℤ) → pos (0 + n + p) +ℤ k ≤ℤ pos (n + p) +ℤ k
none_held n p k = omega int_laws

swapped :
    (a b c d p q : ℕ) (x y : ℤ)
    → pos (d + p) +ℤ x ≤ℤ pos (c + q) +ℤ y
    → pos (a + (d + b) + p) +ℤ x ≤ℤ pos (a + (c + b) + q) +ℤ y
swapped a b c d p q x y h = omega int_laws

chained :
    (a b c p q r : ℕ) (x y z : ℤ)
    → pos (b + p) +ℤ y ≤ℤ pos (a + q) +ℤ x
    → pos (c + q) +ℤ z ≤ℤ pos (b + r) +ℤ y
    → pos (c + p) +ℤ z ≤ℤ pos (a + r) +ℤ x
chained a b c p q r x y z h k = omega int_laws

module _ (e : Env) (cfg : Config) (laws : IsRedis e.redis) (v : String) (runs : RunsScript e.redis)
    (ttl : pos 0 <ℤ cfg.lock_ttl_seconds) where
  Turn-Bounded :
      {ps : List Phase} {w : World e.Store} {qs : List Phase} {u : World e.Store} (sale : Sale)
      → HoldsDigest e w
      → Shows e.redis w.redis sale
      → Turn e cfg ps w qs u
      → Bounded e v sale (total v ps) (total v qs) (repeats e w.calls) (repeats e u.calls) u.redis
        × HoldsDigest e u
  unfolding total
  Turn-Bounded {ps} {w} sale digest shows (arrives req) =
      ((sale, shows, none_held (total v ps) (repeats e w.calls) (sale.left v), λ h. h), digest)
  Turn-Bounded {w} sale digest shows (advances before after p at) =
      let ((sale', shows', le, nonneg), held) =
        advance-Bounded e cfg laws v runs ttl p sale w digest shows in
      (
        (
          sale',
          shows',
          rw (at, total-++ v before (p ∷ after), total-++ v before ((advance e cfg p w).0 ∷ after))
              (swapped (total v before) (total v after) _ _ _ _ _ _ le),
          nonneg,
        ),
        held,
      )

Turns-Bounded :
    (e : Env) (cfg : Config) (v : String) {ps : List Phase} {w : World e.Store} {qs : List Phase}
    {u : World e.Store} (sale : Sale)
    → IsRedis e.redis
    → RunsScript e.redis
    → pos 0 <ℤ cfg.lock_ttl_seconds
    → HoldsDigest e w
    → Shows e.redis w.redis sale
    → Turns e cfg ps w qs u
    → Bounded e v sale (total v ps) (total v qs) (repeats e w.calls) (repeats e u.calls) u.redis
      × HoldsDigest e u
Turns-Bounded e cfg v {ps} {w} sale laws runs ttl digest shows here =
    ((sale, shows, same_le (pos (total v ps + repeats e w.calls) +ℤ sale.left v), λ h. h), digest)
Turns-Bounded e cfg v sale laws runs ttl digest shows (next before turn) =
    let ((sale₁, shows₁, le₁, nonneg₁), held₁) =
      Turns-Bounded e cfg v sale laws runs ttl digest shows before in
    let ((sale₂, shows₂, le₂, nonneg₂), held₂) =
      Turn-Bounded e cfg laws v runs ttl sale₁ held₁ shows₁ turn in
    ((sale₂, shows₂, chained _ _ _ _ _ _ _ _ _ le₁ le₂, λ h. nonneg₂ (nonneg₁ h)), held₂)

without_zero : (q : ℕ) (m k : ℤ) → m ≤ℤ pos (0 + q) +ℤ k → m ≤ℤ pos q +ℤ k
without_zero q m k h = omega int_laws

-- How far concurrent bookings can oversell. Let Redis keep its documented laws and run the
-- gatekeeper's text as its translation does, and let the lock's time to live be positive, the
-- gateway hold the script's digest and the store show a sale. From no request on, let requests
-- arrive and their reservations, writes and rollbacks be carried out in any order, over any
-- network. Then the store shows a sale in which the tickets still left for an event, with those
-- that requests under way hold and those of the bookings answered by 202, are at most those left
-- before and one for each time that a client library repeated a call which had been carried out;
-- without such repetitions nothing is oversold. A count of tickets that was not negative has not
-- become so.
pub Turns-total :
    (e : Env) (cfg : Config) (v : String) (sale : Sale) {w : World e.Store} {ps : List Phase}
    {u : World e.Store}
    → IsRedis e.redis
    → RunsScript e.redis
    → pos 0 <ℤ cfg.lock_ttl_seconds
    → HoldsDigest e w
    → Shows e.redis w.redis sale
    → Turns e cfg [] w ps u
    → (sale' : Sale) × Shows e.redis u.redis sale'
      × (pos (total v ps + repeats e w.calls) +ℤ sale'.left v
          ≤ℤ pos (repeats e u.calls) +ℤ sale.left v)
      × (pos 0 ≤ℤ sale.left v → pos 0 ≤ℤ sale'.left v)
unfolding total
Turns-total e cfg v sale laws runs ttl digest shows turns =
    let ((sale', shows', le, nonneg), _) =
      Turns-Bounded e cfg v sale laws runs ttl digest shows turns in
    (sale', shows', without_zero _ _ _ le, nonneg)
