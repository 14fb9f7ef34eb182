-- ===== src/Gateway/Gatekeeper/Stored.antt =====
-- Stores that show a sale in which no count is below zero, and the writes that keep them so.
use ticketer.Base.{
  refl, true, Bool, ap, eq_iff, ◌^◌, String, false, some, ◌≡◌, arith, inl, inr, ◌==◌, ℤ, pos, ◌+ℤ◌,
  ◌≤ℤ◌, ltb_ℤ, int_laws, Result, if◌then◌else◌, Bool-cases,
}
use ticketer.Shared.Events.{inventory_key, user_lock_key}
use ticketer.Shared.Events.Keys.{inventory_key-eqb}
use ticketer.Platform.Redis.{Redis, IsRedis, int}
use ticketer.Platform.Env.{Env}
use ticketer.Gateway.Gatekeeper.{release_commands}
use ticketer.Gateway.Gatekeeper.Reserve.{
  Sale, reserve, Shows, counter-if, lock-ne-inventory, inventory-ne-lock,
}
use ticketer.Gateway.Gatekeeper.Acquire.{Answered}
use ticketer.Gateway.Gatekeeper.Release.{absent-if}
use ticketer.Gateway.Gatekeeper.Grants.{reserve-Takes}

-- The store shows a sale, and no event has fewer than no tickets left.
abbrev pub IsStored : (r : Redis) → r.Store → Type 0
IsStored r s = (sale : Sale) × Shows r s sale × ((v : String) → pos 0 ≤ℤ sale.left v)

-- A ticket may have come back to the event: no count has grown by more, nor sunk below zero.
abbrev pub Returns : String → Sale → Sale → Type 0
Returns event sale sale' =
    (v : String)
    → (sale'.left v ≤ℤ pos (if event == v then 1 else 0) +ℤ sale.left v)
      × (pos 0 ≤ℤ sale.left v → pos 0 ≤ℤ sale'.left v)

-- No other lock has ended.
abbrev pub Frees : String → String → Sale → Sale → Type 0
Frees event user sale sale' =
    (k : String) → (user_lock_key event user == k) ≡ false → sale'.held k ≡ sale.held k

one_more : (n : ℤ) → (n +ℤ pos 1 ≤ℤ pos 1 +ℤ n) × (pos 0 ≤ℤ n → pos 0 ≤ℤ n +ℤ pos 1)
one_more n = (omega int_laws, λ h. omega int_laws)

pub at_most : (b : Bool) (n : ℤ) → n ≤ℤ pos (if b then 1 else 0) +ℤ n
at_most true n = omega int_laws
at_most false n = omega int_laws

module _ (r : Redis) (laws : IsRedis r) where
  -- DEL of a lock
  del-Shows :
      (event user : String) (s : r.Store) (sale : Sale)
      → Shows r s sale
      → Shows r
          (r.del (user_lock_key event user) s)
          (record sale { held = λ k. if user_lock_key event user == k then false else sale.held k })
  del-Shows event user s sale shows = record {
    counters = λ v.
        rw
          (
            laws.get-del (user_lock_key event user) (inventory_key v) s,
            lock-ne-inventory v event user,
          )
          (shows.counters v);
    locks = λ v u.
        rw (laws.get-del (user_lock_key event user) (user_lock_key v u) s)
          (absent-if (user_lock_key event user == user_lock_key v u) _ _ (shows.locks v u));
  }

  -- DEL of a lock, by a release, a compensation, or Redis itself at the end of the time to live.
  pub del-IsStored :
      (event user : String) (s : r.Store)
      → IsStored r s
      → IsStored r (r.del (user_lock_key event user) s)
  del-IsStored event user s (sale, shows, nonneg) = (_, del-Shows event user s sale shows, nonneg)

  -- A write of a count.
  counted-Shows :
      (event : String) (m : ℤ) (s s' : r.Store) (sale : Sale)
      → ((j : String) → r.get j s' ≡ (if inventory_key event == j then some (int m) else r.get j s))
      → Shows r s sale
      → Shows r s' (record sale { left = λ v. if event == v then m else sale.left v })
  counted-Shows event m s s' sale get shows = record {
    counters = λ v.
        rw (get (inventory_key v), inventory_key-eqb event v)
          (counter-if (event == v) m (r.get (inventory_key v) s) (sale.left v) (shows.counters v));
    locks = λ v u. rw (get (user_lock_key v u), inventory-ne-lock event v u) (shows.locks v u);
  }

  -- INCR of an inventory, also where it is refused.
  pub incr-Shows :
      (event : String) (s : r.Store) (sale : Sale)
      → Shows r s sale
      → (sale' : Sale) × Shows r (r.incr (inventory_key event) s).1 sale'
        × Returns event sale sale'
        × ((k : String) → sale'.held k ≡ sale.held k)
  incr-Shows event s sale shows =
      elim (Bool-cases (ltb_ℤ (sale.left event +ℤ pos 1) (pos (2 ^ 63)))) [
        | inl fits ↦ (
          _,
          counted-Shows event (sale.left event +ℤ pos 1) s _ sale
              (λ j.
                laws.get-incr (inventory_key event) j (sale.left event) s (shows.counters event)
                  (ground arith))
              shows,
          λ v. ground (
            arith,
            one_more (sale.left event),
            at_most (event == v) (sale.left v),
            eq_iff event v,
            (λ (q : event ≡ v). ap sale.left q),
          ),
          λ k. refl,
        )
        | inr full ↦
            rw
              (laws.incr_refused (inventory_key event) (sale.left event) s (shows.counters event)
                (ground arith))
              (sale, shows, λ v. (at_most (event == v) (sale.left v), λ h. h), λ k. refl)
      ]

  pub incr-IsStored :
      (event : String) (s : r.Store) → IsStored r s → IsStored r (r.incr (inventory_key event) s).1
  incr-IsStored event s (sale, shows, nonneg) =
      let (sale', shows', back, _) = incr-Shows event s sale shows in
      (sale', shows', λ v. (back v).1 (nonneg v))

  -- SET of an inventory
  pub set-IsStored :
      (event : String) (total : ℤ) (s : r.Store)
      → pos 0 ≤ℤ total
      → IsStored r s
      → IsStored r (r.set (inventory_key event) (int total) s)
  set-IsStored event total s h (sale, shows, nonneg) = (
    _,
    counted-Shows event total s _ sale (λ j. laws.get-set (inventory_key event) j (int total) s)
        shows,
    λ v. ground (arith, nonneg v),
  )

  pub release_commands-Shows :
      (event user : String) (s : r.Store) (sale : Sale)
      → Shows r s sale
      → (sale' : Sale) × Shows r (release_commands r event user s).1 sale'
        × Returns event sale sale'
        × Frees event user sale sale'
  unfolding release_commands
  release_commands-Shows event user s sale shows =
      let (sale', shows', back, same) = incr-Shows event s sale shows in
      (_, del-Shows event user _ sale' shows', back, λ k h. rw h (same k))

  pub release_commands-IsStored :
      (event user : String) (s : r.Store)
      → IsStored r s
      → IsStored r (release_commands r event user s).1
  unfolding release_commands
  release_commands-IsStored event user s k = del-IsStored event user _ (incr-IsStored event s k)

module _ (e : Env) (laws : IsRedis e.redis) where
  -- A reservation, whatever its answer.
  pub Answered-IsStored :
      (event user : String) (sale : Sale) (reply : Result ℤ) (s : e.Store)
      → ((v : String) → pos 0 ≤ℤ sale.left v)
      → Answered e sale (reserve event user sale) reply s
      → IsStored e.redis s
  Answered-IsStored event user sale reply s nonneg (inl (a, shows)) =
      (_, shows, λ v. (reserve-Takes v event user sale).1 (nonneg v))
  Answered-IsStored event user sale reply s nonneg (inr (inl (a, c, shows))) =
      (_, shows, λ v. (reserve-Takes v event user sale).1 (nonneg v))
  Answered-IsStored event user sale reply s nonneg (inr (inr (m, a, inl shows))) =
      (sale, shows, nonneg)
  Answered-IsStored event user sale reply s nonneg (inr (inr (m, a, inr shows))) =
      (_, shows, λ v. (reserve-Takes v event user sale).1 (nonneg v))
