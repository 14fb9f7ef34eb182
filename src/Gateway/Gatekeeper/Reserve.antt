-- ===== src/Gateway/Gatekeeper/Reserve.antt =====
-- The abstract sale, and the proof that the Lua script carries out a reservation.
use ticketer.Base.{
  String, Bool, true, false, Option, none, some, ◌≡◌, refl, sym, ◌∙◌, inl, inr, arith, ◌==◌, ℤ, pos,
  ◌-ℤ◌, ◌<ℤ◌, ltb_ℤ, Result, ok, is_one, if◌then◌else◌, Bool-cases, text_ne,
}
use ticketer.Shared.Events.{inventory_key, user_lock_key}
use ticketer.Shared.Events.Keys.{inventory_key-ne-user_lock_key, inventory_key-eqb}
use ticketer.Platform.Redis.{Redis, IsRedis, Value, int, text, counter, present}
use ticketer.Gateway.Gatekeeper.{
  result_success, result_sold_out, result_duplicate, current_inventory, gatekeeper_script,
  take_ticket, lock_user,
}

-- What a sale is to the program: the tickets left for each event, and the lock keys that are held.
pub record Sale : Type 0 where
  pub left : String → ℤ
  pub held : String → Bool

-- A user gets a ticket if they hold no lock and a ticket is left.
unfoldable pub reserve : String → String → Sale → ℤ × Sale
reserve event user sale =
    if sale.held (user_lock_key event user)
    then (result_duplicate, sale)
    else if ltb_ℤ (pos 0) (sale.left event)
    then (
      result_success,
      record {
        left = λ v. if event == v then sale.left event -ℤ pos 1 else sale.left v;
        held = λ k. if user_lock_key event user == k then true else sale.held k;
      },
    )
    else (result_sold_out, sale)

abbrev pub is_present : Option Value → Bool
is_present none = false
is_present (some _) = true

-- The store shows the sale: its counters are integers, and its lock keys are those that are held.
pub record Shows (r : Redis) (s : r.Store) (sale : Sale) : Type 0 where
  pub counters : (event : String) → counter (r.get (inventory_key event) s) ≡ some (sale.left event)
  pub locks :
      (event user : String)
      → is_present (r.get (user_lock_key event user) s) ≡ sale.held (user_lock_key event user)

current :
    (r : Redis) (o : Option Value) (n : ℤ) → counter o ≡ some n → current_inventory r o ≡ some n
current r none n h = h
current r (some (int m)) n h = h
current r (some (text t)) n h = cc

present-test : (o : Option Value) → is_one (present o) ≡ is_present o
present-test none = refl
present-test (some v) = refl

pub counter-if :
    (b : Bool) (m : ℤ) (o : Option Value) (k : ℤ)
    → counter o ≡ some k
    → counter (if b then some (int m) else o) ≡ some (if b then m else k)
counter-if true m o k h = refl
counter-if false m o k h = h

present-if :
    (b : Bool) (o : Option Value) (h : Bool)
    → is_present o ≡ h
    → is_present (if b then some (text "locked") else o) ≡ (if b then true else h)
present-if true o h p = refl
present-if false o h p = p

-- A lock key is compared with an inventory key, and the other way round.
pub lock-ne-inventory : (v w u : String) → (user_lock_key w u == inventory_key v) ≡ false
lock-ne-inventory v w u = text_ne _ _ (λ h. inventory_key-ne-user_lock_key v w u (sym h))

pub inventory-ne-lock : (v w u : String) → (inventory_key v == user_lock_key w u) ≡ false
inventory-ne-lock v w u = text_ne _ _ (inventory_key-ne-user_lock_key v w u)

module _ (r : Redis) (laws : IsRedis r) where
  module _ (event user : String) (ttl : ℤ) (s : r.Store) (sale : Sale)
      (shows : Shows r s sale) where
    abbrev answer : Result ℤ × r.Store
    answer = gatekeeper_script r (inventory_key event) (user_lock_key event user) ttl s

    -- The script's first test, and the number that its second test reads.
    lock-test :
        is_one (r.exists (user_lock_key event user) s) ≡ sale.held (user_lock_key event user)
    lock-test =
        rw (laws.exists_lem (user_lock_key event user) s) (present-test _ ∙ shows.locks event user)

    inventory-test : current_inventory r (r.get (inventory_key event) s) ≡ some (sale.left event)
    inventory-test = current r _ _ (shows.counters event)

    script_duplicate :
        sale.held (user_lock_key event user) ≡ true → answer ≡ (ok result_duplicate, s)
    unfolding gatekeeper_script
    script_duplicate h = rw (lock-test, h)

    script_sold_out :
        sale.held (user_lock_key event user) ≡ false
        → ltb_ℤ (pos 0) (sale.left event) ≡ false
        → answer ≡ (ok result_sold_out, s)
    unfolding gatekeeper_script
    script_sold_out h n = rw (lock-test, h, inventory-test) (rw n)

    script_take :
        sale.held (user_lock_key event user) ≡ false
        → ltb_ℤ (pos 0) (sale.left event) ≡ true
        → answer ≡ take_ticket r (inventory_key event) (user_lock_key event user) ttl s
    unfolding gatekeeper_script
    script_take h n = rw (lock-test, h, inventory-test) (rw n)

    -- The store after the decrement, and after the lock as well.
    abbrev after_decr : r.Store
    after_decr = (r.decr (inventory_key event) s).1

    abbrev after_lock : r.Store
    after_lock = (r.setex (user_lock_key event user) ttl "locked" after_decr).1

    -- The sale in which the user has the ticket.
    abbrev sold : Sale
    sold = record {
      left = λ v. if event == v then sale.left event -ℤ pos 1 else sale.left v;
      held = λ k. if user_lock_key event user == k then true else sale.held k;
    }

    module _ (t : pos 0 <ℤ ttl) (n : pos 0 <ℤ sale.left event) where
      -- A ticket that is left is taken, and the user's lock is set.
      take_lem :
          take_ticket r (inventory_key event) (user_lock_key event user) ttl s
          ≡ (ok result_success, after_lock)
      take_lem =
          rw
            (
              laws.decr_ok (inventory_key event) (sale.left event) s (shows.counters event) n,
              take_ticket,
            )
            (rw (laws.setex_ok (user_lock_key event user) "locked" ttl after_decr t, lock_user))

      get-after_lock :
          (j : String)
          → r.get j after_lock ≡ (
              if user_lock_key event user == j
              then some (text "locked")
              else if inventory_key event == j
              then some (int (sale.left event -ℤ pos 1))
              else r.get j s)
      get-after_lock j = rw (
        laws.get-setex (user_lock_key event user) j "locked" ttl after_decr t,
        laws.get-decr (inventory_key event) j (sale.left event) s (shows.counters event) n,
      )

      after_lock-Shows : Shows r after_lock sold
      after_lock-Shows = record {
        counters = λ v.
            rw
              (
                get-after_lock (inventory_key v),
                lock-ne-inventory v event user,
                inventory_key-eqb event v,
              )
              (counter-if (event == v) _ (r.get (inventory_key v) s) (sale.left v)
                (shows.counters v));
        locks = λ v u.
            rw (get-after_lock (user_lock_key v u), inventory-ne-lock event v u)
              (present-if (user_lock_key event user == user_lock_key v u) _ _ (shows.locks v u));
      }

    -- In a Redis that keeps its laws, on a store that shows a sale and with a positive time to
    -- live, the gatekeeper's script answers with the code of the abstract reservation and leaves a
    -- store that shows the sale after it.
    pub script-reserve :
        pos 0 <ℤ ttl
        → (answer.0 ≡ ok (reserve event user sale).0) × Shows r answer.1 (reserve event user sale).1
    unfolding reserve
    script-reserve t = elim (Bool-cases (sale.held (user_lock_key event user))) [
      | inl h ↦ rw (h, script_duplicate h) (refl, shows)
      | inr h ↦ elim (Bool-cases (ltb_ℤ (pos 0) (sale.left event))) [
        | inl n ↦
            rw (h, n, script_take h n, take_lem t (ground arith))
              (refl, after_lock-Shows t (ground arith))
        | inr n ↦ rw (h, n, script_sold_out h n) (refl, shows)
      ]
    ]
