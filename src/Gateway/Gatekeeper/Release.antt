-- ===== src/Gateway/Gatekeeper/Release.antt =====
-- ReleaseTicket undoes a reservation.
use ticketer.Base.{
  ◌^◌, String, Bool, true, false, Option, none, some, ◌≡◌, refl, arith, ◌==◌, ℤ, pos, ◌+ℤ◌, ◌-ℤ◌,
  ◌<ℤ◌, int_laws, ok, if◌then◌else◌, eq_iff, eq_refl, ap,
}
use ticketer.Shared.Events.{inventory_key, user_lock_key}
use ticketer.Shared.Events.Keys.{inventory_key-eqb}
use ticketer.Platform.Redis.{Redis, IsRedis, Value, int}
use ticketer.Gateway.Gatekeeper.{release_commands, result_success}
use ticketer.Gateway.Gatekeeper.Reserve.{
  Sale, reserve, Shows, is_present, counter-if, lock-ne-inventory, inventory-ne-lock,
}

-- A ticket goes back to the event, and the user's lock is gone.
unfoldable pub release : String → String → Sale → Sale
release event user sale = record {
  left = λ v. if event == v then sale.left event +ℤ pos 1 else sale.left v;
  held = λ k. if user_lock_key event user == k then false else sale.held k;
}

pub absent-if :
    (b : Bool) (o : Option Value) (h : Bool)
    → is_present o ≡ h
    → is_present (if b then none else o) ≡ (if b then false else h)
absent-if true o h p = refl
absent-if false o h p = p

-- A store that shows a sale shows any sale that agrees with it.
pub Shows-agree :
    (r : Redis) (s : r.Store) (a b : Sale)
    → ((v : String) → a.left v ≡ b.left v)
    → ((k : String) → a.held k ≡ b.held k)
    → Shows r s a
    → Shows r s b
Shows-agree r s a b l h shows = record {
  counters = λ v. rw (← l v) (shows.counters v);
  locks = λ v u. rw (← h (user_lock_key v u)) (shows.locks v u);
}

module _ (r : Redis) (laws : IsRedis r) (event user : String) (s : r.Store) (sale : Sale)
    (shows : Shows r s sale) (fits : sale.left event +ℤ pos 1 <ℤ pos (2 ^ 63)) where
  abbrev incremented : r.Store
  incremented = (r.incr (inventory_key event) s).1

  pub get-release :
      (j : String)
      → r.get j (r.del (user_lock_key event user) incremented) ≡ (
          if user_lock_key event user == j
          then none
          else if inventory_key event == j
          then some (int (sale.left event +ℤ pos 1))
          else r.get j s)
  get-release j = rw (
    laws.get-del (user_lock_key event user) j incremented,
    laws.get-incr (inventory_key event) j (sale.left event) s (shows.counters event) fits,
  )

  -- In a Redis that keeps its laws, on a store that shows a sale in which one ticket more fits into
  -- 64 bits, the two commands of a release succeed and leave a store that shows the sale with the
  -- ticket given back and the lock gone.
  pub release_commands-release :
      let (reply, s') = release_commands r event user s in
      (reply ≡ ok tt) × Shows r s' (release event user sale)
  unfolding release_commands release
  release_commands-release = (
    laws.incr_ok (inventory_key event) (sale.left event) s (shows.counters event) fits,
    record {
      counters = λ v.
          rw
            (
              get-release (inventory_key v),
              lock-ne-inventory v event user,
              inventory_key-eqb event v,
            )
            (counter-if (event == v) _ (r.get (inventory_key v) s) (sale.left v)
              (shows.counters v));
      locks = λ v u.
          rw (get-release (user_lock_key v u), inventory-ne-lock event v u)
            (absent-if (user_lock_key event user == user_lock_key v u) _ _ (shows.locks v u));
    },
  )

sub_add_one : (a : ℤ) → a -ℤ pos 1 +ℤ pos 1 ≡ a
sub_add_one a = omega int_laws

-- A release after a successful reservation gives the sale from before it.
pub release-reserve :
    (event user : String) (sale : Sale)
    → (reserve event user sale).0 ≡ result_success
    → let after = release event user (reserve event user sale).1 in
      ((v : String) → after.left v ≡ sale.left v) × ((k : String) → after.held k ≡ sale.held k)
unfolding reserve release
release-reserve event user sale h = (
  λ v. ground (
    arith,
    eq_iff event v,
    eq_refl event,
    sub_add_one (sale.left event),
    (λ (e : event ≡ v). ap sale.left e),
  ),
  λ k. ground (
    arith,
    eq_iff (user_lock_key event user) k,
    (λ (e : user_lock_key event user ≡ k). ap sale.held e),
  ),
)

pub left-reserve :
    (event user : String) (sale : Sale)
    → (reserve event user sale).0 ≡ result_success
    → (reserve event user sale).1.left event ≡ sale.left event -ℤ pos 1
unfolding reserve
left-reserve event user sale h = ground (arith, eq_refl event)

pub sub_add_lt : (a b : ℤ) → a <ℤ b → a -ℤ pos 1 +ℤ pos 1 <ℤ b
sub_add_lt a b h = omega int_laws
