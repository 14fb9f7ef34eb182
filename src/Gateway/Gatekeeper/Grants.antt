-- ===== src/Gateway/Gatekeeper/Grants.antt =====
-- Runs of TryAcquireTicket for many users and events, over any network.
use ticketer.Base.{
  ℕ, ap, ◌+◌, ◌≤◌, String, Bool, ◌&&◌, ◌≡◌, arith, ◌==◌, eq_iff, eq_refl, ℤ, pos, ◌+ℤ◌, ◌-ℤ◌, ◌<ℤ◌,
  ◌≤ℤ◌, int_laws, eqb_ℤ, Result, ok, err, if◌then◌else◌,
}
use ticketer.Shared.Events.{user_lock_key}
use ticketer.Gateway.Gatekeeper.{result_success}
use ticketer.Gateway.Gatekeeper.Reserve.{Sale, reserve}

abbrev pub granted : Bool → Result ℤ → ℕ
granted b (err _) = 0
granted b (ok code) = if b && eqb_ℤ code result_success then 1 else 0

-- What one reservation does to the tickets left for an event.
abbrev pub Takes : String → String → String → Sale → ℤ × Sale → Type 0
Takes v event user sale (code, sale') =
    (pos (granted (event == v) (ok code)) +ℤ sale'.left v ≤ℤ sale.left v)
    × (pos 0 ≤ℤ sale.left v → pos 0 ≤ℤ sale'.left v)

take_le : (n : ℤ) → pos 1 +ℤ (n -ℤ pos 1) ≤ℤ n
take_le n = omega int_laws

pub zero_le : (n : ℤ) → pos 0 +ℤ n ≤ℤ n
zero_le n = omega int_laws

take_nonneg : (n : ℤ) → pos 0 <ℤ n → pos 0 ≤ℤ n -ℤ pos 1
take_nonneg n h = omega int_laws

pub reserve-Takes :
    (v event user : String) (sale : Sale) → Takes v event user sale (reserve event user sale)
unfolding reserve
reserve-Takes v event user sale = ground (
  arith,
  eq_iff event v,
  (λ (q : event ≡ v). ap sale.left q),
  take_le (sale.left event),
  zero_le (sale.left v),
  take_nonneg (sale.left event),
)

add_le : (a b : ℕ) (x y z : ℤ) → pos a +ℤ y ≤ℤ z → pos b +ℤ x ≤ℤ y → pos (a + b) +ℤ x ≤ℤ z
add_le a b x y z h k = omega int_laws

abbrev pub locked : Sale → String → String → ℕ
locked sale event user = if sale.held (user_lock_key event user) then 1 else 0

abbrev pub is_user : String → String → String → String → Bool
is_user v x event user = (event == v) && (user == x)

-- A user who gets a ticket held no lock and holds one from then on, and no reservation ends a lock.
pub reserve-locked :
    (v x event user : String) (sale : Sale)
    → let (code, sale') = reserve event user sale in
      (granted (is_user v x event user) (ok code) + locked sale v x ≤ locked sale' v x)
      × (locked sale v x ≤ locked sale' v x)
unfolding reserve
reserve-locked v x event user sale = ground (
  arith,
  eq_iff event v,
  eq_iff user x,
  eq_refl (user_lock_key v x),
  (λ (p : event ≡ v) (q : user ≡ x). ap user_lock_key p),
)

pub locked_le : (b : Bool) → (if b then 1 else 0) ≤ 1
locked_le b = ground arith
