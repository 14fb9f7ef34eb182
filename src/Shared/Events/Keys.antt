-- ===== src/Shared/Events/Keys.antt =====
-- The Redis keys of shared/events/events.go are told apart.
use Prim.Native.String.{◌++◌, count}
use text.Mathlib.TextLemmas.{append_cancel_left, append_inj, append_assoc}
use ticketer.Base.{
  String, ◌≡◌, sym, ap, ◌∙◌, ◌≢◌, inl, inr, arith, ◌==◌, eq_iff, eq_refl, Bool-cases, text_ne,
  initial-append, initial,
}
use ticketer.Shared.Events.{inventory_key, user_lock_key, inventory_key_prefix}

pub inventory_key-injective : (v w : String) → inventory_key v ≡ inventory_key w → v ≡ w
unfolding inventory_key
inventory_key-injective v w h = append_cancel_left inventory_key_prefix v w h

-- An inventory key is no lock key: they begin with different letters.
pub inventory_key-ne-user_lock_key : (v w u : String) → inventory_key v ≢ user_lock_key w u
unfolding inventory_key user_lock_key
inventory_key-ne-user_lock_key v w u h = absurd (
    omega (
      arith,
      ap initial h,
      initial-append "i" "nventory:" v,
      initial-append "l" "ock:" (w ++ (":" ++ u)),
      ap initial (append_assoc ("lock:" ++ w) ":" u ∙ append_assoc "lock:" w (":" ++ u)),
    ))

pub inventory_key-eqb : (v w : String) → (inventory_key v == inventory_key w) ≡ (v == w)
inventory_key-eqb v w = elim (Bool-cases (v == w)) [
  | inl e ↦ rw (e, (eq_iff v w).0 e, eq_refl)
  | inr ne ↦ rw ne (
      text_ne _ _ (λ (e : inventory_key v ≡ inventory_key w).
        cc (ne, (eq_iff v w).1 (inventory_key-injective v w e))))
]

-- Event identifiers of one length keep the keys of two pairs apart.
pub user_lock_key-injective :
    (v w u t : String)
    → count v ≡ count w
    → user_lock_key v u ≡ user_lock_key w t
    → (v ≡ w) × (u ≡ t)
unfolding user_lock_key
user_lock_key-injective v w u t n h =
    let p : v ++ (":" ++ u) ≡ w ++ (":" ++ t) =
      append_cancel_left "lock:" _ _ (sym (assoc v u) ∙ h ∙ assoc w t) in
    let q = append_inj p n in (q.0, append_cancel_left ":" u t q.1)
  where
    assoc : (x y : String) → (("lock:" ++ x) ++ ":") ++ y ≡ "lock:" ++ (x ++ (":" ++ y))
    assoc x y = append_assoc ("lock:" ++ x) ":" y ∙ append_assoc "lock:" x (":" ++ y)
