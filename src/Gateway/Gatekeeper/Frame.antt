-- ===== src/Gateway/Gatekeeper/Frame.antt =====
-- A reservation touches Redis and the stored digest, and nothing else.
use ticketer.Base.{ℕ, suc, ◌≤◌, arith, String, refl, inl, inr, ◌==◌, ℤ, Result, ok, err, Bool-cases}
use ticketer.Shared.Events.{inventory_key, user_lock_key}
use ticketer.Platform.Redis.{noscript}
use ticketer.Platform.Env.{Env, repeats}
use ticketer.Platform.Action.{World, SameOutputs}
use ticketer.Gateway.Gatekeeper.{on_reply, eval_again, load_script, eval_script, try_acquire_ticket}

module _ (e : Env) (inventory lock : String) (ttl : ℤ) where
  eval_again-SameOutputs :
      (reply : Result String) (w : World e.Store)
      → SameOutputs w (eval_again e reply inventory lock ttl w).1
  eval_again-SameOutputs (ok sha) w = (refl, refl, refl, refl, refl, refl)
  eval_again-SameOutputs (err m) w = (refl, refl, refl, refl, refl, refl)

  on_reply-SameOutputs :
      (reply : Result ℤ) (w : World e.Store)
      → SameOutputs w (on_reply e reply inventory lock ttl w).1
  on_reply-SameOutputs (ok n) w = (refl, refl, refl, refl, refl, refl)
  on_reply-SameOutputs (err m) w = elim (Bool-cases (m == noscript)) [
    | inl h ↦ let (reply, w') = load_script e w in rw h (eval_again-SameOutputs reply w')
    | inr h ↦ rw h (refl, refl, refl, refl, refl, refl)
  ]

pub one_more : (e : Env) (n : ℕ) → repeats e n ≤ repeats e (suc n)
unfolding repeats
one_more e n = omega arith

module _ (e : Env) (inventory lock : String) (ttl : ℤ) where
  again-repeats :
      (reply : Result String) (w : World e.Store)
      → repeats e w.calls ≤ repeats e (eval_again e reply inventory lock ttl w).1.calls
  again-repeats (ok sha) w = one_more e w.calls
  again-repeats (err m) w = omega arith

  on_reply-repeats :
      (reply : Result ℤ) (w : World e.Store)
      → repeats e w.calls ≤ repeats e (on_reply e reply inventory lock ttl w).1.calls
  on_reply-repeats (ok n) w = omega arith
  on_reply-repeats (err m) w = elim (Bool-cases (m == noscript)) [
    | inl h ↦
        let (reply, w') = load_script e w in
        rw h (omega (arith, one_more e w.calls, again-repeats reply w'))
    | inr h ↦ rw h (omega arith)
  ]

-- A reservation takes no repeated call back.
pub try_acquire_ticket-repeats :
    (e : Env) (event user : String) (ttl : ℤ) (w : World e.Store)
    → repeats e w.calls ≤ repeats e (try_acquire_ticket e event user ttl w).1.calls
unfolding try_acquire_ticket
try_acquire_ticket-repeats e event user ttl w =
    let (reply, w') = eval_script e (inventory_key event) (user_lock_key event user) ttl w in
    omega (
      arith,
      one_more e w.calls,
      on_reply-repeats e (inventory_key event) (user_lock_key event user) ttl reply w',
    )

-- Over any network, a reservation draws nothing, publishes nothing, and leaves the log, the rows,
-- the waits and the metrics as they are.
pub try_acquire_ticket-SameOutputs :
    (e : Env) (event user : String) (ttl : ℤ) (w : World e.Store)
    → SameOutputs w (try_acquire_ticket e event user ttl w).1
unfolding try_acquire_ticket
try_acquire_ticket-SameOutputs e event user ttl w =
    let (reply, w') = eval_script e _ _ ttl w in on_reply-SameOutputs e _ _ ttl reply w'
