-- ===== src/Gateway/Gatekeeper/Online.antt =====
-- TryAcquireTicket with every call carried out, with and without the script in Redis's cache.
use ticketer.Base.{
  suc, ap, Option-cases, String, none, some, ◌≡◌, refl, ◌∙◌, inl, inr, ℤ, pos, ◌<ℤ◌, ok,
}
use ticketer.Shared.Events.{inventory_key, user_lock_key}
use ticketer.Platform.Redis.{IsRedis}
use ticketer.Platform.Env.{Env, delivered, IsOnline}
use ticketer.Platform.Action.{World}
use ticketer.Gateway.Gatekeeper.{gatekeeper_source, RunsScript, eval_script, try_acquire_ticket}
use ticketer.Gateway.Gatekeeper.Reserve.{Sale, reserve, Shows, script-reserve}
use ticketer.Gateway.Gatekeeper.Acquire.{HoldsDigest, known, Shows-load}

module _ (e : Env) (laws : IsRedis e.redis) (runs : RunsScript e.redis) (event user : String)
    (ttl : ℤ) (t : pos 0 <ℤ ttl) (sale : Sale) where
  abbrev goal : ℤ × Sale
  goal = reserve event user sale

  -- An EVALSHA that is carried out and answered, with the script in the cache.
  eval_script-cached :
      (w : World e.Store)
      → e.net w.calls ≡ delivered
      → e.cached w.script_sha w.redis ≡ some gatekeeper_source
      → Shows e.redis w.redis sale
      → let (reply, w') = eval_script e (inventory_key event) (user_lock_key event user) ttl w in
        (reply ≡ ok goal.0) × Shows e.redis w'.redis goal.1
  eval_script-cached w net cached shows =
      rw
        (
          net,
          laws.eval_sha_lem w.script_sha (inventory_key event) (user_lock_key event user) ttl
              w.redis,
          cached,
          runs,
        )
        (script-reserve e.redis laws event user ttl w.redis sale shows t)

  module _ (online : IsOnline e) (w : World e.Store) (d : HoldsDigest e w)
      (s : Shows e.redis w.redis sale) where
    -- The world once the reload is done.
    abbrev loaded_world : World e.Store
    loaded_world = record w {
      calls = suc (suc w.calls);
      script_sha = e.sha gatekeeper_source;
      redis = e.script_load gatekeeper_source w.redis;
    }

    -- The second EVALSHA finds the script that the reload has put into the cache.
    reloaded :
        e.cached w.script_sha w.redis ≡ none
        → let (reply, w') = try_acquire_ticket e event user ttl w in
          (reply ≡ ok goal.0) × Shows e.redis w'.redis goal.1
    unfolding try_acquire_ticket
    reloaded c =
        let next =
          eval_script-cached loaded_world (online _) (laws.cached-load gatekeeper_source w.redis)
            (Shows-load e laws sale w.redis s) in
        rw
          (
            online w.calls,
            laws.eval_sha_lem w.script_sha (inventory_key event) (user_lock_key event user) ttl
                w.redis,
            c,
          )
          (rw (online (suc w.calls)) (rw next.0 (refl, next.1)))

    direct :
        e.cached w.script_sha w.redis ≡ some gatekeeper_source
        → let (reply, w') = try_acquire_ticket e event user ttl w in
          (reply ≡ ok goal.0) × Shows e.redis w'.redis goal.1
    unfolding try_acquire_ticket
    direct c = let next = eval_script-cached w (online _) c s in rw next.0 (refl, next.1)

    either :
        let (reply, w') = try_acquire_ticket e event user ttl w in
        (reply ≡ ok goal.0) × Shows e.redis w'.redis goal.1
    either = elim (Option-cases (e.cached w.script_sha w.redis)) [
      | inl c ↦ reloaded c
      | inr (u, c) ↦ direct (c ∙ ap some (known e laws w.script_sha w.redis d u c))
    ]

-- Let Redis keep its laws and run the gatekeeper's text, every call be carried out, the time to
-- live be positive, the digest be held and the store show a sale. Then the answer is the code of
-- the reservation, and the store shows the sale after it, whether or not the script was in Redis's
-- cache.
pub try_acquire_ticket-online :
    (e : Env) (event user : String) (ttl : ℤ) (sale : Sale) (w : World e.Store)
    → IsRedis e.redis
    → RunsScript e.redis
    → IsOnline e
    → pos 0 <ℤ ttl
    → HoldsDigest e w
    → Shows e.redis w.redis sale
    → let (reply, w') = try_acquire_ticket e event user ttl w in
      (reply ≡ ok (reserve event user sale).0) × Shows e.redis w'.redis (reserve event user sale).1
try_acquire_ticket-online e event user ttl sale w laws runs online t =
    either e laws runs event user ttl t sale online w
