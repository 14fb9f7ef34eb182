-- ===== src/System/Steps.antt =====
-- The services at work on one Redis, one table and one log, interleaved in any order.
use ticketer.Json.Event.{unmarshal_event}
use ticketer.Base.{String, ok, or_zero, Option, pos, ◌<ℤ◌, ◌≤ℤ◌, some, Result, err}
use ticketer.Shared.Events.{OrderEvent, channel_order_failed, inventory_key, user_lock_key}
use ticketer.Shared.Models.{status_compensated}
use ticketer.Shared.Config.{Config}
use ticketer.Platform.Redis.{IsRedis}
use ticketer.Platform.Env.{Env}
use ticketer.Platform.Action.{World, send, publish}
use ticketer.Gateway.Gatekeeper.{RunsScript}
use ticketer.Gateway.Gatekeeper.Stored.{incr-IsStored, del-IsStored}
use ticketer.Gateway.Server.{Request, serve}
use ticketer.Worker.Payment.{Simulator}
use ticketer.Worker.Repository.{update_order_status}
use ticketer.Worker.Repository.Keyed.{update_order_status-IsKeyed}
use ticketer.Worker.Consumer.{process_message}
use ticketer.Worker.Consumer.Start.{process_message-Appended}
use ticketer.Worker.Consumer.Frame.{process_message-SameStore}
use ticketer.Worker.Dlq.{failed_message, compensated, process_compensation}
use ticketer.System.Sound.{IsSound, send-IsSound, serve-IsSound}

-- The gateway and the worker read their settings on their own.
module _ (e : Env) (gateway worker : Config) (sim : Simulator) where
  -- The gateway serves a request; the worker processes a message, or compensates one, with any value;
  -- or the time to live of a lock ends.
  pub data Step (w : World e.Store) : World e.Store → Type 0 where
    serves : (req : Request) → Step w (serve e gateway req w).1
    processes : (value : String) → Step w (process_message e worker sim value w).1
    compensates : (value : String) → Step w (process_compensation e value w).1
    expires :
        (event user : String)
        → Step w (record w { redis = e.del (user_lock_key event user) w.redis })

  pub data Reach (w : World e.Store) : World e.Store → Type 0 where
    here : Reach w w
    next : {v u : World e.Store} → Reach w v → Step v u → Reach w u

  module _ (laws : IsRedis e.redis) where
    abbrev returned : String → String → World e.Store → World e.Store
    returned event user w =
        let w₁ = (send e (e.incr (inventory_key event)) w).1 in
        (send e (λ s. (ok tt, e.del (user_lock_key event user) s)) w₁).1

    -- The two commands of a compensation, each with its own fate.
    returned-IsSound :
        (event user : String) (w : World e.Store) → IsSound e w → IsSound e (returned event user w)
    returned-IsSound event user w k =
        let k₁ =
          send-IsSound e (e.incr (inventory_key event)) w k (incr-IsStored e.redis laws event) in
        send-IsSound e _ _ k₁ (del-IsStored e.redis laws event user)

    compensated-IsSound :
        (v : Result OrderEvent) (w : World e.Store) → IsSound e w → IsSound e (compensated e v w).1
    unfolding update_order_status
    compensated-IsSound (err m) w k = k
    compensated-IsSound (ok v) w k =
        let reason : Option String = some "payment_failed_permanently" in
        let marked : World e.Store =
          (update_order_status e v.order_id status_compensated reason w).1 in
        let k₁ : IsSound e marked = record {
          digest = k.digest;
          stored = k.stored;
          keyed = update_order_status-IsKeyed e v.order_id status_compensated reason w k.keyed;
        } in
        let k₂ = returned-IsSound v.event_id v.user_id marked k₁ in
        let failed = or_zero "" (e.marshal_message (failed_message v)) in
        let told : World e.Store =
          (publish e channel_order_failed failed (returned v.event_id v.user_id marked)).1 in
        let k₂' : IsSound e told = record {
          digest = k₂.digest;
          stored = k₂.stored;
          keyed = k₂.keyed;
        } in
        let k₃ =
          send-IsSound e (λ s. (ok (e.get (inventory_key v.event_id) s), s)) told k₂'
            (λ s stored. stored) in
        record { digest = k₃.digest; stored = k₃.stored; keyed = k₃.keyed }

    module _ (runs : RunsScript e.redis) (ttl : pos 0 <ℤ gateway.lock_ttl_seconds)
        (total : pos 0 ≤ℤ gateway.ticket_inventory) where
      Step-IsSound : {w u : World e.Store} → Step w u → IsSound e w → IsSound e u
      unfolding process_compensation
      Step-IsSound (serves req) k = serve-IsSound e gateway laws runs ttl req _ total k
      Step-IsSound {w} (processes value) k =
          let same = process_message-SameStore e worker sim value w in
          let (added, _, _, keeps) = process_message-Appended e worker sim value w in
          record {
            digest = rw (same.1) (k.digest);
            stored = rw (same.0) (k.stored);
            keyed = keeps k.keyed;
          }
      Step-IsSound {w} (compensates value) k =
          compensated-IsSound (unmarshal_event e.clock value) w k
      Step-IsSound {w} (expires event user) k = record {
        digest = k.digest;
        stored = del-IsStored e.redis laws event user w.redis k.stored;
        keyed = k.keyed;
      }

      -- Let Redis keep its documented laws and run the gatekeeper's text, let the gateway's time to
      -- live be positive and its configured total not be negative, and start where the gateway
      -- holds the digest, the store shows a sale with no count below zero, and the identifiers and
      -- idempotency keys of the table are unique. Then all of this holds in every state that is
      -- reached, over any network, when the gateway serves requests, the worker processes and
      -- compensates messages with any values, and locks end, in any order, each step as a whole.
      pub Reach-IsSound : {w u : World e.Store} → IsSound e w → Reach w u → IsSound e u
      Reach-IsSound k here = k
      Reach-IsSound k (next r st) = Step-IsSound st (Reach-IsSound k r)
