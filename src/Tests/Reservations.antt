-- ===== src/Tests/Reservations.antt =====
-- The theorems on the gatekeeper, applied to the sale of two tickets.
use ticketer.Base.{refl, arith, [], pos}
use ticketer.Platform.Env.{Env, delivered, resent}
use ticketer.Gateway.Gatekeeper.{try_acquire_ticket}
use ticketer.Gateway.Gatekeeper.Reserve.{reserve}
use ticketer.Gateway.Gatekeeper.Acquire.{HoldsDigest, Answered, try_acquire_ticket-Answered}
use ticketer.Tests.Server.{server-IsRedis, server-RunsScript}
use ticketer.Tests.Runs.{env, first_call, world, open_sale, open_memory, open_Shows}

-- The answer of the first EVALSHA is lost, and the command is sent again.
abbrev repeating : Env
repeating = env (first_call (resent delivered))

try_acquire_ticket-Answered_example :
    let (reply, w') =
      try_acquire_ticket repeating "event-1" "user-1" (pos 300) (world open_memory []) in
    Answered repeating open_sale (reserve "event-1" "user-1" open_sale) reply w'.redis
    × HoldsDigest repeating w'
try_acquire_ticket-Answered_example =
    try_acquire_ticket-Answered repeating server-IsRedis server-RunsScript "event-1" "user-1"
      (pos 300) (omega arith) open_sale (world open_memory []) refl open_Shows
