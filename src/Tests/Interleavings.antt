-- ===== src/Tests/Interleavings.antt =====
-- Two bookings whose phases alternate.
use ticketer.Base.{◌+◌, [], ◌∷◌, refl, arith, pos, ◌+ℤ◌, ◌≤ℤ◌}
use ticketer.Shared.Models.{BookingRequest}
use ticketer.Shared.Config.{Config}
use ticketer.Platform.Env.{repeats}
use ticketer.Platform.Action.{World}
use ticketer.Gateway.Gatekeeper.Reserve.{Sale, Shows}
use ticketer.Gateway.Booking.Interleaved.{
  Phase, asks, advance, Turns, here, next, arrives, advances,
}
use ticketer.Gateway.Booking.Interleaved.Bound.{total, Turns-total}
use ticketer.Tests.Server.{Memory, server, server-IsRedis, server-RunsScript}
use ticketer.Tests.Wire.{request}
use ticketer.Tests.Runs.{online, settings, world, open_sale, open_memory, open_Shows}

abbrev cfg : Config
cfg = settings (pos 3)

abbrev other : BookingRequest
other = record { user_id = "user-2"; event_id = "event-1"; idempotency_key = "key-2" }

abbrev asked : Phase × World Memory
asked = advance online cfg (asks request) (world open_memory [])

abbrev both_asked : Phase × World Memory
both_asked = advance online cfg (asks other) asked.1

abbrev first_written : Phase × World Memory
first_written = advance online cfg asked.0 both_asked.1

alternating :
    Turns online cfg [] (world open_memory []) (both_asked.0 ∷ first_written.0 ∷ []) first_written.1
alternating =
    next
      (next
        (next (next (next here (arrives request)) (arrives other))
          (advances (asks other ∷ []) [] (asks request) refl))
        (advances [] (asked.0 ∷ []) (asks other) refl))
      (advances (both_asked.0 ∷ []) [] asked.0 refl)

Turns-total_example :
    (sale' : Sale) × Shows server first_written.1.redis sale'
    × (pos (total "event-1" (both_asked.0 ∷ first_written.0 ∷ []) + 0) +ℤ sale'.left "event-1"
        ≤ℤ pos (repeats online first_written.1.calls) +ℤ open_sale.left "event-1")
    × (pos 0 ≤ℤ open_sale.left "event-1" → pos 0 ≤ℤ sale'.left "event-1")
unfolding repeats
Turns-total_example =
    Turns-total online cfg "event-1" open_sale server-IsRedis server-RunsScript (omega arith) refl
      open_Shows alternating
