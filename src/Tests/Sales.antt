-- ===== src/Tests/Sales.antt =====
-- The theorems on the start and the reading of a sale, and on the hub, applied to concrete ones.
use ticketer.Base.{◌≡◌, refl, arith, [], ℤ, pos, ◌+ℤ◌, ◌-ℤ◌, IsInt64}
use ticketer.Gateway.Http.{event}
use ticketer.Gateway.Events.{availability, get_event_by_id, start_flash_sale}
use ticketer.Gateway.Events.Start.{
  restock, Started, start_flash_sale-Started, get_event_by_id-availability,
}
use ticketer.Tests.Server.{server-IsRedis}
use ticketer.Tests.Runs.{
  online, online-IsOnline, settings, world, closed, closed_memory, closed_Shows, open_sale,
  open_memory, open_Shows,
}

start_flash_sale-Started_example :
    Started online
      (settings (pos 3))
      "event-1"
      closed
      (world closed_memory [])
      (start_flash_sale online (settings (pos 3)) "event-1" (world closed_memory []))
start_flash_sale-Started_example =
    start_flash_sale-Started online (settings (pos 3)) "event-1" closed (world closed_memory [])
      server-IsRedis online-IsOnline closed_Shows refl

none_sold : IsInt64 (pos 2 -ℤ open_sale.left "event-1")
unfolding restock ◌-ℤ◌
none_sold = (omega arith, omega arith)

get_event_by_id-availability_example :
    let (response, w') =
      get_event_by_id online (settings (pos 3)) "event-1" (world open_memory []) in
    (sold : ℤ) × (response ≡ record {
      status = 200;
      body =
          event
            (record (availability online (settings (pos 3)) "event-1" (open_sale.left "event-1")) {
              tickets_sold = sold;
            });
    })
    × (sold +ℤ open_sale.left "event-1" ≡ pos 2)
    × (w' ≡ record (world open_memory []) { calls = 1 })
get_event_by_id-availability_example =
    get_event_by_id-availability online (settings (pos 3)) "event-1" open_sale
      (world open_memory []) online-IsOnline open_Shows refl none_sold
