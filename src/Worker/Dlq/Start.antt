-- ===== src/Worker/Dlq/Start.antt =====
-- services/order-worker/consumer/dlq.go: the reading loop, and what any run of it keeps.
use ticketer.Json.Event.{unmarshal_event}
use ticketer.Base.{some, ◌∙◌, true, false, ◌≡◌, refl, List, [], ◌∷◌, pos, Result, ok, err}
use ticketer.Shared.Events.{OrderEvent}
use ticketer.Platform.Env.{Env}
use ticketer.Platform.Action.{World, Action}
use ticketer.Shared.Models.{status_compensated}
use ticketer.Worker.Repository.{update_order_status}
use ticketer.Worker.Repository.Keyed.{IsKeyed, update_order_status-IsKeyed}
use ticketer.Worker.Consumer.{sleep}
use ticketer.Worker.Dlq.{compensated, process_compensation}
use ticketer.Worker.Reader.{Read, cancelled, message, failed}

module _ (e : Env) where
  -- Start, over what its passes meet; the list ends where the run is looked at.
  unfoldable pub start : List Read → Action e.Store (Unit {0})
  start [] w = (tt, w)
  start (cancelled ∷ reads) w = (tt, w)
  start (failed true ∷ reads) w = (tt, w)
  start (failed false ∷ reads) w = start reads (sleep (pos 1000000000) w).1
  start (message value ∷ reads) w = start reads (process_compensation e value w).1

  update_order_status-log :
      (v : OrderEvent) (w : World e.Store)
      → (update_order_status e v.order_id status_compensated
          (some "payment_failed_permanently")
          w).1.log
        ≡ w.log
  unfolding update_order_status
  update_order_status-log v w = refl

  compensated-IsKeyed :
      (v : Result OrderEvent) (w : World e.Store)
      → IsKeyed w.orders
      → IsKeyed (compensated e v w).1.orders × ((compensated e v w).1.log ≡ w.log)
  compensated-IsKeyed (err m) w k = (k, refl)
  compensated-IsKeyed (ok v) w k = (
    update_order_status-IsKeyed e v.order_id status_compensated _ w k,
    update_order_status-log v w,
  )

  -- Over any network, any run of the loop over the dead letter queue keeps the identifiers and
  -- idempotency keys of the table unique, and the log as it was.
  pub start-IsKeyed :
      (reads : List Read) (w : World e.Store)
      → IsKeyed w.orders
      → IsKeyed (start reads w).1.orders × ((start reads w).1.log ≡ w.log)
  unfolding start process_compensation
  start-IsKeyed [] w k = (k, refl)
  start-IsKeyed (cancelled ∷ reads) w k = (k, refl)
  start-IsKeyed (failed true ∷ reads) w k = (k, refl)
  start-IsKeyed (failed false ∷ reads) w k = start-IsKeyed reads (sleep (pos 1000000000) w).1 k
  start-IsKeyed (message value ∷ reads) w k =
      let first = compensated-IsKeyed (unmarshal_event e.clock value) w k in
      let rest = start-IsKeyed reads (process_compensation e value w).1 first.0 in
      (rest.0, rest.1 ∙ first.1)
