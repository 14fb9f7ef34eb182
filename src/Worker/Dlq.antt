-- ===== src/Worker/Dlq.antt =====
-- services/order-worker/consumer/dlq.go: the compensation of an order that failed for good.
pub mod Compensation
pub mod Replay
pub mod Refund
pub mod Start
use Prim.Native.String.{◌++◌}
use ticketer.Json.Event.{unmarshal_event}
use ticketer.Base.{ℕ, suc, String, Option, none, some, ℤ, pos, Result, ok, err, or_zero}
use ticketer.Strconv.{itoa, atoi_kept}
use ticketer.Shared.Events.{
  OrderEvent, WebSocketMessage, absent, remaining, channel_order_failed, channel_inventory_update,
  inventory_key, user_lock_key,
}
use ticketer.Shared.Models.{status_failed, status_compensated}
use ticketer.Platform.Redis.{Value, int, text}
use ticketer.Platform.Env.{Env}
use ticketer.Platform.Action.{World, Action, ◌>>=◌, ◌>>◌, pure, modify, send, publish}
use ticketer.Worker.Repository.{update_order_status}

abbrev pub failed_message : OrderEvent → WebSocketMessage
failed_message v = record {
  type = "order_failed";
  order_id = v.order_id;
  user_id = v.user_id;
  status = status_failed;
  message =
      "Payment failed after multiple attempts. Your ticket has been released. You can try again.";
  extra = absent;
}

abbrev pub released_message : ℤ → WebSocketMessage
released_message n = record {
  type = "inventory_update";
  order_id = "";
  user_id = "";
  status = "";
  message = ("Ticket released! " ++ itoa n) ++ " tickets now available.";
  extra = remaining n;
}

-- The answer of GET, read by Int, whose error is dropped.
abbrev kept_inventory : Result (Option Value) → ℤ
kept_inventory (ok none) = pos 0
kept_inventory (ok (some (int n))) = n
kept_inventory (ok (some (text t))) = atoi_kept t
kept_inventory (err m) = pos 0

module _ (e : Env) where
  abbrev pub compensated : Result OrderEvent → Action e.Store (Unit {0})
  compensated (err _) = pure tt
  compensated (ok v) = do
    update_order_status e v.order_id status_compensated (some "payment_failed_permanently")
    send e (e.incr (inventory_key v.event_id))
    send e (λ s. (ok tt, e.del (user_lock_key v.event_id v.user_id) s))
    publish e channel_order_failed (or_zero "" (e.marshal_message (failed_message v)))
    reply ← send e (λ s. (ok (e.get (inventory_key v.event_id) s), s))
    publish e channel_inventory_update
        (or_zero "" (e.marshal_message (released_message (kept_inventory reply))))
    modify λ w. record w {
      metrics = record (w.metrics) { compensation_ops = suc w.metrics.compensation_ops };
    }

  -- processCompensation, on the value of a Kafka message
  unfoldable pub process_compensation : String → Action e.Store (Unit {0})
  process_compensation value = compensated (unmarshal_event e.clock value)
