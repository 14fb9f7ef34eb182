-- ===== src/Worker/Dlq/Compensation.antt =====
-- What a compensation gives back.
use ticketer.Json.Event.{unmarshal_event}
use ticketer.Base.{
  ◌^◌, suc, String, true, some, ◌≡◌, refl, [], ◌∷◌, ◌++◌, eq_refl, pos, ◌+ℤ◌, ◌<ℤ◌, ok, or_zero,
}
use ticketer.Shared.Events.{
  OrderEvent, inventory_key, user_lock_key, channel_order_failed, channel_inventory_update,
}
use ticketer.Shared.Models.{status_compensated}
use ticketer.Platform.Redis.{IsRedis, int}
use ticketer.Platform.Env.{last_try, Env, IsOnline}
use ticketer.Platform.Action.{World}
use ticketer.Gateway.Gatekeeper.{release_commands}
use ticketer.Gateway.Gatekeeper.Reserve.{Sale, Shows, lock-ne-inventory}
use ticketer.Gateway.Gatekeeper.Release.{release, release_commands-release, get-release}
use ticketer.Worker.Repository.{set_status, update_order, update_order_status}
use ticketer.Worker.Dlq.{failed_message, released_message, compensated, process_compensation}

module _ (e : Env) (laws : IsRedis e.redis) (online : IsOnline e) (value : String) (v : OrderEvent)
    (decodes : unmarshal_event e.clock value ≡ ok v)
    (id_fits : e.accepts_id v.order_id ≡ true) where
  module _ (sale : Sale) (w : World e.Store) (shows : Shows e.redis w.redis sale)
      (fits : sale.left v.event_id +ℤ pos 1 <ℤ pos (2 ^ 63)) where
    inventory_after :
        e.get
          (inventory_key v.event_id)
          (e.del (user_lock_key v.event_id v.user_id) (e.incr (inventory_key v.event_id) w.redis).1)
        ≡ some (int (sale.left v.event_id +ℤ pos 1))
    inventory_after = rw (
      get-release e.redis laws v.event_id v.user_id w.redis sale shows fits
          (inventory_key v.event_id),
      lock-ne-inventory v.event_id v.event_id v.user_id,
      eq_refl (inventory_key v.event_id),
    )

    -- Let Redis keep its laws, every call be carried out, a message decode to an event whose
    -- identifier the database accepts, and the store show a sale in which one ticket more fits into
    -- 64 bits. Then the compensation marks the order's rows as compensated, the store shows the
    -- sale with the ticket given back and the lock gone, and two messages are published, to the
    -- user and to all with the tickets that are left; the log stays as it was.
    pub process_compensation-releases :
        let w' = (process_compensation e value w).1 in
        (w'.orders
          ≡ set_status v.order_id status_compensated (some "payment_failed_permanently") w.orders)
        × Shows e.redis w'.redis (release v.event_id v.user_id sale)
        × (w'.published
            ≡ (w.published
                ++ (channel_order_failed, or_zero "" (e.marshal_message (failed_message v))) ∷ [])
              ++ (
                channel_inventory_update,
                or_zero "" (e.marshal_message (released_message (sale.left v.event_id +ℤ pos 1))),
              )
                ∷ [])
        × (w'.log ≡ w.log)
        × (w'.metrics.compensation_ops ≡ suc w.metrics.compensation_ops)
    unfolding process_compensation update_order_status update_order last_try release_commands
    process_compensation-releases =
        rw (decodes, compensated)
          (rw
            (
              online w.calls,
              online (suc w.calls),
              online (suc (suc w.calls)),
              online (suc (suc (suc w.calls))),
              online (suc (suc (suc (suc w.calls)))),
              online (suc (suc (suc (suc (suc w.calls))))),
            )
            (rw id_fits (
              rw inventory_after (
                refl,
                (release_commands-release e.redis laws v.event_id v.user_id w.redis sale shows
                    fits).1,
                refl,
                refl,
                refl,
              ))))
