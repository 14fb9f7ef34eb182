-- ===== src/Gateway/Booking/Rollback.antt =====
-- What a booking leaves behind when its event cannot be published.
use ticketer.Json.Event.{marshal_event}
use ticketer.Base.{
  ℤ, ◌+ℤ◌, eq_refl, int_laws, suc, ◌^◌, String, ◌≡◌, refl, [], ◌∷◌, ◌++◌, pos, ◌<ℤ◌, ok,
}
use ticketer.Shared.Models.{BookingRequest}
use ticketer.Shared.Config.{Config}
use ticketer.Platform.Redis.{IsRedis}
use ticketer.Platform.Env.{Env, delivered, refused, reply_lost, resent}
use ticketer.Platform.Action.{World}
use ticketer.Gateway.Gatekeeper.{result_success, release_ticket}
use ticketer.Gateway.Gatekeeper.Reserve.{Sale, reserve, Shows}
use ticketer.Gateway.Gatekeeper.Release.{
  release, Shows-agree, release_commands-release, release-reserve, left-reserve, sub_add_lt,
}
use ticketer.Gateway.Http.{failure}
use ticketer.Gateway.Booking.{publish_order}
use ticketer.Gateway.Booking.Outcomes.{
  event_at, order_message, published, finished, publish_order_lem,
}

module _ (e : Env) (laws : IsRedis e.redis) (event user : String) (sale : Sale) where
  -- A release that is carried out after a successful reservation gives back the sale before it.
  release_ticket-Shows :
      (w : World e.Store)
      → (reserve event user sale).0 ≡ result_success
      → sale.left event <ℤ pos (2 ^ 63)
      → e.net w.calls ≡ delivered
      → Shows e.redis w.redis (reserve event user sale).1
      → Shows e.redis (release_ticket e event user w).1.redis sale
  unfolding release_ticket
  release_ticket-Shows w c fits net shows =
      let back =
        release_commands-release e.redis laws event user w.redis (reserve event user sale).1 shows (
          rw (left-reserve event user sale c) (sub_add_lt (sale.left event) (pos (2 ^ 63)) fits)) in
      let agree = release-reserve event user sale c in
      rw net (Shows-agree e.redis _ _ sale agree.0 agree.1 back.1)

  release_ticket-log : (w : World e.Store) → (release_ticket e event user w).1.log ≡ w.log
  unfolding release_ticket
  release_ticket-log w = refl

-- A release gives one ticket to the event.
left-release :
    (event user : String) (sale : Sale)
    → (release event user sale).left event ≡ sale.left event +ℤ pos 1
unfolding release
left-release event user sale = rw (eq_refl event)

module _ (e : Env) (laws : IsRedis e.redis) (event user : String) (sale : Sale) where
  -- The same release with its first answer lost, so that go-redis sends the commands again.
  release_ticket-resent :
      (w : World e.Store)
      → (reserve event user sale).0 ≡ result_success
      → sale.left event +ℤ pos 1 <ℤ pos (2 ^ 63)
      → e.net w.calls ≡ resent delivered
      → Shows e.redis w.redis (reserve event user sale).1
      → Shows e.redis (release_ticket e event user w).1.redis (release event user sale)
  unfolding release_ticket
  release_ticket-resent w c fits net shows =
      let back =
        release_commands-release e.redis laws event user w.redis (reserve event user sale).1 shows (
          rw (left-reserve event user sale c) (
            sub_add_lt (sale.left event) (pos (2 ^ 63))
              (less (sale.left event) (pos (2 ^ 63)) fits))) in
      let agree = release-reserve event user sale c in
      let before = Shows-agree e.redis _ _ sale agree.0 agree.1 back.1 in
      rw net (release_commands-release e.redis laws event user _ sale before fits).1
    where
      less : (n m : ℤ) → n +ℤ pos 1 <ℤ m → n <ℤ m
      less n m h = omega int_laws

module _ (e : Env) (cfg : Config) (req : BookingRequest) (sale : Sale) (w : World e.Store)
    (value m : String) where
  -- Let Redis keep its laws, and the store show the sale after the successful reservation of an
  -- event with fewer than 2^63 tickets. If the write of the encoded event never arrives and the
  -- release is carried out, the response is the 503, the store shows the sale from before the
  -- reservation, and the log is as it was.
  pub publish_order-rollback :
      IsRedis e.redis
      → (reserve req.event_id req.user_id sale).0 ≡ result_success
      → sale.left req.event_id <ℤ pos (2 ^ 63)
      → Shows e.redis w.redis (reserve req.event_id req.user_id sale).1
      → marshal_event e.clock (event_at e cfg req w.draws) ≡ ok value
      → e.net w.calls ≡ refused m
      → e.net (suc w.calls) ≡ delivered
      → let (response, w') = publish_order e cfg req w in
        (response
          ≡ failure 503 "service_unavailable"
              "Booking service temporarily unavailable. Please retry.")
        × Shows e.redis w'.redis sale
        × (w'.log ≡ w.log)
  unfolding published finished
  publish_order-rollback laws c fits shows hm hn hr = rw (publish_order_lem e cfg req _ _ w hm hn) (
    refl,
    release_ticket-Shows e laws req.event_id req.user_id sale _ c fits hr shows,
    release_ticket-log e laws req.event_id req.user_id sale _,
  )

  -- Let Redis keep its laws, and the store show the sale after the successful reservation of an
  -- event with fewer than 2^63 tickets. If the write of the encoded event arrives, its
  -- acknowledgement is lost and the release is carried out, the response is the 503 and the store
  -- shows the sale from before the reservation, although the event is in the log.
  pub publish_order-double_use :
      IsRedis e.redis
      → (reserve req.event_id req.user_id sale).0 ≡ result_success
      → sale.left req.event_id <ℤ pos (2 ^ 63)
      → Shows e.redis w.redis (reserve req.event_id req.user_id sale).1
      → marshal_event e.clock (event_at e cfg req w.draws) ≡ ok value
      → e.net w.calls ≡ reply_lost m
      → e.net (suc w.calls) ≡ delivered
      → let (response, w') = publish_order e cfg req w in
        (response
          ≡ failure 503 "service_unavailable"
              "Booking service temporarily unavailable. Please retry.")
        × Shows e.redis w'.redis sale
        × (w'.log ≡ w.log ++ order_message e cfg req value ∷ [])
  unfolding published finished
  publish_order-double_use laws c fits shows hm hn hr =
      rw (publish_order_lem e cfg req _ _ w hm hn) (
        refl,
        release_ticket-Shows e laws req.event_id req.user_id sale _ c fits hr shows,
        release_ticket-log e laws req.event_id req.user_id sale _,
      )

  -- Let Redis keep its laws, and the store show the sale after the successful reservation of an
  -- event whose count of tickets and one more are below 2^63. If the write of the encoded event
  -- never arrives, and the release is carried out but its answer is lost, so that go-redis sends it
  -- again and it is carried out a second time, the response is the 503, the log is as it was, and
  -- the store shows a sale with one ticket more for the event than before the booking.
  pub publish_order-extra_ticket :
      IsRedis e.redis
      → (reserve req.event_id req.user_id sale).0 ≡ result_success
      → sale.left req.event_id +ℤ pos 1 <ℤ pos (2 ^ 63)
      → Shows e.redis w.redis (reserve req.event_id req.user_id sale).1
      → marshal_event e.clock (event_at e cfg req w.draws) ≡ ok value
      → e.net w.calls ≡ refused m
      → e.net (suc w.calls) ≡ resent delivered
      → let (response, w') = publish_order e cfg req w in
        (response
          ≡ failure 503 "service_unavailable"
              "Booking service temporarily unavailable. Please retry.")
        × ((sale' : Sale) × Shows e.redis w'.redis sale'
            × (sale'.left req.event_id ≡ sale.left req.event_id +ℤ pos 1))
        × (w'.log ≡ w.log)
  unfolding published finished
  publish_order-extra_ticket laws c fits shows hm hn hr =
      rw (publish_order_lem e cfg req _ _ w hm hn) (
        refl,
        (
          release req.event_id req.user_id sale,
          release_ticket-resent e laws req.event_id req.user_id sale _ c fits hr shows,
          left-release req.event_id req.user_id sale,
        ),
        release_ticket-log e laws req.event_id req.user_id sale _,
      )
