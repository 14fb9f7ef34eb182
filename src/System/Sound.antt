-- ===== src/System/Sound.antt =====
-- What holds between any two steps of the services, and that every request to the gateway keeps it.
use ticketer.Base.{
  List, String, refl, inl, inr, ◌==◌, ℤ, pos, ◌<ℤ◌, ◌≤ℤ◌, Result, ok, err, Bool-cases, Option-cases,
  ltb_ℤ, eqb_ℤ,
}
use ticketer.Shared.Events.{inventory_key}
use ticketer.Shared.Models.{BookingRequest}
use ticketer.Shared.Config.{Config}
use ticketer.Platform.Redis.{IsRedis, int}
use ticketer.Platform.Env.{Env, Delivery, delivered, refused, reply_lost, resent}
use ticketer.Platform.Action.{World, Message, exchange, send}
use ticketer.Gateway.Gatekeeper.{
  RunsScript, result_sold_out, result_duplicate, try_acquire_ticket, release_ticket, get_inventory,
  init_inventory,
}
use ticketer.Gateway.Gatekeeper.Acquire.{HoldsDigest, try_acquire_ticket-Answered}
use ticketer.Gateway.Gatekeeper.Frame.{try_acquire_ticket-SameOutputs}
use ticketer.Gateway.Gatekeeper.Stored.{
  IsStored, Answered-IsStored, set-IsStored, release_commands-IsStored,
}
use ticketer.Gateway.Booking.{validate, validated, acquired, create_booking}
use ticketer.Gateway.Booking.Outcomes.{published, finished, publish_order_lem}
use ticketer.Gateway.Events.{
  start_flash_sale, get_event_by_id, get_events, start_unless, initialise, initialised, seed_event,
}
use ticketer.Gateway.Health.{health_check}
use ticketer.Gateway.Server.{Request, serve, health, bookings, events, event, start}
use ticketer.Worker.Repository.Keyed.{IsKeyed}

-- The gateway holds the script's digest, the store shows a sale with no count below zero, and the keys
-- of the table are unique.
pub record IsSound (e : Env) (w : World e.Store) : Type 0 where
  pub digest : HoldsDigest e w
  pub stored : IsStored e.redis w.redis
  pub keyed : IsKeyed w.orders

module _ (e : Env) where
  -- A command, whatever its fate, and however often it is sent.
  pub send-IsSound :
      {A : Type 0} (f : e.Store → Result A × e.Store) (w : World e.Store)
      → IsSound e w
      → ((s : e.Store) → IsStored e.redis s → IsStored e.redis (f s).1)
      → IsSound e (send e f w).1
  send-IsSound f w k h = record {
    digest = k.digest;
    stored = by_fate (e.net w.calls) w.redis k.stored;
    keyed = k.keyed;
  }
    where
      by_fate :
          (d : Delivery) (s : e.Store) → IsStored e.redis s → IsStored e.redis (exchange d f s).1
      by_fate delivered s stored = h s stored
      by_fate (refused m) s stored = stored
      by_fate (reply_lost m) s stored = h s stored
      by_fate (resent d) s stored = by_fate d (f s).1 (h s stored)

  module _ (cfg : Config) (laws : IsRedis e.redis) where
    release_ticket-IsSound :
        (id user : String) (w : World e.Store)
        → IsSound e w
        → IsSound e (release_ticket e id user w).1
    unfolding release_ticket
    release_ticket-IsSound id user w k =
        send-IsSound _ w k (release_commands-IsStored e.redis laws id user)

    get_inventory-IsSound :
        (event : String) (w : World e.Store) → IsSound e w → IsSound e (get_inventory e event w).1
    unfolding get_inventory
    get_inventory-IsSound id w k =
        send-IsSound (λ s. (ok (e.get (inventory_key id) s), s)) w k (λ s stored. stored)

    finished-IsSound :
        (req : BookingRequest) (outcome : Result (Unit {0}) × List Message) (w : World e.Store)
        → IsSound e w
        → IsSound e (finished e cfg req outcome w).1
    unfolding finished
    finished-IsSound req (ok _, log) w k = record {
      digest = k.digest;
      stored = k.stored;
      keyed = k.keyed;
    }
    finished-IsSound req (err m, log) w k =
        release_ticket-IsSound _ _ _
          (record { digest = k.digest; stored = k.stored; keyed = k.keyed })

    published-IsSound :
        (req : BookingRequest) (m : Result String) (d : Delivery) (w : World e.Store)
        → IsSound e w
        → IsSound e (published e cfg req m d w).1
    unfolding published
    published-IsSound req (ok value) d w k = finished-IsSound req _ w k
    published-IsSound req (err m) d w k =
        release_ticket-IsSound _ _ _
          (record { digest = k.digest; stored = k.stored; keyed = k.keyed })

    acquired-IsSound :
        (req : BookingRequest) (reply : Result ℤ) (w : World e.Store)
        → IsSound e w
        → IsSound e (acquired e cfg reply req w).1
    acquired-IsSound req (err m) w k = k
    acquired-IsSound req (ok code) w k = elim (Bool-cases (eqb_ℤ code result_sold_out)) [
      | inl s ↦ rw s k
      | inr s ↦ elim (Bool-cases (eqb_ℤ code result_duplicate)) [
        | inl d ↦ rw (s, d) k
        | inr d ↦
            rw (s, d)
              (rw (publish_order_lem e cfg req _ _ w refl refl) (published-IsSound req _ _ w k))
      ]
    ]

    init_inventory-IsSound :
        (id : String) (w : World e.Store)
        → pos 0 ≤ℤ cfg.ticket_inventory
        → IsSound e w
        → IsSound e (init_inventory e id cfg.ticket_inventory w).1
    unfolding init_inventory
    init_inventory-IsSound id w h k =
        send-IsSound (λ s. (ok tt, e.set (inventory_key id) (int cfg.ticket_inventory) s)) w k
          (λ s stored. set-IsStored e.redis laws id cfg.ticket_inventory s h stored)

    initialised-IsSound :
        (id : String) (reply : Result (Unit {0})) (w : World e.Store)
        → IsSound e w
        → IsSound e (initialised e cfg reply id w).1
    initialised-IsSound id (ok _) w k = k
    initialised-IsSound id (err m) w k = k

    initialise-IsSound :
        (id : String) (w : World e.Store)
        → pos 0 ≤ℤ cfg.ticket_inventory
        → IsSound e w
        → IsSound e (initialise e cfg id w).1
    initialise-IsSound id w h k = initialised-IsSound id _ _ (init_inventory-IsSound id w h k)

    start_unless-IsSound :
        (id : String) (reply : Result ℤ) (w : World e.Store)
        → pos 0 ≤ℤ cfg.ticket_inventory
        → IsSound e w
        → IsSound e (start_unless e cfg reply id w).1
    start_unless-IsSound id (err m) w h k = initialise-IsSound id w h k
    start_unless-IsSound id (ok n) w h k = elim (Bool-cases (ltb_ℤ (pos 0) n)) [
      | inl more ↦ rw more k
      | inr none_left ↦ rw none_left (initialise-IsSound id w h k)
    ]

    start_flash_sale-IsSound :
        (id : String) (w : World e.Store)
        → pos 0 ≤ℤ cfg.ticket_inventory
        → IsSound e w
        → IsSound e (start_flash_sale e cfg id w).1
    unfolding start_flash_sale
    start_flash_sale-IsSound id w h k = elim (Bool-cases (id == "")) [
      | inl b ↦ rw b k
      | inr b ↦
          let found = get_inventory e id w in
          rw b (start_unless-IsSound id found.0 found.1 h (get_inventory-IsSound id w k))
    ]

    get_event_by_id-IsSound :
        (id : String) (w : World e.Store) → IsSound e w → IsSound e (get_event_by_id e cfg id w).1
    unfolding get_event_by_id
    get_event_by_id-IsSound id w k = elim (Bool-cases (id == "")) [
      | inl b ↦ rw b k
      | inr b ↦ rw b (get_inventory-IsSound id w k)
    ]

    module _ (runs : RunsScript e.redis) (ttl : pos 0 <ℤ cfg.lock_ttl_seconds) where
      try_acquire_ticket-IsSound :
          (id user : String) (w : World e.Store)
          → IsSound e w
          → IsSound e (try_acquire_ticket e id user cfg.lock_ttl_seconds w).1
      try_acquire_ticket-IsSound id user w k =
          let (sale, shows, nonneg) = k.stored in
          let (answered, digest) =
            try_acquire_ticket-Answered e laws runs id user cfg.lock_ttl_seconds ttl sale w k.digest
              shows in
          let same = try_acquire_ticket-SameOutputs e id user cfg.lock_ttl_seconds w in
          record {
            digest = digest;
            stored = Answered-IsStored e laws id user sale _ _ nonneg answered;
            keyed = rw (same.4) (k.keyed);
          }

      create_booking-IsSound :
          (body : Result BookingRequest) (w : World e.Store)
          → IsSound e w
          → IsSound e (create_booking e cfg body w).1
      unfolding create_booking
      create_booking-IsSound (err m) w k = k
      create_booking-IsSound (ok req) w k = elim (Option-cases (validate e req)) [
        | inl v ↦
            let next = try_acquire_ticket e req.event_id req.user_id cfg.lock_ttl_seconds w in
            rw (v, validated)
              (acquired-IsSound req next.0 next.1
                (try_acquire_ticket-IsSound req.event_id req.user_id w k))
        | inr (r, v) ↦ rw (v, validated) k
      ]

      -- Every request keeps what is sound, over any network.
      pub serve-IsSound :
          (req : Request) (w : World e.Store)
          → pos 0 ≤ℤ cfg.ticket_inventory
          → IsSound e w
          → IsSound e (serve e cfg req w).1
      unfolding serve health_check get_events
      serve-IsSound health w h k = send-IsSound (λ s. (ok tt, s)) w k (λ s stored. stored)
      serve-IsSound (bookings body) w h k = create_booking-IsSound body w k
      serve-IsSound events w h k = get_inventory-IsSound seed_event w k
      serve-IsSound (event id) w h k = get_event_by_id-IsSound id w k
      serve-IsSound (start id) w h k = start_flash_sale-IsSound id w h k
