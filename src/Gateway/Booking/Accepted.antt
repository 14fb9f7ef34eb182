-- ===== src/Gateway/Booking/Accepted.antt =====
-- What the responses of a booking promise.
use ticketer.Json.Event.{marshal_event}
use ticketer.Base.{
  ◌∙◌, ◌<◌, ℕ, String, true, none, some, ◌≡◌, refl, sym, ◌⊎◌, inl, inr, arith, List, [], ◌∷◌, ◌++◌,
  ℤ, pos, ◌<ℤ◌, Result, ok, err, is_ok, Option-cases, subst,
}
use ticketer.Shared.Models.{BookingRequest}
use ticketer.Shared.Config.{Config}
use ticketer.Platform.Redis.{IsRedis}
use ticketer.Platform.Env.{Env, Delivery, delivered, IsOnline}
use ticketer.Platform.Action.{World, Message, exchange}
use ticketer.Gateway.Http.{Response, booking}
use ticketer.Gateway.Gatekeeper.{
  RunsScript, result_success, result_sold_out, result_duplicate, try_acquire_ticket,
}
use ticketer.Gateway.Gatekeeper.Reserve.{Sale, reserve, Shows}
use ticketer.Gateway.Gatekeeper.Acquire.{HoldsDigest, Answered, try_acquire_ticket-Answered}
use ticketer.Gateway.Gatekeeper.Online.{try_acquire_ticket-online}
use ticketer.Gateway.Gatekeeper.Frame.{try_acquire_ticket-SameOutputs}
use ticketer.Gateway.Booking.{validate, acquired, publish_order, create_booking, validated}
use ticketer.Gateway.Booking.Outcomes.{
  event_at, order_message, published, publish_order_lem, finished, appends, copies,
  exchange-appends,
}

-- The three answers of a reservation; two of them leave the sale alone.
pub reserve-cases :
    (event user : String) (sale : Sale)
    → let (code, sale') = reserve event user sale in
      (code ≡ result_success)
      ⊎ ((code ≡ result_sold_out) × (sale' ≡ sale))
      ⊎ ((code ≡ result_duplicate) × (sale' ≡ sale))
unfolding reserve
reserve-cases event user sale = ground arith

module _ (e : Env) (cfg : Config) (req : BookingRequest) where
  -- The log has grown by the message of the booking that drew its identifier and time at n.
  abbrev pub Published : ℕ → List Message → List Message → Type 0
  Published n log log' =
      (value : String) × (marshal_event e.clock (event_at e cfg req n) ≡ ok value)
      × (log' ≡ log ++ order_message e cfg req value ∷ [])

  -- The log has grown by one or more copies of that message.
  abbrev pub Copied : ℕ → List Message → List Message → Type 0
  Copied n log log' =
      (value : String) × (marshal_event e.clock (event_at e cfg req n) ≡ ok value)
      × (k : ℕ) × (0 < k)
      × (log' ≡ log ++ copies e cfg req k (order_message e cfg req value))

  -- The 202 that names the order.
  abbrev pub secured : String → Response
  secured order_id = record {
    status = 202;
    body = booking (record {
      status = "processing";
      order_id = order_id;
      message = "Ticket secured in queue. Awaiting payment confirmation.";
    });
  }

  -- A refused request is a 400.
  validate-status : (r : Response) → validate e req ≡ some r → r.status ≡ 400
  unfolding validate
  validate-status r h = ground arith

  -- The 409 with its reason.
  abbrev pub refusal : String → String → Response
  refusal reason message = record {
    status = 409;
    body = booking (record { status = reason; order_id = ""; message = message });
  }

  finished-202 :
      (outcome : Result (Unit {0}) × List Message) (w : World e.Store)
      → (finished e cfg req outcome w).0.status ≡ 202
      → let (response, w') = finished e cfg req outcome w in
        (response ≡ secured (e.uuid_new w.draws))
        × (w'.redis ≡ w.redis)
        × (outcome.0 ≡ ok tt)
        × (w'.log ≡ outcome.1)
  unfolding finished
  finished-202 (ok _, log) w h = (refl, refl, refl, refl)
  finished-202 (err m, log) w h = absurd (omega arith)

  published-202 :
      (m : Result String) (d : Delivery) (w : World e.Store)
      → marshal_event e.clock (event_at e cfg req w.draws) ≡ m
      → (published e cfg req m d w).0.status ≡ 202
      → let (response, w') = published e cfg req m d w in
        (response ≡ secured (e.uuid_new w.draws))
        × (w'.redis ≡ w.redis)
        × Copied w.draws w.log w'.log
  unfolding published
  published-202 (ok value) d w hm h =
      let outcome = exchange d (appends e cfg req (order_message e cfg req value)) w.log in
      let (response, redis, fine, log) = finished-202 outcome w h in
      let (k, grown, more) = exchange-appends e cfg req d (order_message e cfg req value) w.log in
      (response, redis, (value, hm, k, more fine, log ∙ grown))
  published-202 (err x) d w hm h = absurd (omega arith)

  -- The message is written, and nothing else happens, if the write is carried out and answered.
  publish_order-202 :
      (w : World e.Store)
      → let (response, w') = publish_order e cfg req w in
        response.status ≡ 202
        → (response ≡ secured (e.uuid_new w.draws))
          × (w'.redis ≡ w.redis)
          × Copied w.draws w.log w'.log
  publish_order-202 w = rw (publish_order_lem e cfg req _ _ w refl refl) (published-202 _ _ w refl)

  abbrev goal : Sale → ℤ × Sale
  goal = reserve req.event_id req.user_id

  -- What a 202 promises of the sale and of the log.
  abbrev pub Promised : Sale → ℕ → List Message → Response × World e.Store → Type 0
  Promised sale n log (response, w') =
      (response ≡ secured (e.uuid_new n))
      × ((goal sale).0 ≡ result_success)
      × Shows e.redis w'.redis (goal sale).1
      × Copied n log w'.log

  acquired-202 :
      (sale : Sale) (n : ℕ) (log : List Message) (reply : Result ℤ) (w : World e.Store)
      → w.draws ≡ n
      → w.log ≡ log
      → Answered e sale (goal sale) reply w.redis
      → (acquired e cfg reply req w).0.status ≡ 202
      → Promised sale n log (acquired e cfg reply req w)
  acquired-202 sale n log reply w hn hl (inl (a, shows)) =
      elim (reserve-cases req.event_id req.user_id sale) [
        | inl c ↦
            rw (← hn, ← hl, a, c)
              λ h. let p = publish_order-202 w h in (p.0, refl, rw p.1 shows, p.2)
        | inr (inl (c, _)) ↦ rw (a, c) (λ h. absurd (omega arith))
        | inr (inr (c, _)) ↦ rw (a, c) (λ h. absurd (omega arith))
      ]
  acquired-202 sale n log reply w hn hl (inr (inl (a, c, _))) = rw a (λ h. absurd (omega arith))
  acquired-202 sale n log reply w hn hl (inr (inr (m, a, _))) = rw a (λ h. absurd (omega arith))

  -- Let Redis keep its documented laws and run the gatekeeper's text as its translation does, and
  -- let the lock's time to live be positive, the gateway hold the script's digest and the store
  -- show a sale. Over any network, also where the client libraries send a command or a record
  -- again, a booking that is answered with 202 was made: the user held no lock and a ticket was
  -- left, the store shows the sale after the reservation, the response names the order, and the log
  -- has grown by one or more copies of the pending event of that order and by nothing else.
  pub create_booking-202 :
      (sale : Sale) (w : World e.Store)
      → IsRedis e.redis
      → RunsScript e.redis
      → pos 0 <ℤ cfg.lock_ttl_seconds
      → HoldsDigest e w
      → Shows e.redis w.redis sale
      → (create_booking e cfg (ok req) w).0.status ≡ 202
      → Promised sale w.draws w.log (create_booking e cfg (ok req) w)
  unfolding create_booking
  create_booking-202 sale w laws runs t d shows = elim (Option-cases (validate e req)) [
    | inr (r, v) ↦ rw (v, validated) (λ h. absurd (omega (arith, validate-status r v)))
    | inl v ↦
        rw (v, validated)
          (let step = try_acquire_ticket e req.event_id req.user_id cfg.lock_ttl_seconds w in
            let same =
              try_acquire_ticket-SameOutputs e req.event_id req.user_id cfg.lock_ttl_seconds w in
            let answered =
              try_acquire_ticket-Answered e laws runs req.event_id req.user_id cfg.lock_ttl_seconds
                t sale w d shows in
            acquired-202 sale w.draws w.log step.0 step.1 same.0 same.2 answered.0)
  ]

  -- What a booking does when every call is carried out, by the answer of the reservation.
  abbrev pub Decided : Sale → ℕ → List Message → Response × World e.Store → Type 0
  Decided sale n log (response, w') =
      (((goal sale).0 ≡ result_success)
        × (response ≡ secured (e.uuid_new n))
        × Shows e.redis w'.redis (goal sale).1
        × Published n log w'.log)
      ⊎ (((goal sale).0 ≡ result_sold_out)
          × (response ≡ refusal "sold_out" "Sorry, all tickets have been sold out!")
          × Shows e.redis w'.redis sale
          × (w'.log ≡ log))
      ⊎ (((goal sale).0 ≡ result_duplicate)
          × (response ≡ refusal "duplicate" "You already have a pending booking for this event.")
          × Shows e.redis w'.redis sale
          × (w'.log ≡ log))

  published-online :
      (m : Result String) (w : World e.Store)
      → marshal_event e.clock (event_at e cfg req w.draws) ≡ m
      → is_ok m ≡ true
      → let (response, w') = published e cfg req m delivered w in
        (response ≡ secured (e.uuid_new w.draws))
        × (w'.redis ≡ w.redis)
        × Published w.draws w.log w'.log
  unfolding published finished
  published-online (ok value) w hm h = (refl, refl, (value, hm, refl))
  published-online (err x) w hm h = cc

  publish_order-online :
      (w : World e.Store)
      → IsOnline e
      → is_ok (marshal_event e.clock (event_at e cfg req w.draws)) ≡ true
      → let (response, w') = publish_order e cfg req w in
        (response ≡ secured (e.uuid_new w.draws))
        × (w'.redis ≡ w.redis)
        × Published w.draws w.log w'.log
  publish_order-online w online fine =
      rw (publish_order_lem e cfg req _ _ w refl (online w.calls)) (published-online _ w refl fine)

  acquired-online :
      (sale : Sale) (n : ℕ) (log : List Message) (w : World e.Store)
      → w.draws ≡ n
      → w.log ≡ log
      → IsOnline e
      → is_ok (marshal_event e.clock (event_at e cfg req w.draws)) ≡ true
      → Shows e.redis w.redis (goal sale).1
      → Decided sale n log (acquired e cfg (ok (goal sale).0) req w)
  acquired-online sale n log w hn hl online fine shows =
      elim (reserve-cases req.event_id req.user_id sale) [
        | inl c ↦
            rw (← hn, ← hl, c)
              (let p = publish_order-online w online fine in inl (refl, p.0, rw p.1 shows, p.2))
        | inr (inl (c, same)) ↦ rw (← hl, c) (inr (inl (refl, refl, rw same at shows, refl)))
        | inr (inr (c, same)) ↦ rw (← hl, c) (inr (inr (refl, refl, rw same at shows, refl)))
      ]

  -- Let Redis keep its documented laws and run the gatekeeper's text as its translation does, and
  -- let the lock's time to live be positive, the gateway hold the script's digest and the store
  -- show a sale. Let every call be carried out and answered. Then a valid request whose event can
  -- be encoded is answered by what the reservation decides: 202 with the order's identifier, the
  -- ticket taken and the event written once; or 409 `sold_out` or 409 `duplicate`, with the sale
  -- and the log as they were.
  pub create_booking-online :
      (sale : Sale) (w : World e.Store)
      → IsRedis e.redis
      → RunsScript e.redis
      → IsOnline e
      → pos 0 <ℤ cfg.lock_ttl_seconds
      → HoldsDigest e w
      → Shows e.redis w.redis sale
      → validate e req ≡ none
      → is_ok (marshal_event e.clock (event_at e cfg req w.draws)) ≡ true
      → Decided sale w.draws w.log (create_booking e cfg (ok req) w)
  unfolding create_booking
  create_booking-online sale w laws runs online t d shows v fine =
      let step = try_acquire_ticket e req.event_id req.user_id cfg.lock_ttl_seconds w in
      let same = try_acquire_ticket-SameOutputs e req.event_id req.user_id cfg.lock_ttl_seconds w in
      let answer =
        try_acquire_ticket-online e req.event_id req.user_id cfg.lock_ttl_seconds sale w laws runs
          online t d shows in
      rw (v, validated)
        (rw answer.0 (
          acquired-online sale w.draws w.log step.1 same.0 same.2 online
            (subst (λ n. is_ok (marshal_event e.clock (event_at e cfg req n)) ≡ true) (sym same.0)
              fine)
            answer.1))
