-- ===== src/Gateway/Booking/Interleaved.antt =====
-- services/api-gateway/handlers/booking.go: CreateBooking in its three phases, the reservation, the write and the rollback, of which those of
-- different requests may come in any order.
pub mod Phases
pub mod Bound
use ticketer.Base.{
  ℕ, suc, ◌+◌, String, Bool, true, false, ◌&&◌, none, some, ◌≡◌, refl, ◌∙◌, inl, inr, arith, List,
  [], ◌∷◌, ◌++◌, ◌==◌, eqb, ℤ, pos, ◌+ℤ◌, ◌<ℤ◌, ◌≤ℤ◌, int_laws, Result, ok, err, if◌then◌else◌,
  Option, Option-cases, Bool-cases, Result-cases, eqb_ℤ,
}
use ticketer.Json.Event.{marshal_event}
use ticketer.Shared.Models.{BookingRequest}
use ticketer.Shared.Config.{Config}
use ticketer.Platform.Env.{Env, Delivery, delivered, refused, reply_lost}
use ticketer.Platform.Action.{World, Action, Message, write_message, draw}
use ticketer.Gateway.Http.{Response, failure}
use ticketer.Gateway.Gatekeeper.{
  result_sold_out, result_duplicate, try_acquire_ticket, release_ticket,
}
use ticketer.Gateway.Booking.Outcomes.{published, finished, publish_order_lem}
use ticketer.Gateway.Booking.{
  pending_event, conflict, accepted, unpublished, unavailable, validate, validated, acquired,
  publish_order, create_booking, marshalled, written,
}

-- Why a booking is rolled back.
pub data Fault : Type 0 where
  unencoded unwritten : Fault

abbrev pub fault_response : Fault → Response
fault_response unencoded = failure 500 "internal_error" "Failed to process booking"
fault_response unwritten = unpublished

-- Where a request stands: before its reservation, before its write, before its rollback, or answered.
pub data Phase : Type 0 where
  asks publishes : BookingRequest → Phase
  releases : BookingRequest → Fault → Phase
  answered : BookingRequest → Response → Phase

module _ (e : Env) (cfg : Config) where
  abbrev pub after_reply : Result ℤ → BookingRequest → Phase
  after_reply (err _) req = answered req unavailable
  after_reply (ok code) req =
      if eqb_ℤ code result_sold_out
      then answered req (conflict "sold_out" "Sorry, all tickets have been sold out!")
      else if eqb_ℤ code result_duplicate
      then answered req (conflict "duplicate" "You already have a pending booking for this event.")
      else publishes req

  abbrev pub ask : Option Response → BookingRequest → World e.Store → Phase × World e.Store
  ask (some refusal) req w = (answered req refusal, w)
  ask none req w =
      let (reply, w') = try_acquire_ticket e req.event_id req.user_id cfg.lock_ttl_seconds w in
      (after_reply reply req, w')

  abbrev pub after_write : Result (Unit {0}) → BookingRequest → String → Phase
  after_write (ok _) req order_id = answered req (accepted order_id)
  after_write (err _) req order_id = releases req unwritten

  abbrev pub write : Result String → BookingRequest → String → World e.Store → Phase × World e.Store
  write (err _) req order_id w = (releases req unencoded, w)
  write (ok value) req order_id w =
      let (outcome, w') =
        write_message e
          (record { topic = cfg.kafka_topic_orders; key = req.event_id; value = value }) w in
      (after_write outcome req order_id, w')

  -- The next phase of a request.
  unfoldable pub advance : Phase → World e.Store → Phase × World e.Store
  advance (asks req) w = ask (validate e req) req w
  advance (publishes req) w =
      let (order_id, w₁) = draw e e.uuid_new w in
      let (time, w₂) = draw e e.now w₁ in
      write (marshal_event e.clock (pending_event req order_id time)) req order_id w₂
  advance (releases req fault) w =
      (answered req (fault_response fault), (release_ticket e req.event_id req.user_id w).1)
  advance (answered req response) w = (answered req response, w)

  -- The phases of one request, with no other in between.
  abbrev pub alone : Phase → World e.Store → Phase × World e.Store
  alone p w = let (p₁, w₁) = advance p w in let (p₂, w₂) = advance p₁ w₁ in advance p₂ w₂

  abbrev pub answer : BookingRequest → Response × World e.Store → Phase × World e.Store
  answer req (response, w) = (answered req response, w)

  finished-alone :
      (outcome : Result (Unit {0}) × List Message) (req : BookingRequest) (w : World e.Store)
      → let w' : World e.Store = record w {
        draws = suc (suc w.draws);
        calls = suc w.calls;
        log = outcome.1;
      } in
        advance (after_write outcome.0 req (e.uuid_new w.draws)) w'
        ≡ answer req (finished e cfg req outcome w)
  unfolding advance finished
  finished-alone (ok _, log) req w = refl
  finished-alone (err m, log) req w = refl

  written-alone :
      (m : Result String) (req : BookingRequest) (w : World e.Store)
      → marshal_event e.clock (pending_event req (e.uuid_new w.draws) (e.now (suc w.draws))) ≡ m
      → (let (p₁, w₁) = advance (publishes req) w in advance p₁ w₁)
        ≡ answer req (publish_order e cfg req w)
  unfolding advance published
  written-alone (ok value) req w hm =
      rw (publish_order_lem e cfg req (ok value) _ w hm refl)
        (rw (hm, write) (finished-alone _ req w))
  written-alone (err x) req w hm =
      rw (publish_order_lem e cfg req (err x) _ w hm refl) (rw (hm, write) refl)

  acquired-alone :
      (reply : Result ℤ) (req : BookingRequest) (w : World e.Store)
      → (let (p₂, w₂) = advance (after_reply reply req) w in advance p₂ w₂)
        ≡ answer req (acquired e cfg reply req w)
  unfolding advance
  acquired-alone (err m) req w = refl
  acquired-alone (ok code) req w = elim (Bool-cases (eqb_ℤ code result_sold_out)) [
    | inl b ↦ rw b refl
    | inr b ↦ elim (Bool-cases (eqb_ℤ code result_duplicate)) [
      | inl d ↦ rw (b, d) refl
      | inr d ↦ rw (b, d) (written-alone _ req w refl)
    ]
  ]

  -- Without another request in between, the three phases of a booking, the reservation, the write
  -- and the rollback, give the response and the state of CreateBooking.
  pub alone-create_booking :
      (req : BookingRequest) (w : World e.Store)
      → alone (asks req) w ≡ answer req (create_booking e cfg (ok req) w)
  unfolding advance create_booking
  alone-create_booking req w = elim (Option-cases (validate e req)) [
    | inr (r, q) ↦ rw (q, validated) refl
    | inl q ↦
        let next = try_acquire_ticket e req.event_id req.user_id cfg.lock_ttl_seconds w in
        rw (q, validated) (acquired-alone next.0 req next.1)
  ]

  -- A request arrives, or one of those that are under way advances.
  pub data Turn (ps : List Phase) (w : World e.Store) : List Phase → World e.Store → Type 0 where
    arrives : (req : BookingRequest) → Turn ps w (asks req ∷ ps) w
    advances :
        (before after : List Phase) (p : Phase)
        → ps ≡ before ++ p ∷ after
        → Turn ps w (before ++ (advance p w).0 ∷ after) (advance p w).1

  pub data Turns (ps : List Phase) (w : World e.Store) : List Phase → World e.Store → Type 0 where
    here : Turns ps w ps w
    next :
        {qs rs : List Phase} {v u : World e.Store}
        → Turns ps w qs v
        → Turn qs v rs u
        → Turns ps w rs u
