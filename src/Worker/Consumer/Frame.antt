-- ===== src/Worker/Consumer/Frame.antt =====
-- The processing of a message leaves Redis's keys and the gateway's digest alone.
use ticketer.Json.Event.{unmarshal_event}
use ticketer.Base.{
  String, Bool, true, false, Option, none, some, ◌≡◌, refl, inl, inr, ◌==◌, ℤ, Result, ok, err,
  Bool-cases, Result-cases, ltb_ℤ,
}
use ticketer.Shared.Events.{OrderEvent}
use ticketer.Shared.Models.{Order, status_confirmed}
use ticketer.Shared.Config.{Config}
use ticketer.Platform.Env.{Env}
use ticketer.Platform.Action.{World}
use ticketer.Worker.Payment.{Payment, Simulator}
use ticketer.Worker.Payment.Outcome.{process_payment_lem}
use ticketer.Worker.Repository.{update_order_status, create_order, get_order_by_idempotency_key}
use ticketer.Worker.Consumer.{
  process_message, decoded, checked, created, paid, fail, retry_after, confirmed,
  publish_status_update, send_to_dlq, published, next_attempt, backoff,
}

module _ (e : Env) where
  -- Redis's keys and the digest are as they were.
  abbrev pub SameStore : World e.Store → World e.Store → Type 0
  SameStore w v = (v.redis ≡ w.redis) × (v.script_sha ≡ w.script_sha)

  module _ (cfg : Config) (v : OrderEvent) where
    published-SameStore :
        (payload : Result String) (status : String) (w : World e.Store)
        → SameStore w (published e cfg payload status w).1
    published-SameStore (ok p) status w = (refl, refl)
    published-SameStore (err m) status w = (refl, refl)

    confirmed-SameStore :
        (reply : Result (Unit {0})) (w : World e.Store) → SameStore w (confirmed e cfg reply v w).1
    unfolding publish_status_update
    confirmed-SameStore (ok _) w = published-SameStore _ status_confirmed w
    confirmed-SameStore (err m) w = (refl, refl)

    retry_after-SameStore :
        (d : Option ℤ) (w : World e.Store) → SameStore w (retry_after e cfg d v w).1
    retry_after-SameStore none w = (refl, refl)
    retry_after-SameStore (some d) w = (refl, refl)

  fail-SameStore :
      (cfg : Config) (v : OrderEvent) (reason : String) (w : World e.Store)
      → SameStore w (fail e cfg v reason w).1
  unfolding send_to_dlq update_order_status
  fail-SameStore cfg v reason w = elim (Bool-cases (ltb_ℤ v.retry_count cfg.max_retries)) [
    | inl b ↦ rw b (retry_after-SameStore cfg v (backoff v.retry_count) w)
    | inr b ↦ rw b (refl, refl)
  ]

  paid-SameStore :
      (cfg : Config) (v : OrderEvent) (p : Payment) (w : World e.Store)
      → SameStore w (paid e cfg p v w).1
  unfolding update_order_status
  paid-SameStore cfg v p w = elim (Bool-cases p.success) [
    | inl b ↦ rw b (confirmed-SameStore cfg v _ _)
    | inr b ↦ rw b (fail-SameStore cfg (next_attempt v) p.reason w)
  ]

  module _ (cfg : Config) (sim : Simulator) (v : OrderEvent) where
    created-SameStore :
        (reply : Result Bool) (w : World e.Store) → SameStore w (created e cfg sim reply v w).1
    created-SameStore (err m) w = (refl, refl)
    created-SameStore (ok false) w = (refl, refl)
    created-SameStore (ok true) w = rw (process_payment_lem e sim w) (paid-SameStore cfg v _ _)

    checked-SameStore :
        (reply : Result (Option Order)) (w : World e.Store)
        → SameStore w (checked e cfg sim reply v w).1
    unfolding create_order
    checked-SameStore (err m) w = (refl, refl)
    checked-SameStore (ok none) w = created-SameStore _ _
    checked-SameStore (ok (some o)) w = elim (Bool-cases (o.status == status_confirmed)) [
      | inl b ↦ rw b (refl, refl)
      | inr b ↦ rw b (created-SameStore _ _)
    ]

  -- Over any network, the processing of a message changes no key of Redis and not the digest.
  pub process_message-SameStore :
      (cfg : Config) (sim : Simulator) (value : String) (w : World e.Store)
      → SameStore w (process_message e cfg sim value w).1
  unfolding process_message get_order_by_idempotency_key send_to_dlq
  process_message-SameStore cfg sim value w = elim (Result-cases (unmarshal_event e.clock value)) [
    | inl (v, u) ↦
        let found = get_order_by_idempotency_key e v.idempotency_key w in
        rw (u, decoded) (checked-SameStore cfg sim v found.0 found.1)
    | inr (m, u) ↦ rw (u, decoded) (refl, refl)
  ]
