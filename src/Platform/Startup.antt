-- ===== src/Platform/Startup.antt =====
-- What the main functions of services/api-gateway/main.go and services/order-worker/main.go do alike:
-- the wait for Redis.
use ticketer.Base.{
  ℕ, zero, suc, ◌+◌, ◌<◌, ◌≡◌, refl, arith, ap, ◌∙◌, sym, append-nil, append_assoc, ◌++◌, [], ◌∷◌,
  List, String, Option, Bool, true, false, is_ok, if◌then◌else◌, ◌⊎◌, inl, inr, ℤ, pos, Result, ok,
  err,
}
use ticketer.Platform.Env.{Env, Delivery, delivered, refused, reply_lost, resent}
use ticketer.Platform.Action.{exchange, World, Action, send, modify}

-- The host of a process: os.Getenv, the errors of otlptracegrpc.New at an endpoint and of resource.New
-- at a name and a version, and the error of listening at an address.
pub record Host : Type 0 where
  pub getenv : String → String
  pub exporter_error : String → Option String
  pub resource_error : String → String → Option String
  pub listen_error : String → Option String

-- The argument of time.Sleep between two pings: two seconds.
abbrev pub ping_interval : ℤ
ping_interval = pos 2000000000

abbrev pub is_delivered : Delivery → Bool
is_delivered delivered = true
is_delivered (refused m) = false
is_delivered (reply_lost m) = false
is_delivered (resent d) = is_delivered d

-- The sleeps of a wait whose n-th ping is the first to be answered.
abbrev pub waits : ℕ → List ℤ
waits zero = []
waits (suc n) = ping_interval ∷ waits n

-- A ping leaves the server as it was, and is answered or not.
exchange-ping :
    {S : Type 0} (d : Delivery) (s : S)
    → let reply = exchange d (λ s. (ok tt, s)) s in
      ((is_delivered d ≡ true) × (reply ≡ (ok tt, s)))
      ⊎ ((is_delivered d ≡ false) × ((m : String) × (reply ≡ (err m, s))))
exchange-ping delivered s = inl (refl, refl)
exchange-ping (refused m) s = inr (refl, (m, refl))
exchange-ping (reply_lost m) s = inr (refl, (m, refl))
exchange-ping (resent d) s = exchange-ping d s

module _ (e : Env) where
  -- redisClient.Ping
  abbrev pub ping : Action e.Store (Result (Unit {0}))
  ping = send e (λ s. (ok tt, s))

  abbrev pub pause : ℤ → Action e.Store (Unit {0})
  pause d = modify (λ w. record w { slept = w.slept ++ d ∷ [] })

  -- The loop that retries the connection, with the attempts that are left. It only waits: after the
  -- last attempt main goes on.
  unfoldable pub await_redis : ℕ → Action e.Store (Unit {0})
  await_redis zero w = (tt, w)
  await_redis (suc left) w =
      let (reply, w') = ping w in
      let rest = await_redis left (pause ping_interval w').1 in
      if is_ok reply then (tt, w') else rest

  -- What stands behind a failed ping.
  abbrev paused : World e.Store → World e.Store
  paused w = record w { calls = suc w.calls; slept = w.slept ++ ping_interval ∷ [] }

  await_redis_failed :
      (left : ℕ) (w : World e.Store)
      → is_delivered (e.net w.calls) ≡ false
      → await_redis (suc left) w ≡ await_redis left (paused w)
  unfolding await_redis
  await_redis_failed left w h = elim (exchange-ping (e.net w.calls) w.redis) [
    | inl (answered, d) ↦ cc (answered, h)
    | inr (lost, (m, d)) ↦ rw d refl
  ]

  -- Over any network the wait leaves the store and the gateway's digest as they were.
  pub await_redis-store :
      (left : ℕ) (w : World e.Store)
      → let w' = (await_redis left w).1 in
        (w'.redis ≡ w.redis)
        × (w'.script_sha ≡ w.script_sha)
        × (w'.orders ≡ w.orders)
        × (w'.log ≡ w.log)
        × (w'.published ≡ w.published)
  unfolding await_redis
  await_redis-store zero w = (refl, refl, refl, refl, refl)
  await_redis-store (suc left) w = elim (exchange-ping (e.net w.calls) w.redis) [
    | inl (answered, d) ↦ rw d (refl, refl, refl, refl, refl)
    | inr (lost, (m, d)) ↦ rw d (await_redis-store left _)
  ]

  -- The first ping that is answered ends the wait.
  pub await_redis-first :
      (n left : ℕ) (w : World e.Store)
      → n < left
      → ((j : ℕ) → j < n → is_delivered (e.net (w.calls + j)) ≡ false)
      → e.net (w.calls + n) ≡ delivered
      → await_redis left w
        ≡ (tt, record w { calls = suc (w.calls + n); slept = w.slept ++ waits n })
  unfolding await_redis
  await_redis-first n zero w l h d = absurd (omega arith)
  await_redis-first zero (suc left) w l h d =
      let here : w.calls + 0 ≡ w.calls = omega arith in
      let answered : e.net w.calls ≡ delivered = ap e.net (sym here) ∙ d in
      rw (here, append-nil w.slept, answered) refl
  await_redis-first (suc n) (suc left) w l h d =
      let moved : (j : ℕ) → suc (w.calls) + j ≡ w.calls + suc j = λ j. omega arith in
      let here : w.calls + 0 ≡ w.calls = omega arith in
      let failed : is_delivered (e.net w.calls) ≡ false =
        ap (λ k. is_delivered (e.net k)) (sym here) ∙ h 0 (omega arith) in
      let rest =
        await_redis-first n left (paused w) (omega arith)
          (λ j m. ap (λ k. is_delivered (e.net k)) (moved j) ∙ h (suc j) (omega arith))
          (ap e.net (moved n) ∙ d) in
      await_redis_failed left w failed
      ∙ rest
      ∙ (rw (moved n, append_assoc w.slept (ping_interval ∷ []) (waits n)) refl)
