-- ===== src/Gateway/Main/Serving.antt =====
-- What a gateway that serves can rely on, and when it comes to serve.
use ticketer.Base.{
  ℕ, suc, ◌+◌, ◌<◌, String, true, false, Option, none, some, ◌≡◌, refl, ◌∙◌, ◌++◌, Result, ok, err,
  is_ok, ◌⊎◌, inl, inr,
}
use ticketer.Platform.Redis.{IsRedis}
use ticketer.Platform.Env.{Env, Delivery, delivered, refused, reply_lost, resent}
use ticketer.Platform.Action.{World, exchange}
use ticketer.Platform.Startup.{
  Host, await_redis, await_redis-store, await_redis-first, is_delivered, waits,
}
use ticketer.Telemetry.{Otel}
use ticketer.Gateway.Gatekeeper.{new_gatekeeper, gatekeeper_source}
use ticketer.Gateway.Gatekeeper.Reserve.{Sale, Shows}
use ticketer.Gateway.Gatekeeper.Acquire.{HoldsDigest, Shows-load}
use ticketer.Gateway.Main.{
  Gateway, Boot, fatal, serving, start_up, gated, listening, configured, address, traced, gateway,
}

module _ (e : Env) where
  -- NewGatekeeper succeeds only with the digest stored, and keeps every sale that the store shows.
  new_gatekeeper-ready :
      (w : World e.Store)
      → IsRedis e.redis
      → let (reply, w') = new_gatekeeper e w in
        (is_ok reply ≡ true → HoldsDigest e w')
        × ((sale : Sale) → Shows e.redis w.redis sale → Shows e.redis w'.redis sale)
        × (w'.orders ≡ w.orders)
        × (w'.log ≡ w.log)
        × (w'.published ≡ w.published)
  unfolding new_gatekeeper
  new_gatekeeper-ready w laws =
      let (reply, keeps) = by_fate (e.net w.calls) w.redis in
      elim reply [
        | inl a ↦ rw a (λ _. refl, keeps, refl, refl, refl)
        | inr (m, a) ↦ rw a (λ h. cc, keeps, refl, refl, refl)
      ]
    where
      load : e.Store → Result String × e.Store
      load s = (ok (e.sha gatekeeper_source), e.script_load gatekeeper_source s)

      by_fate :
          (d : Delivery) (s : e.Store)
          → let (reply, s') = exchange d load s in
            ((reply ≡ ok (e.sha gatekeeper_source)) ⊎ ((m : String) × (reply ≡ err m)))
            × ((sale : Sale) → Shows e.redis s sale → Shows e.redis s' sale)
      by_fate delivered s = (inl refl, λ sale. Shows-load e laws sale s)
      by_fate (refused m) s = (inr (m, refl), λ sale h. h)
      by_fate (reply_lost m) s = (inr (m, refl), λ sale. Shows-load e laws sale s)
      by_fate (resent d) s =
          let (reply, keeps) = by_fate d (load s).1 in
          (reply, λ sale h. keeps sale (Shows-load e laws sale s h))

-- What a gateway that serves can rely on: the digest is held, and it has changed nothing that counts.
abbrev pub Ready : (e : Env) → World e.Store → Boot × World e.Store → Type 0
Ready e w (fatal m, w') = Unit {0}
Ready e w (serving g, w') =
    HoldsDigest e w'
    × ((sale : Sale) → Shows e.redis w.redis sale → Shows e.redis w'.redis sale)
    × (w'.orders ≡ w.orders)
    × (w'.log ≡ w.log)
    × (w'.published ≡ w.published)

module _ (e : Env) (host : Host) (otel : Otel) (w : World e.Store) where
  listening-Ready :
      (o : Option String) (g : Gateway) (w' : World e.Store)
      → Ready e w (serving g, w')
      → Ready e w (listening o g, w')
  listening-Ready (some m) g w' r = tt
  listening-Ready none g w' r = r

  gated-Ready :
      (reply : Result (Unit {0})) (w' : World e.Store)
      → (is_ok reply ≡ true → HoldsDigest e w')
      → ((sale : Sale) → Shows e.redis w.redis sale → Shows e.redis w'.redis sale)
      → w'.orders ≡ w.orders
      → w'.log ≡ w.log
      → w'.published ≡ w.published
      → Ready e w (gated host reply otel, w')
  gated-Ready (err m) w' d s a b c = tt
  gated-Ready (ok _) w' d s a b c = listening-Ready _ _ w' (d refl, s, a, b, c)

  -- In a Redis that keeps its laws, and over any network, a gateway that comes to serve holds the
  -- digest of its script, whatever became of the tracer and of the pings; the store shows every
  -- sale that it showed before, and the table, the log and the published messages are as they were.
  pub start_up-Ready : IsRedis e.redis → Ready e w (start_up e host otel w)
  unfolding start_up
  start_up-Ready laws =
      let w₁ : World e.Store = (await_redis e 30 w).1 in
      let same = await_redis-store e 30 w in
      let ready = new_gatekeeper-ready e w₁ laws in
      gated-Ready (new_gatekeeper e w₁).0 (new_gatekeeper e w₁).1 ready.0
        (λ sale s. ready.1 sale (rw (same.0) s)) (ready.2 ∙ same.2) (ready.3 ∙ same.3)
        (ready.4 ∙ same.4)

  -- If one of the 30 pings is answered, the loading of the script after the first such ping is
  -- carried out, and the address can be had, then the gateway serves, and it has slept for two
  -- seconds before each ping but the first.
  pub start_up-first :
      (n : ℕ)
      → n < 30
      → ((j : ℕ) → j < n → is_delivered (e.net (w.calls + j)) ≡ false)
      → e.net (w.calls + n) ≡ delivered
      → e.net (suc (w.calls + n)) ≡ delivered
      → host.listen_error (address host) ≡ none
      → let (boot, w') = start_up e host otel w in
        (boot ≡ serving (gateway (configured host) (traced host otel)))
        × (w'.slept ≡ w.slept ++ waits n)
  unfolding start_up new_gatekeeper
  start_up-first n l h p d f = rw (await_redis-first e n 30 w l h p) (rw d (rw f (refl, refl)))
