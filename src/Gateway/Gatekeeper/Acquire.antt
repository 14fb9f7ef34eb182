-- ===== src/Gateway/Gatekeeper/Acquire.antt =====
-- TryAcquireTicket over any network, with and without the script in Redis's cache.
use ticketer.Base.{
  ap, ltb_ℤ, String, Option, none, some, ◌≡◌, refl, sym, ◌∙◌, ◌⊎◌, inl, inr, ◌==◌, ℤ, pos, ◌<ℤ◌,
  Result, ok, err, Bool-cases, eq_refl,
}
use ticketer.Shared.Events.{inventory_key, user_lock_key}
use ticketer.Platform.Redis.{IsRedis, noscript, run_cached}
use ticketer.Platform.Env.{Env, Delivery, delivered, refused, reply_lost, resent}
use ticketer.Platform.Action.{World, exchange}
use ticketer.Gateway.Gatekeeper.{
  result_success, result_duplicate, gatekeeper_source, RunsScript, eval_script, on_reply,
  eval_again, load_script, after_reload, try_acquire_ticket,
}
use ticketer.Gateway.Gatekeeper.Reserve.{Sale, reserve, Shows, script-reserve}

-- The gateway holds the digest of the script, as NewGatekeeper and a reload set it.
abbrev pub HoldsDigest : (e : Env) → World e.Store → Type 0
HoldsDigest e w = w.script_sha ≡ e.sha gatekeeper_source

-- What is known once a reservation was asked for: it was made and its code is the answer; or it took a
-- ticket, and the answer is that of the script when it ran again and met the lock; or an error came back
-- and the reservation was made or not.
abbrev pub Answered : (e : Env) → Sale → ℤ × Sale → Result ℤ → e.Store → Type 0
Answered e sale (code, sale') reply s =
    ((reply ≡ ok code) × Shows e.redis s sale')
    ⊎ ((reply ≡ ok result_duplicate) × (code ≡ result_success) × Shows e.redis s sale')
    ⊎ ((m : String) × (reply ≡ err m) × (Shows e.redis s sale ⊎ Shows e.redis s sale'))

-- A reservation that is made again finds its own lock, or decides as before; it changes nothing.
reserve-again :
    (event user : String) (sale : Sale)
    → let (code, sale') = reserve event user sale in
      let (code₂, sale₂) = reserve event user sale' in
      ((code₂ ≡ result_duplicate) × (code ≡ result_success) × (sale₂ ≡ sale'))
      ⊎ ((code₂ ≡ code) × (sale₂ ≡ sale'))
unfolding reserve
reserve-again event user sale = elim (Bool-cases (sale.held (user_lock_key event user))) [
  | inl h ↦ rw (h) (rw h (inr (refl, refl)))
  | inr h ↦ elim (Bool-cases (ltb_ℤ (pos 0) (sale.left event))) [
    | inl more ↦ rw (h, more) (rw (eq_refl (user_lock_key event user)) (inl (refl, refl, refl)))
    | inr none_left ↦ rw (h, none_left) (rw (h, none_left) (inr (refl, refl)))
  ]
]

module _ (e : Env) (laws : IsRedis e.redis) where
  -- The text that is cached under the digest is that of the script.
  pub known :
      (sha : String) (s : e.Store)
      → sha ≡ e.sha gatekeeper_source
      → (u : String) → e.cached sha s ≡ some u
      → u ≡ gatekeeper_source
  known sha s digest u h =
      laws.sha-injective u gatekeeper_source (sym (laws.cached-sha u sha s h) ∙ digest)

  pub Shows-load :
      (sale : Sale) (s : e.Store)
      → Shows e.redis s sale
      → Shows e.redis (e.script_load gatekeeper_source s) sale
  Shows-load sale s shows = record {
    counters = λ v. rw (laws.get-load gatekeeper_source (inventory_key v) s) (shows.counters v);
    locks = λ v u. rw (laws.get-load gatekeeper_source (user_lock_key v u) s) (shows.locks v u);
  }

module _ (e : Env) (laws : IsRedis e.redis) (runs : RunsScript e.redis) (event user : String)
    (ttl : ℤ) (t : pos 0 <ℤ ttl) (sale : Sale) where
  abbrev goal : ℤ × Sale
  goal = reserve event user sale

  -- The reservation was made or not.
  abbrev Begun : e.Store → Type 0
  Begun s = Shows e.redis s sale ⊎ Shows e.redis s goal.1

  abbrev Evaluated : Result ℤ → e.Store → Type 0
  Evaluated reply s = Answered e sale goal reply s

  begun : (reply : Result ℤ) (s : e.Store) → Evaluated reply s → Begun s
  begun reply s (inl (a, shows)) = inr shows
  begun reply s (inr (inl (a, c, shows))) = inr shows
  begun reply s (inr (inr (m, a, b))) = b

  -- The server's side, by what the cache holds under the digest.
  served :
      (s : e.Store) (o : Option String)
      → Begun s
      → ((u : String) → o ≡ some u → u ≡ gatekeeper_source)
      → let (reply, s') =
          run_cached e.lua o (inventory_key event) (user_lock_key event user) ttl s in
        Evaluated reply s'
  served s none b h = inr (inr (noscript, refl, b))
  served s (some u) (inl shows) h =
      rw (h u refl, runs) (inl (script-reserve e.redis laws event user ttl s sale shows t))
  served s (some u) (inr shows) h =
      let again = script-reserve e.redis laws event user ttl s goal.1 shows t in
      rw (h u refl, runs)
        (elim (reserve-again event user sale) [
          | inl (d, c, same) ↦ inr (inl (again.0 ∙ ap ok d, c, rw same at again.1))
          | inr (d, same) ↦ inl (again.0 ∙ ap ok d, rw same at again.1)
        ])

  delivery :
      (d : Delivery) (f : e.Store → Result ℤ × e.Store) (s : e.Store)
      → Begun s
      → ((s : e.Store) → Begun s → Evaluated (f s).0 (f s).1)
      → Evaluated (exchange d f s).0 (exchange d f s).1
  delivery delivered f s b h = h s b
  delivery (refused m) f s b h = inr (inr (m, refl, b))
  delivery (reply_lost m) f s b h = inr (inr (m, refl, begun _ _ (h s b)))
  delivery (resent d) f s b h = delivery d f (f s).1 (begun _ _ (h s b)) h

  eval_script-Evaluated :
      (w : World e.Store)
      → HoldsDigest e w
      → Begun w.redis
      → let (reply, w') = eval_script e (inventory_key event) (user_lock_key event user) ttl w in
        Evaluated reply w'.redis
  eval_script-Evaluated w digest b = delivery (e.net w.calls) _ w.redis b (λ s c.
      rw (laws.eval_sha_lem w.script_sha (inventory_key event) (user_lock_key event user) ttl s)
        (served s (e.cached w.script_sha s) c (known e laws w.script_sha s digest)))

  Begun-load : (s : e.Store) → Begun s → Begun (e.script_load gatekeeper_source s)
  Begun-load s (inl shows) = inl (Shows-load e laws sale s shows)
  Begun-load s (inr shows) = inr (Shows-load e laws goal.1 s shows)

  -- The reload answers with the digest or an error, and changes nothing of the sale.
  load_script-Begun :
      (w : World e.Store)
      → Begun w.redis
      → let (reply, w') = load_script e w in
        ((reply ≡ ok (e.sha gatekeeper_source)) ⊎ ((m : String) × (reply ≡ err m)))
        × Begun w'.redis
        × (w'.script_sha ≡ w.script_sha)
  load_script-Begun w b = let (a, c) = go (e.net w.calls) w.redis b in (a, c, refl)
    where
      load : e.Store → Result String × e.Store
      load s = (ok (e.sha gatekeeper_source), e.script_load gatekeeper_source s)

      go :
          (d : Delivery) (s : e.Store)
          → Begun s
          → let (reply, s') = exchange d load s in
            ((reply ≡ ok (e.sha gatekeeper_source)) ⊎ ((m : String) × (reply ≡ err m))) × Begun s'
      go delivered s b = (inl refl, Begun-load s b)
      go (refused m) s b = (inr (m, refl), b)
      go (reply_lost m) s b = (inr (m, refl), Begun-load s b)
      go (resent d) s b = go d _ (Begun-load s b)

  abbrev Final : Result ℤ × World e.Store → Type 0
  Final (reply, w') = Answered e sale goal reply w'.redis × HoldsDigest e w'

  -- The second EVALSHA, once the digest is stored.
  after_reload-Final :
      (reply : Result ℤ) (w' : World e.Store)
      → Evaluated reply w'.redis
      → HoldsDigest e w'
      → Final (after_reload reply, w')
  after_reload-Final reply w' (inl (a, s)) d = rw a (inl (refl, s), d)
  after_reload-Final reply w' (inr (inl (a, c, s))) d = rw a (inr (inl (refl, c, s)), d)
  after_reload-Final reply w' (inr (inr (m, a, b))) d = rw a (inr (inr (_, refl, b)), d)

  eval_again-Final :
      (reply : Result String) (w : World e.Store)
      → ((reply ≡ ok (e.sha gatekeeper_source)) ⊎ ((m : String) × (reply ≡ err m)))
      → Begun w.redis
      → HoldsDigest e w
      → Final (eval_again e reply (inventory_key event) (user_lock_key event user) ttl w)
  eval_again-Final reply w (inl a) b d = rw a (
      let w₁ : World e.Store = record w { script_sha = e.sha gatekeeper_source } in
      let next = eval_script e (inventory_key event) (user_lock_key event user) ttl w₁ in
      after_reload-Final next.0 next.1 (eval_script-Evaluated w₁ refl b) refl)
  eval_again-Final reply w (inr (m, a)) b d = rw a (inr (inr (_, refl, b)), d)

  on_reply-Final :
      (reply : Result ℤ) (w : World e.Store)
      → Evaluated reply w.redis
      → HoldsDigest e w
      → Final (on_reply e reply (inventory_key event) (user_lock_key event user) ttl w)
  on_reply-Final reply w (inl (a, s)) d = rw a (inl (refl, s), d)
  on_reply-Final reply w (inr (inl (a, c, s))) d = rw a (inr (inl (refl, c, s)), d)
  on_reply-Final reply w (inr (inr (m, a, b))) d = elim (Bool-cases (m == noscript)) [
    | inl q ↦
        let loaded = load_script-Begun w b in
        rw (a, on_reply)
          (rw q (eval_again-Final _ (load_script e w).1 loaded.0 loaded.1 (loaded.2 ∙ d)))
    | inr q ↦ rw (a, on_reply) (rw q (inr (inr (_, refl, b)), d))
  ]

  -- Let Redis keep its documented laws and run the gatekeeper's text as its translation does, and
  -- let the lock's time to live be positive, the gateway hold the script's digest and the store
  -- show a sale. Over any network, whether or not Redis still has the script and however often
  -- go-redis sends a command: an answer is the code of the abstract reservation, which was made, or
  -- it is the code of a duplicate although the reservation was made and took a ticket, since the
  -- script ran a second time; after an error the reservation was made or nothing changed. The
  -- gateway still holds the digest.
  pub try_acquire_ticket-Answered :
      (w : World e.Store)
      → HoldsDigest e w
      → Shows e.redis w.redis sale
      → let (reply, w') = try_acquire_ticket e event user ttl w in
        Answered e sale (reserve event user sale) reply w'.redis × HoldsDigest e w'
  unfolding try_acquire_ticket
  try_acquire_ticket-Answered w d s = on_reply-Final _ _ (eval_script-Evaluated w d (inl s)) d
