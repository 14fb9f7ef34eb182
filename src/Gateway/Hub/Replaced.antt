-- ===== src/Gateway/Hub/Replaced.antt =====
-- Registrations and their ends: when the hub runs on, and when it panics.
use ticketer.Base.{
  subst, Result, ok, err, ℕ, String, true, false, Option, none, some, ◌≡◌, ◌≢◌, ◌⊎◌, inl, inr, refl,
  ◌∙◌, ap, List, [], ◌∷◌, ◌++◌, ◌==◌, Bool-cases, Option-cases, eq_refl,
}
use ticketer.Shared.Events.{WebSocketMessage}
use ticketer.Platform.Env.{Env}
use ticketer.Gateway.Hub.{
  Channel, Hub, Event, put, update, close, close_channel, lookup, delete, enter, leave, replace,
  registered, unregistered, feed, feed_message, routed, register, unregister, inbound, step,
}
use ticketer.Gateway.Hub.Wired.{IsWired, broadcast-IsWired, eqb_self}
use ticketer.Gateway.Hub.Delivery.{send_to_user-each, lookup-some, wired-open}
use ticketer.Gateway.Hub.Entries.{
  put-ne, now_entered, deleted-none, lookup-enter, enter-IsWired, left-IsWired,
}

module _ (user_id : ℕ → String) where
  module _ (e : Env) where
    -- The channels after a message, which end in no panic.
    abbrev Runs : Hub → Option (ℕ → Channel) → Type 0
    Runs h o = (channels : ℕ → Channel) × (o ≡ some channels) × IsWired user_id channels h.clients

    feed-Runs :
        (r : Result String) (channels : ℕ → Channel) (h : Hub)
        → IsWired user_id channels h.clients
        → Runs h (feed user_id e r (some channels) h)
    feed-Runs (err m) channels h k = (channels, refl, k)
    feed-Runs (ok news) channels h k = broadcast-IsWired user_id news h.clients channels k

    routed-Runs :
        (r : Result String) (m : WebSocketMessage) (h : Hub)
        → IsWired user_id h.channels h.clients
        → Runs h (routed user_id e r m h)
    routed-Runs (err x) m h k = (h.channels, refl, k)
    routed-Runs (ok payload) m h k = elim (Bool-cases (m.type == "inventory_update")) [
      | inl q ↦ rw q (broadcast-IsWired user_id payload h.clients h.channels k)
      | inr q ↦
          let (sent, done, wired, _) = send_to_user-each user_id m.user_id payload h k in
          rw (q, done) (feed-Runs (e.marshal_message (feed_message m)) sent h wired)
    ]

    -- Let the registered clients have open channels and different users, the first client be
    -- registered and the second have the same user. The second's registration succeeds and takes
    -- the first one's place, and the end of the first then panics, as its channel is closed again.
    pub step-replaced :
        (first second : ℕ) (h : Hub)
        → IsWired user_id h.channels h.clients
        → lookup user_id (user_id first) h.clients ≡ some first
        → user_id second ≡ user_id first
        → (h' : Hub) × (step user_id e (register second) h ≡ some h')
          × (lookup user_id (user_id second) h'.clients ≡ some second)
          × (step user_id e (unregister first) h' ≡ none)
    unfolding step close_channel
    step-replaced first second h k l u =
        let (_, m) = lookup-some user_id _ first h.clients l in
        let open_first = wired-open user_id first h.channels h.clients k m in
        rw (u, l, registered, close, open_first, update, leave, replace, enter)
          (
            _,
            refl,
            now_entered user_id second (user_id first) h.clients u,
            rw
                (
                  now_entered user_id second (user_id first) h.clients u,
                  unregistered,
                  close,
                  eqb_self first,
                )
                refl,
          )

    -- The events that a hub handles without a panic, with the clients that stay registered.
    abbrev pub Fits : Hub → Event → Type 0
    Fits h (register c) =
        ((h.channels c).closed ≡ false) × (lookup user_id (user_id c) h.clients ≢ some c)
    Fits h (unregister c) =
        (lookup user_id (user_id c) h.clients ≡ none)
        ⊎ (lookup user_id (user_id c) h.clients ≡ some c)
    Fits h (inbound m) = Unit {0}

    -- A client with an open channel that is not registered registers.
    pub step-registers :
        (c : ℕ) (h : Hub)
        → IsWired user_id h.channels h.clients
        → (h.channels c).closed ≡ false
        → lookup user_id (user_id c) h.clients ≢ some c
        → (h' : Hub) × (step user_id e (register c) h ≡ some h')
          × IsWired user_id h'.channels h'.clients
          × (lookup user_id (user_id c) h'.clients ≡ some c)
    unfolding step close_channel
    step-registers c h k o n = elim (Option-cases (lookup user_id (user_id c) h.clients)) [
      | inl l ↦
          rw (l, registered, enter)
            (
              _,
              refl,
              enter-IsWired user_id c h.channels h.clients o l k,
              lookup-enter user_id (user_id c) c h.clients l ∙ rw (eq_refl (user_id c)) refl,
            )
      | inr (d, l) ↦
          let (u, m) = lookup-some user_id (user_id c) d h.clients l in
          let open_d = wired-open user_id d h.channels h.clients k m in
          let channels : (ℕ → Channel) =
            put d (record (h.channels d) { closed = true }) h.channels in
          let rest : List ℕ = delete user_id (user_id c) h.clients in
          rw (l, registered, close, open_d, update, leave, replace, enter)
            (
              record { clients = rest ++ c ∷ []; channels = channels },
              refl,
              enter-IsWired user_id c channels rest
                  (put-ne d c _ h.channels (λ p. n (l ∙ ap some p)) o)
                  (deleted-none user_id (user_id c) h.clients)
                  (subst (λ user. IsWired user_id channels (delete user_id user h.clients)) u
                    (left-IsWired user_id d _ h.channels h.clients k)),
              now_entered user_id c (user_id c) h.clients refl,
            )
    ]

    -- Let the registered clients have open channels and different users. Unless a client registers
    -- with a closed channel or for a second time, or one that was replaced unregisters, no event
    -- ends in a panic, and the registered clients still have open channels and different users.
    pub step-IsWired :
        (event : Event) (h : Hub)
        → IsWired user_id h.channels h.clients
        → Fits h event
        → (h' : Hub) × (step user_id e event h ≡ some h') × IsWired user_id h'.channels h'.clients
    unfolding step close_channel
    step-IsWired (register c) h k (o, n) =
        let (h', done, wired, _) = step-registers c h k o n in (h', done, wired)
    step-IsWired (unregister c) h k (inl l) = rw (l, unregistered) (h, refl, k)
    step-IsWired (unregister c) h k (inr l) =
        let (u, m) = lookup-some user_id (user_id c) c h.clients l in
        let open_c = wired-open user_id c h.channels h.clients k m in
        rw (l, unregistered, close, open_c, update, leave)
          (_, refl, left-IsWired user_id c _ h.channels h.clients k)
    step-IsWired (inbound m) h k f =
        let (channels, done, wired) = routed-Runs (e.marshal_message m) m h k in
        rw done (record h { channels = channels }, refl, wired)
