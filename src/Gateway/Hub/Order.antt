-- ===== src/Gateway/Hub/Order.antt =====
-- The hub does not depend on the order in which Go goes through its map of clients.
use ticketer.Base.{
  ℕ, String, Bool, true, false, Option, none, some, ◌≡◌, inl, inr, refl, sym, ◌∙◌, arith, List, [],
  ◌∷◌, ◌++◌, ◌==◌, Bool-cases, if◌then◌else◌, Result, ok, err,
}
use ticketer.Shared.Events.{WebSocketMessage}
use ticketer.Platform.Env.{Env}
use ticketer.Gateway.Hub.{
  Channel, Hub, Event, register, unregister, inbound, put, update, close, close_channel, lookup,
  delete, enter, leave, replace, registered, unregistered, with_channels, send_to_user,
  feed_message, feed, routed, broadcast, step,
}
use ticketer.Gateway.Hub.Wired.{member, IsWired, broadcast-each}
use ticketer.Gateway.Hub.Delivery.{lookup-some, lookup-member, send_to_user-each}
use ticketer.Gateway.Hub.Entries.{lookup-delete}

module _ (user_id : ℕ → String) where
  -- Two hubs with the same map from users to clients, and the same channels.
  abbrev pub SameHub : Hub → Hub → Type 0
  SameHub h k =
      ((user : String) → lookup user_id user h.clients ≡ lookup user_id user k.clients)
      × ((c : ℕ) → h.channels c ≡ k.channels c)

  -- Both steps panic, or both lead to such hubs.
  abbrev pub SameOutcome : Option Hub → Option Hub → Type 0
  SameOutcome none none = Unit {0}
  SameOutcome none (some k) = ⊥
  SameOutcome (some h) none = ⊥
  SameOutcome (some h) (some k) = SameHub h k

  abbrev or_else : Option ℕ → Option ℕ → Option ℕ
  or_else none o = o
  or_else (some c) o = some c

  lookup-append :
      (user : String) (c : ℕ) (clients : List ℕ)
      → lookup user_id user (clients ++ c ∷ [])
        ≡ or_else (lookup user_id user clients) (if user_id c == user then some c else none)
  unfolding lookup
  lookup-append user c [] = refl
  lookup-append user c (d ∷ clients) = ground (arith, lookup-append user c clients)

  enter-SameHub :
      (c : ℕ) (h k : Hub) → SameHub h k → SameHub (enter user_id c h) (enter user_id c k)
  enter-SameHub c h k (l, s) =
      (λ user. rw (lookup-append user c h.clients, lookup-append user c k.clients, l user) refl, s)

  left-SameHub :
      (c d : ℕ) (ch : Channel) (h k : Hub)
      → SameHub h k
      → SameHub
          (record {
            clients = delete user_id (user_id c) h.clients;
            channels = put d ch h.channels;
          })
          (record {
            clients = delete user_id (user_id c) k.clients;
            channels = put d ch k.channels;
          })
  left-SameHub c d ch h k (l, s) = (
    λ user.
        rw
          (
            lookup-delete user_id (user_id c) user h.clients,
            lookup-delete user_id (user_id c) user k.clients,
            l user,
          )
          refl,
    λ i. rw (s i) refl,
  )

  -- The channel of the client d is closed, or that panics, and the user of c leaves the map.
  leave-SameOutcome :
      (c d : ℕ) (h k : Hub)
      → SameHub h k
      → SameOutcome
          (leave user_id c (close d h.channels) h)
          (leave user_id c (close d k.channels) k)
  leave-SameOutcome c d h k (l, s) = rw (← s d) (by_closing (close_channel (h.channels d)))
    where
      by_closing :
          (o : Option Channel)
          → SameOutcome
              (leave user_id c (update d o h.channels) h)
              (leave user_id c (update d o k.channels) k)
      by_closing none = tt
      by_closing (some ch) = left-SameHub c d ch h k (l, s)

  replace-SameOutcome :
      (c : ℕ) (o p : Option Hub)
      → SameOutcome o p
      → SameOutcome (replace user_id o c) (replace user_id p c)
  replace-SameOutcome c none none s = tt
  replace-SameOutcome c none (some k) s = absurd s
  replace-SameOutcome c (some h) none s = absurd s
  replace-SameOutcome c (some h) (some k) s = enter-SameHub c h k s

  registered-SameOutcome :
      (o : Option ℕ) (c : ℕ) (h k : Hub)
      → SameHub h k
      → SameOutcome (registered user_id o c h) (registered user_id o c k)
  registered-SameOutcome none c h k s = enter-SameHub c h k s
  registered-SameOutcome (some d) c h k s = replace-SameOutcome c _ _ (leave-SameOutcome c d h k s)

  unregistered-SameOutcome :
      (o : Option ℕ) (c : ℕ) (h k : Hub)
      → SameHub h k
      → SameOutcome (unregistered user_id o c h) (unregistered user_id o c k)
  unregistered-SameOutcome none c h k s = s
  unregistered-SameOutcome (some d) c h k s = leave-SameOutcome c c h k s

  -- A client is registered exactly if the map has it for its user.
  member_of_same :
      (h k : Hub) (d : ℕ)
      → IsWired user_id h.channels h.clients
      → SameHub h k
      → member d h.clients ≡ true
      → member d k.clients ≡ true
  member_of_same h k d wh (l, s) m =
      let found = lookup-member user_id (user_id d) d h.channels h.clients wh m refl in
      (lookup-some user_id (user_id d) d k.clients (sym (l (user_id d)) ∙ found)).1

  SameHub-sym : (h k : Hub) → SameHub h k → SameHub k h
  SameHub-sym h k (l, s) = (λ user. sym (l user), λ c. sym (s c))

  both : (a b : Bool) → (a ≡ true → b ≡ true) → (b ≡ true → a ≡ true) → a ≡ b
  both true b f g = sym (f refl)
  both false true f g = g refl
  both false false f g = refl

  member_same :
      (h k : Hub) (d : ℕ)
      → IsWired user_id h.channels h.clients
      → IsWired user_id k.channels k.clients
      → SameHub h k
      → member d h.clients ≡ member d k.clients
  member_same h k d wh wk s =
      both _ _ (member_of_same h k d wh s) (member_of_same k h d wk (SameHub-sym h k s))

  -- A broadcast, over channels that are the same.
  broadcast-SameOutcome :
      (payload : String) (h k : Hub) (a b : ℕ → Channel)
      → IsWired user_id a h.clients
      → IsWired user_id b k.clients
      → SameHub (record h { channels = a }) (record k { channels = b })
      → SameOutcome
          (with_channels h (broadcast h.clients payload a))
          (with_channels k (broadcast k.clients payload b))
  broadcast-SameOutcome payload h k a b wh wk s =
      let (all_h, done_h, each_h) = broadcast-each user_id payload h.clients a wh in
      let (all_k, done_k, each_k) = broadcast-each user_id payload k.clients b wk in
      let same =
        λ (d : ℕ). member_same (record h { channels = a }) (record k { channels = b }) d wh wk s in
      rw (done_h, done_k) (s.0, λ d. rw (each_h d, each_k d, same d, s.1 d) refl)

  module _ (e : Env) where
    -- The feed event, once the message was sent.
    fed :
        (r : Result String) (h k : Hub) (a b : ℕ → Channel)
        → IsWired user_id a h.clients
        → IsWired user_id b k.clients
        → SameHub (record h { channels = a }) (record k { channels = b })
        → SameOutcome
            (with_channels h (feed user_id e r (some a) h))
            (with_channels k (feed user_id e r (some b) k))
    fed (err x) h k a b wh wk s = s
    fed (ok news) h k a b wh wk s = broadcast-SameOutcome news h k a b wh wk s

    -- A message to a user, and its feed event.
    feed-SameOutcome :
        (m : WebSocketMessage) (payload : String) (r : Result String) (h k : Hub)
        → IsWired user_id h.channels h.clients
        → IsWired user_id k.channels k.clients
        → SameHub h k
        → SameOutcome
            (with_channels h (feed user_id e r (send_to_user user_id m.user_id payload h) h))
            (with_channels k (feed user_id e r (send_to_user user_id m.user_id payload k) k))
    feed-SameOutcome m payload r h k wh wk s =
        let (sent_h, done_h, wired_h, each_h) = send_to_user-each user_id m.user_id payload h wh in
        let (sent_k, done_k, wired_k, each_k) = send_to_user-each user_id m.user_id payload k wk in
        let same : SameHub (record h { channels = sent_h }) (record k { channels = sent_k }) =
          (s.0, λ d. rw (each_h d, each_k d, member_same h k d wh wk s, s.1 d) refl) in
        rw (done_h, done_k) (fed r h k sent_h sent_k wired_h wired_k same)

    -- Let two hubs have the same map from users to clients, listed in any order, and the same
    -- channels, and let the registered clients of both have open channels and different users. Then
    -- one event makes both panic, or leads both to hubs with the same map and the same channels:
    -- the order in which Go goes through a map does not matter.
    pub step-SameOutcome :
        (event : Event) (h k : Hub)
        → IsWired user_id h.channels h.clients
        → IsWired user_id k.channels k.clients
        → SameHub h k
        → SameOutcome (step user_id e event h) (step user_id e event k)
    unfolding step
    step-SameOutcome (register c) h k wh wk s =
        rw (← s.0 (user_id c)) (registered-SameOutcome _ c h k s)
    step-SameOutcome (unregister c) h k wh wk s =
        rw (← s.0 (user_id c)) (unregistered-SameOutcome _ c h k s)
    step-SameOutcome (inbound m) h k wh wk s = by_message (e.marshal_message m)
      where
        by_message :
            (r : Result String)
            → SameOutcome
                (with_channels h (routed user_id e r m h))
                (with_channels k (routed user_id e r m k))
        by_message (err x) = s
        by_message (ok payload) = elim (Bool-cases (m.type == "inventory_update")) [
          | inl t ↦ rw t (broadcast-SameOutcome payload h k h.channels k.channels wh wk s)
          | inr t ↦
              rw t (feed-SameOutcome m payload (e.marshal_message (feed_message m)) h k wh wk s)
        ]
