-- ===== src/Gateway/Hub/Delivery.antt =====
-- Who receives an inbound message.
use ticketer.Base.{
  ℕ, eqb, String, Bool, true, false, none, some, ◌≡◌, ◌≢◌, inl, inr, refl, sym, ◌∙◌, ap, arith,
  List, [], ◌∷◌, ◌==◌, eq_iff, Bool-cases, Option-cases, if◌then◌else◌, ok,
}
use ticketer.Shared.Events.{WebSocketMessage, absent}
use ticketer.Platform.Env.{Env}
use ticketer.Gateway.Hub.{
  Channel, Hub, put, send, lookup, send_to_user, to_user, feed, routed, inbound, step,
}
use ticketer.Gateway.Hub.Wired.{
  member, offered, offered-closed, offer-open, IsWired, put-IsWired, broadcast-each, eqb_self,
}

some_inj : {a b : ℕ} → some a ≡ some b → a ≡ b
some_inj h = cc

through :
    (news : String) (b : Bool) (sent x y : Channel)
    → sent ≡ (if b then x else y)
    → (if b then offered news sent else sent) ≡ (if b then offered news x else y)
through news true sent x y p = ap (offered news) p
through news false sent x y p = p

module _ (user_id : ℕ → String) where
  -- The client that the map holds for a user.
  pub lookup-some :
      (user : String) (c : ℕ) (clients : List ℕ)
      → lookup user_id user clients ≡ some c
      → (user_id c ≡ user) × (member c clients ≡ true)
  unfolding lookup
  lookup-some user c [] h = cc
  lookup-some user c (d ∷ clients) h = elim (Bool-cases (user_id d == user)) [
    | inl q ↦
        let p : d ≡ c = some_inj (rw q at h) in
        rw (← p) ((eq_iff (user_id d) user).0 q, rw (eqb_self d) refl)
    | inr q ↦ let (u, m) = lookup-some user c clients (rw q at h) in (u, ground arith)
  ]

  pub lookup-member :
      (user : String) (d : ℕ) (channels : ℕ → Channel) (clients : List ℕ)
      → IsWired user_id channels clients
      → member d clients ≡ true
      → user_id d ≡ user
      → lookup user_id user clients ≡ some d
  unfolding lookup
  lookup-member user d channels [] k m u = cc
  lookup-member user d channels (c ∷ clients) k m u = elim (Bool-cases (eqb c d)) [
    | inl q ↦
        let p : c ≡ d = ground arith in
        rw ((eq_iff (user_id c) user).1 (ap user_id p ∙ u)) (ap some p)
    | inr q ↦ elim (Bool-cases (user_id c == user)) [
      | inl r ↦
          let e : user_id c ≡ user = (eq_iff (user_id c) user).0 r in
          let f : lookup user_id user clients ≡ some d =
            lookup-member user d channels clients k.2 (ground arith) u in
          let g : lookup user_id user clients ≡ none = rw e at k.1 in cc
      | inr r ↦ rw r (lookup-member user d channels clients k.2 (ground arith) u)
    ]
  ]

  pub wired-open :
      (c : ℕ) (channels : ℕ → Channel) (clients : List ℕ)
      → IsWired user_id channels clients
      → member c clients ≡ true
      → (channels c).closed ≡ false
  wired-open c channels [] k m = cc
  wired-open c channels (d ∷ clients) k m = elim (Bool-cases (eqb d c)) [
    | inl q ↦ let p : d ≡ c = ground arith in rw (← p) k.0
    | inr q ↦ wired-open c channels clients k.2 (ground arith)
  ]

  -- What a client has received, once a text was sent to a user.
  abbrev pub addressed : String → String → Hub → ℕ → Channel
  addressed user payload h d =
      if user_id d == user then offered payload (h.channels d) else h.channels d

  elsewhere :
      (user payload : String) (h : Hub) (d : ℕ)
      → IsWired user_id h.channels h.clients
      → lookup user_id user h.clients ≢ some d
      → h.channels d ≡ (if member d h.clients then addressed user payload h d else h.channels d)
  elsewhere user payload h d k n = elim (Bool-cases (member d h.clients)) [
    | inr m ↦ rw m refl
    | inl m ↦ elim (Bool-cases (user_id d == user)) [
      | inl u ↦
          absurd (n (lookup-member user d h.channels h.clients k m ((eq_iff (user_id d) user).0 u)))
      | inr u ↦ rw (m, u) refl
    ]
  ]

  -- A message to a user goes to their client, if they have one, and to nobody else.
  pub send_to_user-each :
      (user payload : String) (h : Hub)
      → IsWired user_id h.channels h.clients
      → (channels' : ℕ → Channel) × (send_to_user user_id user payload h ≡ some channels')
        × IsWired user_id channels' h.clients
        × ((d : ℕ)
            → channels' d
              ≡ (if member d h.clients then addressed user payload h d else h.channels d))
  unfolding send_to_user
  send_to_user-each user payload h k = elim (Option-cases (lookup user_id user h.clients)) [
    | inl o ↦ rw o (h.channels, refl, k, λ d. elsewhere user payload h d k (λ s. cc))
    | inr (c, o) ↦
        let (u, m) = lookup-some user c h.clients o in
        let open_c = wired-open c h.channels h.clients k m in
        rw (o, to_user, send, offer-open payload (h.channels c) open_c)
          (
            put c (offered payload (h.channels c)) h.channels,
            refl,
            put-IsWired user_id c _ h.channels h.clients
                (offered-closed payload (h.channels c) ∙ open_c) k,
            λ d. elim (Bool-cases (eqb c d)) [
              | inl q ↦
                  let p : c ≡ d = ground arith in
                  rw (← p) (rw (eqb_self c, m, (eq_iff (user_id c) user).1 u) refl)
              | inr q ↦ rw q (
                  elsewhere user payload h d k
                    (λ s. let p : c ≡ d = some_inj (sym o ∙ s) in ground arith))
            ],
          )
  ]

  module _ (e : Env) (m : WebSocketMessage) (h : Hub)
      (wired : IsWired user_id h.channels h.clients) where
    -- Let the registered clients have open channels and different users, and a message that is no
    -- inventory update be encoded, itself and as a feed event. Then no panic occurs, the clients
    -- stay registered, the message is offered to its user's client alone, and the feed event,
    -- without the user, after it to every registered client; every other channel stays as it was.
    pub step-delivers :
        (payload news : String)
        → e.marshal_message m ≡ ok payload
        → e.marshal_message (record {
          type = "feed";
          order_id = m.order_id;
          user_id = "";
          status = m.status;
          message = m.message;
          extra = absent;
        })
          ≡ ok news
        → (m.type == "inventory_update") ≡ false
        → (h' : Hub) × (step user_id e (inbound m) h ≡ some h')
          × (h'.clients ≡ h.clients)
          × ((c : ℕ)
              → h'.channels c ≡ (
                  if member c h.clients
                  then offered news (addressed m.user_id payload h c)
                  else h.channels c))
    unfolding step
    step-delivers payload news mp mf t =
        let (sent, done, wired', each) = send_to_user-each m.user_id payload h wired in
        let (all, done', each') = broadcast-each user_id news h.clients sent wired' in
        rw (mp, routed)
          (rw (t, done, mf, feed)
            (rw done' (
              record h { channels = all },
              refl,
              refl,
              λ c. each' c ∙ through news (member c h.clients) _ _ _ (each c),
            )))
