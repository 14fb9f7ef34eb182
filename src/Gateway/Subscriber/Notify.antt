-- ===== src/Gateway/Subscriber/Notify.antt =====
-- What reaches the hub, and with it the clients.
use ticketer.Base.{
  Bool, ◌==◌, ◌||◌, if◌then◌else◌, Bool-cases, ltb, length, length-append, ◌+◌, ◌≤◌, String, true,
  ◌≡◌, sym, ◌∙◌, arith, List, [], ◌∷◌, ◌++◌, append_assoc, append-nil, Result-cases, ok, err, inl,
  inr,
}
use ticketer.Shared.Events.{WebSocketMessage}
use ticketer.Platform.Env.{Env}
use ticketer.Gateway.Subscriber.{Received, message, subscribed, hears, hub_buffer_size, start}

-- The channels of confirmed and failed orders, and of the tickets left.
abbrev pub concerns_clients : String → Bool
concerns_clients channel =
    "order:confirmed" == channel || "order:failed" == channel || "inventory:update" == channel

hears_lem : (channel : String) → hears subscribed channel ≡ concerns_clients channel
unfolding hears
hears_lem channel = ground arith

-- The messages on these channels that decode, in order.
abbrev pub decodable : (e : Env) → List (String × String) → List WebSocketMessage
decodable e [] = []
decodable e ((channel, payload) ∷ published) =
    let rest = decodable e published in
    if concerns_clients channel
    then elim (e.unmarshal_message payload) [ ok m ↦ m ∷ rest | err x ↦ rest ]
    else rest

-- The messages that are published while the loop runs, as it meets them.
abbrev pub meets : List (String × String) → List Received
meets [] = []
meets ((channel, payload) ∷ published) = message channel payload ∷ meets published

-- If the messages that wait for the hub and all that are published while the subscriber runs fit
-- into the buffer of 1000, those on the channels of confirmed orders, of failed orders and of the
-- tickets left that decode reach the hub's channel, in their order and after those that wait, and
-- those on other channels do not.
pub start-forwards :
    (e : Env) (published : List (String × String)) (queue : List WebSocketMessage)
    → length queue + length published ≤ hub_buffer_size
    → start e (meets published) queue ≡ queue ++ decodable e published
unfolding start
start-forwards e [] queue h = sym (append-nil queue)
start-forwards e ((channel, payload) ∷ published) queue h =
    rw (start, hears_lem channel)
      (elim (Bool-cases (concerns_clients channel)) [
        | inr other ↦ rw other (start-forwards e published queue (omega arith))
        | inl heard ↦ elim (Result-cases (e.unmarshal_message payload)) [
          | inl (m, u) ↦
              let room : ltb (length queue) hub_buffer_size ≡ true = ground arith in
              rw (heard, u, room)
                (start-forwards e published (queue ++ m ∷ [])
                    (omega (arith, length-append queue (m ∷ [])))
                  ∙ append_assoc queue (m ∷ []) (decodable e published))
          | inr (x, u) ↦ rw (heard, u) (start-forwards e published queue (omega arith))
        ]
      ])
