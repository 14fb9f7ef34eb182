-- ===== src/Gateway/Subscriber.antt =====
-- services/api-gateway/redis/subscriber.go: published messages on their way to the hub.
pub mod Notify
use ticketer.Base.{
  ◌==◌, ◌||◌, ℕ, ltb, leb, length, ◌+◌, ◌≤◌, String, Bool, true, false, Option, none, some, ◌≡◌,
  refl, List, [], ◌∷◌, ◌++◌, Result, ok, err, if◌then◌else◌,
}
use ticketer.Shared.Events.{
  WebSocketMessage, channel_order_confirmed, channel_order_failed, channel_inventory_update,
}
use ticketer.Platform.Env.{Env}

-- The buffer of the channel to the hub, as services/api-gateway/main.go makes it.
abbrev pub hub_buffer_size : ℕ
hub_buffer_size = 1000

-- What happens while the loop runs: the end of the context, the end of the subscription, or a message
-- that is published in Redis on a channel.
pub data Received : Type 0 where
  cancelled ended : Received
  message : String → String → Received

-- The arguments of Subscribe: Redis delivers the messages on these channels, and no other.
abbrev pub subscribed : List String
subscribed = channel_order_confirmed ∷ channel_order_failed ∷ channel_inventory_update ∷ []

-- Is a channel one of those that were named to Subscribe?
unfoldable pub hears : List String → String → Bool
hears [] channel = false
hears (c ∷ channels) channel = c == channel || hears channels channel

-- `select { case s.msgChan <- wsMsg: default: }`
abbrev pub forward : WebSocketMessage → List WebSocketMessage → List WebSocketMessage
forward m queue = if ltb (length queue) hub_buffer_size then queue ++ m ∷ [] else queue

abbrev pub forwarded : Result WebSocketMessage → List WebSocketMessage → List WebSocketMessage
forwarded (err _) queue = queue
forwarded (ok m) queue = forward m queue

-- Start, over what happens while it runs, with the messages that wait for the hub; the hub takes none
-- meanwhile. The list ends where the run is looked at.
unfoldable pub start : (e : Env) → List Received → List WebSocketMessage → List WebSocketMessage
start e [] queue = queue
start e (cancelled ∷ rest) queue = queue
start e (ended ∷ rest) queue = queue
start e (message channel payload ∷ rest) queue =
    start e rest
      (if hears subscribed channel then forwarded (e.unmarshal_message payload) queue else queue)
