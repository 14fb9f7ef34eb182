-- ===== src/Gateway/Hub.antt =====
-- services/api-gateway/websocket/hub.go: the hub's event loop and the clients' send channels.
pub mod Wired
pub mod Delivery
pub mod Entries
pub mod Replaced
pub mod Pumps
pub mod Order
use ticketer.Base.{
  ℕ, suc, ltb, eqb, length, String, Bool, true, false, Option, none, some, ◌==◌, List, [], ◌∷◌,
  ◌++◌, Result, ok, err, if◌then◌else◌,
}
use ticketer.Shared.Events.{WebSocketMessage, absent}
use ticketer.Platform.Env.{Env}

-- const sendBufferSize
abbrev pub send_buffer_size : ℕ
send_buffer_size = 256

-- A Go channel of texts: what waits in its buffer, the oldest first, and whether it is closed.
pub record Channel : Type 0 where
  pub waiting : List String
  pub closed : Bool

-- make(chan []byte, sendBufferSize)
abbrev pub new_channel : Channel
new_channel = record { waiting = []; closed = false }

-- A client stands for its pointer. The hub's map has the key `c.userID` for each client c, since its
-- only write is `h.clients[client.userID] = client`. The channels are those in the field `send`.
pub record Hub : Type 0 where
  pub clients : List ℕ
  pub channels : ℕ → Channel

-- NewHub
abbrev pub new_hub : (ℕ → Channel) → Hub
new_hub channels = record { clients = []; channels = channels }

abbrev pub put : ℕ → Channel → (ℕ → Channel) → ℕ → Channel
put c ch channels d = if eqb c d then ch else channels d

-- `select { case ch <- data: default: }`; `none` is the panic of a send on a closed channel.
unfoldable pub offer : String → Channel → Option Channel
offer payload ch =
    if ch.closed
    then none
    else if ltb (length ch.waiting) send_buffer_size
    then some (record ch { waiting = ch.waiting ++ payload ∷ [] })
    else some ch

-- close(ch); `none` is the panic of closing a closed channel.
unfoldable pub close_channel : Channel → Option Channel
close_channel ch = if ch.closed then none else some (record ch { closed = true })

abbrev update : ℕ → Option Channel → (ℕ → Channel) → Option (ℕ → Channel)
update c none channels = none
update c (some ch) channels = some (put c ch channels)

abbrev pub send : ℕ → String → (ℕ → Channel) → Option (ℕ → Channel)
send c payload channels = update c (offer payload (channels c)) channels

abbrev pub close : ℕ → (ℕ → Channel) → Option (ℕ → Channel)
close c channels = update c (close_channel (channels c)) channels

-- The loop of broadcast over the clients.
unfoldable pub broadcast : List ℕ → String → (ℕ → Channel) → Option (ℕ → Channel)
broadcast [] payload channels = some channels
broadcast (c ∷ clients) payload channels = elim (send c payload channels) [
  | none ↦ none
  | some channels' ↦ broadcast clients payload channels'
]

-- The feed event of a message, without its user.
abbrev pub feed_message : WebSocketMessage → WebSocketMessage
feed_message m = record {
  type = "feed";
  order_id = m.order_id;
  user_id = "";
  status = m.status;
  message = m.message;
  extra = absent;
}

abbrev with_channels : Hub → Option (ℕ → Channel) → Option Hub
with_channels h none = none
with_channels h (some channels) = some (record h { channels = channels })

-- What one pass of Run's `select` takes up.
pub data Event : Type 0 where
  register unregister : ℕ → Event
  inbound : WebSocketMessage → Event

-- The field `userID` of a client, which never changes.
module _ (user_id : ℕ → String) where
  -- `h.clients[user]`
  unfoldable pub lookup : String → List ℕ → Option ℕ
  lookup user [] = none
  lookup user (c ∷ clients) = if user_id c == user then some c else lookup user clients

  -- `delete(h.clients, user)`
  unfoldable pub delete : String → List ℕ → List ℕ
  delete user [] = []
  delete user (c ∷ clients) =
      let rest = delete user clients in if user_id c == user then rest else c ∷ rest

  abbrev pub enter : ℕ → Hub → Hub
  enter c h = record h { clients = h.clients ++ c ∷ [] }

  abbrev pub leave : ℕ → Option (ℕ → Channel) → Hub → Option Hub
  leave c none h = none
  leave c (some channels) h =
      some (record { clients = delete (user_id c) h.clients; channels = channels })

  abbrev replace : Option Hub → ℕ → Option Hub
  replace none c = none
  replace (some h) c = some (enter c h)

  -- A new client of a user takes the place of the user's existing one, whose channel is closed.
  abbrev registered : Option ℕ → ℕ → Hub → Option Hub
  registered none c h = some (enter c h)
  registered (some existing) c h = replace (leave c (close existing h.channels) h) c

  abbrev unregistered : Option ℕ → ℕ → Hub → Option Hub
  unregistered none c h = some h
  unregistered (some _) c h = leave c (close c h.channels) h

  abbrev to_user : Option ℕ → String → (ℕ → Channel) → Option (ℕ → Channel)
  to_user none payload channels = some channels
  to_user (some c) payload channels = send c payload channels

  -- sendToUser
  unfoldable pub send_to_user : String → String → Hub → Option (ℕ → Channel)
  send_to_user user payload h = to_user (lookup user h.clients) payload h.channels

  module _ (e : Env) where
    abbrev feed : Result String → Option (ℕ → Channel) → Hub → Option (ℕ → Channel)
    feed r none h = none
    feed (err _) (some channels) h = some channels
    feed (ok payload) (some channels) h = broadcast h.clients payload channels

    abbrev pub routed : Result String → WebSocketMessage → Hub → Option (ℕ → Channel)
    routed (err _) m h = some h.channels
    routed (ok payload) m h =
        if m.type == "inventory_update"
        then broadcast h.clients payload h.channels
        else feed (e.marshal_message (feed_message m)) (send_to_user m.user_id payload h) h

    -- One pass of Run; `none` is a panic, which ends the process.
    unfoldable pub step : Event → Hub → Option Hub
    step (register c) h = registered (lookup (user_id c) h.clients) c h
    step (unregister c) h = unregistered (lookup (user_id c) h.clients) c h
    step (inbound m) h = with_channels h (routed (e.marshal_message m) m h)

    -- Run
    unfoldable pub run : List Event → Hub → Option Hub
    run [] h = some h
    run (event ∷ events) h = elim (step event h) [ none ↦ none | some h' ↦ run events h' ]
