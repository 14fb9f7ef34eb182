-- ===== src/Gateway/Hub/Pumps.antt =====
-- services/api-gateway/websocket/hub.go: the pumps between a client's channel and its connection.
use ticketer.Base.{
  ℕ, String, Bool, true, false, Option, none, some, ◌≡◌, refl, ap, List, [], ◌∷◌, ◌++◌, map, length,
  if◌then◌else◌,
}
use ticketer.Platform.Env.{Env}
use ticketer.Gateway.Hub.{
  Channel, Hub, Event, lookup, delete, unregister, unregistered, update, put, close, leave,
  close_channel, step,
}
use ticketer.Gateway.Hub.Wired.{IsWired, eqb_self}
use ticketer.Gateway.Hub.Delivery.{lookup-some, wired-open}

-- What the write pump does to the connection: WriteMessage with each of its types, and Close.
pub data Frame : Type 0 where
  text : String → Frame
  farewell ping hang_up : Frame

-- What one pass of its `select` takes up: a message, the end of the channel, or a tick.
pub data Wake : Type 0 where
  received : String → Wake
  ended tick : Wake

-- WritePump, over its passes and whether each write succeeds; the list ends where the run is looked
-- at.
unfoldable pub write_pump : List (Wake × Bool) → List Frame
write_pump [] = []
write_pump ((received payload, fine) ∷ passes) =
    let rest = write_pump passes in text payload ∷ (if fine then rest else hang_up ∷ [])
write_pump ((tick, fine) ∷ passes) =
    let rest = write_pump passes in ping ∷ (if fine then rest else hang_up ∷ [])
write_pump ((ended, fine) ∷ passes) = farewell ∷ hang_up ∷ []

-- ReadPump, over whether each read succeeds: its end unregisters the client.
unfoldable pub read_pump : ℕ → List Bool → Option Event
read_pump c [] = none
read_pump c (true ∷ reads) = read_pump c reads
read_pump c (false ∷ reads) = some (unregister c)

-- ConnectionCount
unfoldable pub connection_count : Hub → ℕ
connection_count h = length h.clients

-- What a client's channel gives once it is closed, with every write a success.
abbrev pub drained : List String → List (Wake × Bool)
drained [] = (ended, true) ∷ []
drained (payload ∷ waiting) = (received payload, true) ∷ drained waiting

write_pump-drained :
    (waiting : List String)
    → write_pump (drained waiting) ≡ map text waiting ++ farewell ∷ hang_up ∷ []
unfolding write_pump
write_pump-drained [] = refl
write_pump-drained (payload ∷ waiting) =
    ap (λ frames. text payload ∷ frames) (write_pump-drained waiting)

-- Let the registered clients have open channels and different users, and a client be registered.
-- Its end takes it out of the map and closes its channel without a panic, and a write pump whose
-- writes succeed then writes all the texts that wait, in their order, a close frame, and hangs up.
pub step-farewell :
    (user_id : ℕ → String) (e : Env) (c : ℕ) (h : Hub)
    → IsWired user_id h.channels h.clients
    → lookup user_id (user_id c) h.clients ≡ some c
    → (h' : Hub) × (step user_id e (unregister c) h ≡ some h')
      × (h'.clients ≡ delete user_id (user_id c) h.clients)
      × ((h'.channels c).closed ≡ true)
      × (write_pump (drained (h'.channels c).waiting)
          ≡ map text (h.channels c).waiting ++ farewell ∷ hang_up ∷ [])
unfolding step close_channel
step-farewell user_id e c h k l =
    let (u, m) = lookup-some user_id (user_id c) c h.clients l in
    let open_c = wired-open user_id c h.channels h.clients k m in
    let ch : Channel = record (h.channels c) { closed = true } in
    rw (l, unregistered, close, open_c, update, leave)
      (
        record { clients = delete user_id (user_id c) h.clients; channels = put c ch h.channels },
        refl,
        refl,
        rw (eqb_self c) refl,
        rw (eqb_self c) (write_pump-drained (h.channels c).waiting),
      )
