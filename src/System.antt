-- ===== src/System.antt =====
-- The services together: from the worker's confirmation to the client of the user.
pub mod Sound
pub mod Steps
pub mod Booked
use ticketer.Json.Event.{unmarshal_event}
use ticketer.Base.{
  arith, List, ℕ, String, true, false, some, ◌≡◌, refl, ◌∙◌, [], ◌∷◌, ◌++◌, eq_refl, ok,
}
use ticketer.Shared.Events.{OrderEvent, channel_order_confirmed}
use ticketer.Shared.Config.{Config}
use ticketer.Platform.Env.{accepts_row, Env, IsOnline}
use ticketer.Platform.Action.{World}
use ticketer.Gateway.Hub.{Hub, lookup, feed_message, inbound, step}
use ticketer.Gateway.Hub.Wired.{offered, IsWired}
use ticketer.Gateway.Hub.Delivery.{lookup-some, step-delivers}
use ticketer.Gateway.Subscriber.{start}
use ticketer.Gateway.Subscriber.Notify.{meets, start-forwards}
use ticketer.Worker.Payment.{Simulator}
use ticketer.Worker.Payment.Outcome.{payment_at}
use ticketer.Worker.Repository.{has_key, has_id}
use ticketer.Worker.Consumer.{pending_order, process_message}
use ticketer.Worker.Consumer.Paths.{confirmation, process_message-confirms}

-- Let every call be carried out, a message decode to an event whose keys are new in the table and
-- whose row and identifier the database accepts, its payment succeed, and the confirmation be
-- encoded, decode to itself and be encoded as a feed event; let the hub's registered clients have
-- open channels and different users, and the event's user be registered. Then the worker publishes
-- messages of which the gateway's subscriber, running meanwhile, hands just the confirmation to the
-- hub, and the hub offers it and the feed event to the user's client.
pub process_message-notifies :
    (e : Env) (cfg : Config) (sim : Simulator) (user_id : ℕ → String) (value text news : String)
    (v : OrderEvent) (w : World e.Store) (h : Hub) (c : ℕ)
    → IsOnline e
    → unmarshal_event e.clock value ≡ ok v
    → has_key v.idempotency_key w.orders ≡ false
    → has_id v.order_id w.orders ≡ false
    → accepts_row e (pending_order v) ≡ true
    → e.accepts_id v.order_id ≡ true
    → (payment_at e sim w.draws).0.success ≡ true
    → e.marshal_message (confirmation v) ≡ ok text
    → e.unmarshal_message text ≡ ok (confirmation v)
    → e.marshal_message (feed_message (confirmation v)) ≡ ok news
    → IsWired user_id h.channels h.clients
    → lookup user_id v.user_id h.clients ≡ some c
    → ((fresh : List (String × String)) × ((process_message e cfg sim value w).1.published
          ≡ w.published ++ fresh)
        × (start e (meets fresh) [] ≡ confirmation v ∷ []))
      × ((h' : Hub) × (step user_id e (inbound (confirmation v)) h ≡ some h')
          × (h'.channels c ≡ offered news (offered text (h.channels c))))
process_message-notifies e cfg sim user_id value text news v w h c online u hk hi ar ai paid m back
      f wired l =
    let (_, _, published, _, _, _) =
      process_message-confirms e cfg sim online value v w u hk hi ar ai text paid m in
    let (h', done, _, each) = step-delivers user_id e (confirmation v) h wired text news m f refl in
    let (mine, registered) = lookup-some user_id v.user_id c h.clients l in
    let fresh : List (String × String) = (channel_order_confirmed, text) ∷ [] in
    let heard = start-forwards e fresh [] (omega arith) in
    (
      (fresh, published, heard ∙ rw back refl),
      (h', done, each c ∙ rw (registered, mine, eq_refl v.user_id) refl),
    )
