-- ===== src/Tests/Connections.antt =====
-- The theorems on the hub, applied to two clients of one user and one of another.
use ticketer.Base.{
  Option, ◌≢◌, ℕ, eqb, String, some, none, ◌≡◌, refl, [], ◌∷◌, ◌==◌, inl, inr, Bool-cases, eq_iff,
  if◌then◌else◌,
}
use ticketer.Shared.Events.{WebSocketMessage, absent}
use ticketer.Gateway.Server.{socket_user}
use ticketer.Gateway.Server.Sockets.{run-anonymous}
use ticketer.Gateway.Hub.{
  Hub, new_hub, run, new_channel, lookup, register, unregister, inbound, step,
}
use ticketer.Gateway.Hub.Wired.{member, offered, IsWired}
use ticketer.Gateway.Hub.Delivery.{addressed, step-delivers}
use ticketer.Gateway.Hub.Order.{SameHub, SameOutcome, step-SameOutcome}
use ticketer.Gateway.Hub.Replaced.{Fits, step-IsWired}
use ticketer.Tests.Runs.{online}

abbrev user : ℕ → String
user c = if eqb c 3 then "user-2" else "user-1"

abbrev hub : Hub
hub = record { clients = 1 ∷ 3 ∷ []; channels = λ c. new_channel }

hub-IsWired : IsWired user hub.channels hub.clients
unfolding lookup
hub-IsWired = (refl, refl, (refl, refl, tt))

abbrev confirmed : WebSocketMessage
confirmed = record {
  type = "order_confirmed";
  order_id = "order-1";
  user_id = "user-1";
  status = "confirmed";
  message = "Payment successful!";
  extra = absent;
}

step-delivers_example :
    (h' : Hub) × (step user online (inbound confirmed) hub ≡ some h')
    × (h'.clients ≡ hub.clients)
    × ((c : ℕ)
        → h'.channels c ≡ (
            if member c hub.clients
            then offered "Payment successful!" (addressed user "user-1" "Payment successful!" hub c)
            else hub.channels c))
step-delivers_example =
    step-delivers user online confirmed hub hub-IsWired "Payment successful!" "Payment successful!"
      refl refl refl

different : ◌≡◌ {A = Option ℕ} (some 1) (some 2) → ⊥
different h = cc

second_Fits : Fits user online hub (register 2)
unfolding lookup
second_Fits = (refl, different)

step-IsWired_example :
    (h' : Hub) × (step user online (register 2) hub ≡ some h') × IsWired user h'.channels h'.clients
step-IsWired_example = step-IsWired user online (register 2) hub hub-IsWired second_Fits

abbrev turned : Hub
turned = record { clients = 3 ∷ 1 ∷ []; channels = λ c. new_channel }

turned-IsWired : IsWired user turned.channels turned.clients
unfolding lookup
turned-IsWired = (refl, refl, (refl, refl, tt))

same_lookup : (name : String) → lookup user name hub.clients ≡ lookup user name turned.clients
unfolding lookup
same_lookup name = elim (Bool-cases ("user-1" == name)) [
  | inl q ↦ let p : "user-1" ≡ name = (eq_iff "user-1" name).0 q in rw (← p) refl
  | inr q ↦ rw q refl
]

same_clients : SameHub user hub turned
same_clients = (same_lookup, λ c. refl)

step-SameOutcome_example :
    SameOutcome user
      (step user online (inbound confirmed) hub)
      (step user online (inbound confirmed) turned)
step-SameOutcome_example =
    step-SameOutcome user online (inbound confirmed) hub turned hub-IsWired turned-IsWired
      same_clients

-- Two browsers that name no user.
abbrev unnamed : ℕ → String
unnamed c = socket_user none

abbrev empty : Hub
empty = new_hub (λ c. new_channel)

absent_first : ◌≡◌ {A = Option ℕ} none (some 1) → ⊥
absent_first h = cc

not_yet : lookup unnamed "anonymous" empty.clients ≢ some 1
unfolding lookup
not_yet = absent_first

run-anonymous_example :
    run unnamed online (register 1 ∷ register 2 ∷ unregister 1 ∷ []) empty ≡ none
run-anonymous_example = run-anonymous unnamed online 1 2 empty tt refl not_yet refl refl
