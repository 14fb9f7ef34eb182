-- ===== src/Gateway/Server/Sockets.antt =====
-- services/api-gateway/main.go: connections to /ws that name no user.
use ticketer.Base.{ℕ, String, false, none, some, ◌≡◌, ◌≢◌, refl, sym, ◌∙◌, [], ◌∷◌}
use ticketer.Platform.Env.{Env}
use ticketer.Gateway.Hub.{Hub, lookup, register, unregister, run}
use ticketer.Gateway.Hub.Wired.{IsWired}
use ticketer.Gateway.Hub.Replaced.{step-registers, step-replaced}
use ticketer.Gateway.Server.{socket_user}

module _ (user_id : ℕ → String) (e : Env) where
  -- Let the registered clients have open channels and different users, and a client with an open
  -- channel that is not registered, and a second one, both come from connections to /ws that name
  -- no user. When the first registers, then the second, and the first ends, the hub panics, which
  -- ends the gateway.
  pub run-anonymous :
      (c d : ℕ) (h : Hub)
      → IsWired user_id h.channels h.clients
      → (h.channels c).closed ≡ false
      → lookup user_id (user_id c) h.clients ≢ some c
      → user_id c ≡ socket_user none
      → user_id d ≡ socket_user none
      → run user_id e (register c ∷ register d ∷ unregister c ∷ []) h ≡ none
  unfolding run
  run-anonymous c d h k o n u v =
      let (h₁, first, wired, found) = step-registers user_id e c h k o n in
      let (h₂, second, _, panics) = step-replaced user_id e c d h₁ wired found (v ∙ sym u) in
      rw (run, first) (rw (run, second) (rw (run, panics) refl))
