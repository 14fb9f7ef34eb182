-- ===== src/Tests/Loops.antt =====
-- The theorems on loops, applied to short runs of them.
use ticketer.Base.{
  negsuc, ◌-◌, some, ◌*◌, ◌^◌, ℕ, eqb, String, Bool, true, false, none, ◌≡◌, refl, arith, List, [],
  ◌∷◌, pos, ok,
}
use ticketer.Platform.Env.{Env, reply_lost}
use ticketer.Platform.Uuid.{same_uuid, uuid_digits, lower_digit}
use ticketer.Strconv.{atoi_kept}
use ticketer.Platform.Action.{World}
use ticketer.Worker.Reader.{Read, message, failed}
use ticketer.Worker.Repository.{has_key, has_id}
use ticketer.Worker.Repository.Keyed.{IsKeyed}
use ticketer.Worker.Repository.Connect.{new_repository, new_repository-unanswered}
use ticketer.Worker.Consumer.{pending_order, backoff}
use ticketer.Worker.Consumer.Backoff.{backoff_exact}
use ticketer.Worker.Consumer.Start
use ticketer.Worker.Consumer.Start.{Appended, start-Appended}
use ticketer.Gateway.Subscriber
use ticketer.Gateway.Subscriber.Notify.{decodable, meets, start-forwards}
use ticketer.Tests.Server.{Memory}
use ticketer.Tests.Wire.{attempt, first}
use ticketer.Tests.Runs.{env, online, first_call, settings, world, always_paid, taken_memory}

abbrev lossy : Env
lossy = env (first_call (reply_lost "i/o timeout"))

abbrev reads : List Read
reads = message first ∷ failed false ∷ message first ∷ message "{" ∷ failed true ∷ []

start-Appended_example :
    Appended lossy
      (settings (pos 3))
      always_paid
      []
      (Start.start lossy (settings (pos 3)) always_paid reads (world taken_memory [])).1.orders
start-Appended_example =
    start-Appended lossy (settings (pos 3)) always_paid reads (world taken_memory [])

abbrev row : World Memory
row = world taken_memory (pending_order (attempt (pos 0)) ∷ [])

row-IsKeyed : IsKeyed row.orders
unfolding has_key has_id
row-IsKeyed = (refl, refl, tt)

abbrev published : List (String × String)
published =
    ("order:confirmed", "Payment successful! Your ticket is confirmed. 🎉")
    ∷ ("order:refunded", "Payment successful! Your ticket is confirmed. 🎉")
    ∷ ("order:failed", "{")
    ∷ []

start-forwards_example : Subscriber.start online (meets published) [] ≡ decodable online published
start-forwards_example = start-forwards online published [] (omega arith)

-- The first two attempts make no pool, and the third one's pool answers.
abbrev third : ℕ → Bool
third n = eqb n 2

new_repository-unanswered_example :
    new_repository (λ dsn. none) (λ n. true) (λ n. false) "postgres://" ≡ ok 29
new_repository-unanswered_example =
    new_repository-unanswered (λ dsn. none) (λ n. true) (λ n. false) "postgres://" refl (λ j. refl)
      refl

backoff_exact_example : backoff (pos 2) ≡ some (pos (500000000 * 2 ^ 2))
backoff_exact_example = backoff_exact 2 (omega arith)

-- Two texts of one UUID, and the numbers that Atoi keeps beside an error.
spellings :
    same_uuid "550E8400-E29B-41D4-A716-446655440000" "{550e8400e29b41d4a716446655440000}" ≡ true
unfolding uuid_digits lower_digit
spellings = refl

kept_numbers :
    (atoi_kept "12x" ≡ pos 0)
    × (atoi_kept "-12" ≡ negsuc 11)
    × (atoi_kept "9223372036854775808" ≡ pos (2 ^ 63 - 1))
    × (atoi_kept "-99999999999999999999x" ≡ negsuc (2 ^ 63 - 1))
unfolding atoi_kept
kept_numbers = (refl, refl, refl, refl)
