-- ===== src/Worker/Payment.antt =====
-- services/order-worker/payment/simulator.go.
pub mod Outcome
use ticketer.Base.{
  ℕ, zero, suc, ◌+◌, String, Bool, true, false, List, [], ◌∷◌, ℤ, pos, ltb_ℤ, if◌then◌else◌,
}
use ticketer.Platform.Env.{Env}
use ticketer.Platform.Action.{Action, ◌>>=◌, ◌>>◌, pure, draw}

pub record Payment : Type 0 where
  pub success : Bool
  pub reason : String

pub record Simulator : Type 0 where
  pub success_rate : ℤ

-- NewSimulator
unfoldable pub new_simulator : ℤ → Simulator
new_simulator rate =
    let low = if ltb_ℤ rate (pos 0) then pos 0 else rate in
    record { success_rate = if ltb_ℤ (pos 100) low then pos 100 else low }

abbrev pub failures : List String
failures =
    "insufficient_funds" ∷ "card_declined" ∷ "payment_gateway_timeout" ∷ "fraud_detection_triggered"
    ∷ []

abbrev pub get_or : List String → ℕ → String
get_or [] i = ""
get_or (x ∷ xs) zero = x
get_or (x ∷ xs) (suc i) = get_or xs i

abbrev pub succeeded : Payment
succeeded = record { success = true; reason = "" }

abbrev pub failed : String → Payment
failed reason = record { success = false; reason = reason }

-- The delay in milliseconds, 100 + rand.Intn(400).
abbrev pub delay : ℕ → ℕ
delay roll = 100 + roll

module _ (e : Env) where
  abbrev judged : Bool → Action e.Store Payment
  judged true = pure succeeded
  judged false = do i ← draw e (e.intn 4); pure (failed (get_or failures i))

  abbrev waited : Bool → Simulator → Action e.Store Payment
  waited true sim = pure (failed "payment processing timed out")
  waited false sim = do roll ← draw e (e.intn 100); judged (ltb_ℤ (pos roll) sim.success_rate)

  -- ProcessPayment
  unfoldable pub process_payment : Simulator → Action e.Store Payment
  process_payment sim = do
    roll ← draw e (e.intn 400)
    -- the select between the timer and the end of the context
    done ← draw e (e.cancelled (delay roll))
    waited done sim
