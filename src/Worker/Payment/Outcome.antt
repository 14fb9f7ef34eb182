-- ===== src/Worker/Payment/Outcome.antt =====
-- What a simulated payment depends on, and how the rate decides it.
use ticketer.Base.{
  ℕ, zero, suc, ◌↔◌, ◌<◌, String, true, false, ◌≡◌, refl, ◌⊎◌, inl, inr, arith, ℤ, pos, ◌≤ℤ◌, ◌<ℤ◌,
  ltb_ℤ, if◌then◌else◌, Bool-cases,
}
use ticketer.Platform.Env.{Env}
use ticketer.Platform.Action.{World}
use ticketer.Worker.Payment.{
  Payment, Simulator, new_simulator, failures, get_or, succeeded, failed, delay, process_payment,
}

-- rand.Intn(n) is below n.
abbrev pub DrawsBelow : Env → Type 0
DrawsBelow e = (n i : ℕ) → 0 < n → e.intn n i < n

module _ (e : Env) (sim : Simulator) where
  -- The outcome and the next draw of a payment that begins at draw n.
  unfoldable pub payment_at : ℕ → Payment × ℕ
  payment_at n =
      if e.cancelled (delay (e.intn 400 n)) (suc n)
      then (failed "payment processing timed out", suc (suc n))
      else if ltb_ℤ (pos (e.intn 100 (suc (suc n)))) sim.success_rate
      then (succeeded, suc (suc (suc n)))
      else (failed (get_or failures (e.intn 4 (suc (suc (suc n))))), suc (suc (suc (suc n))))

  -- A payment reads the draws and changes their count, and nothing else.
  pub process_payment_lem :
      (w : World e.Store)
      → let (p, n) = payment_at w.draws in process_payment e sim w ≡ (p, record w { draws = n })
  unfolding process_payment payment_at
  process_payment_lem w =
      elim (Bool-cases (e.cancelled (delay (e.intn 400 w.draws)) (suc w.draws))) [
        | inl c ↦ rw c
        | inr c ↦
            elim (Bool-cases (ltb_ℤ (pos (e.intn 100 (suc (suc w.draws)))) sim.success_rate)) [
              | inl l ↦ rw c (rw l)
              | inr l ↦ rw c (rw l)
            ]
      ]

  -- A payment that is not cut off succeeds exactly if the roll is below the rate.
  payment_at-success :
      (n : ℕ)
      → ((payment_at n).0.success ≡ true) ↔ (
          (e.cancelled (delay (e.intn 400 n)) (suc n) ≡ false)
          × (pos (e.intn 100 (suc (suc n))) <ℤ sim.success_rate))
  unfolding payment_at
  payment_at-success n = (λ h. ground arith, λ h. ground arith)

abbrev pub IsReason : String → Type 0
IsReason r =
    (r ≡ "payment processing timed out")
    ⊎ (r ≡ "insufficient_funds")
    ⊎ (r ≡ "card_declined")
    ⊎ (r ≡ "payment_gateway_timeout")
    ⊎ (r ≡ "fraud_detection_triggered")

get_or-IsReason : (i : ℕ) → i < 4 → IsReason (get_or failures i)
get_or-IsReason zero h = inr (inl refl)
get_or-IsReason (suc zero) h = inr (inr (inl refl))
get_or-IsReason (suc (suc zero)) h = inr (inr (inr (inl refl)))
get_or-IsReason (suc (suc (suc zero))) h = inr (inr (inr (inr refl)))
get_or-IsReason (suc (suc (suc (suc i)))) h = absurd (omega arith)

clamp_keeps :
    (rate : ℤ) (roll : ℕ)
    → roll < 100
    → (pos roll <ℤ (new_simulator rate).success_rate) ↔ (pos roll <ℤ rate)
unfolding new_simulator
clamp_keeps rate roll h = (λ l. ground arith, λ l. ground arith)

payment_at-reason :
    (e : Env) (sim : Simulator) (n : ℕ)
    → DrawsBelow e
    → (payment_at e sim n).0.success ≡ false
    → IsReason (payment_at e sim n).0.reason
unfolding payment_at
payment_at-reason e sim n below = elim (Bool-cases (e.cancelled (delay (e.intn 400 n)) (suc n))) [
  | inl c ↦ rw c (λ h. inl refl)
  | inr c ↦ elim (Bool-cases (ltb_ℤ (pos (e.intn 100 (suc (suc n)))) sim.success_rate)) [
    | inl l ↦ rw c (rw l (λ h. cc))
    | inr l ↦ rw c (rw l (λ h. get_or-IsReason _ (below 4 (suc (suc (suc n))) (omega arith))))
  ]
]

-- With every drawn number below its bound, a payment of a simulator made for any rate succeeds
-- exactly if the context does not end first and the roll of 100 is below that rate, and otherwise
-- has one of the five reasons.
pub process_payment_outcome :
    (e : Env) (rate : ℤ) (w : World e.Store)
    → DrawsBelow e
    → let p = (process_payment e (new_simulator rate) w).0 in
      let roll = e.intn 100 (suc (suc w.draws)) in
      let cut = e.cancelled (delay (e.intn 400 w.draws)) (suc w.draws) in
      ((p.success ≡ true) ↔ ((cut ≡ false) × (pos roll <ℤ rate)))
      × (p.success ≡ false → IsReason p.reason)
process_payment_outcome e rate w below =
    let keeps = clamp_keeps rate (e.intn 100 (suc (suc w.draws))) (below 100 _ (omega arith)) in
    let paid = payment_at-success e (new_simulator rate) w.draws in
    rw (process_payment_lem e (new_simulator rate) w) (
      (λ h. ((paid.0 h).0, keeps.0 (paid.0 h).1), λ h. paid.1 (h.0, keeps.1 h.1)),
      payment_at-reason e (new_simulator rate) w.draws below,
    )

-- The rate is clamped to a percentage.
pub new_simulator_bounds :
    (rate : ℤ)
    → let s = new_simulator rate in (pos 0 ≤ℤ s.success_rate) × (s.success_rate ≤ℤ pos 100)
unfolding new_simulator
new_simulator_bounds rate = ground arith
