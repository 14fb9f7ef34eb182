-- ===== src/Worker/Consumer/Start.antt =====
-- services/order-worker/consumer/consumer.go: the reading loop, and the table after any run of it.
use ticketer.Json.Event.{unmarshal_event}
use ticketer.Base.{
  String, true, false, ◌≡◌, sym, ◌∙◌, ap, inl, inr, List, [], ◌∷◌, ◌++◌, append_assoc, append-nil,
  All-append, pos, Result-cases, All,
}
use ticketer.Shared.Models.{Order}
use ticketer.Shared.Events.{OrderEvent}
use ticketer.Shared.Config.{Config}
use ticketer.Platform.Env.{Env}
use ticketer.Platform.Action.{World, Action}
use ticketer.Worker.Payment.{Simulator}
use ticketer.Worker.Repository.Keyed.{IsKeyed, append-IsKeyed}
use ticketer.Worker.Consumer.{Exit, returned, panicked, sleep, process_message}
use ticketer.Worker.Consumer.Rows.{
  IsOutcome, Recorded, process_message-Recorded, process_message-unread,
}
use ticketer.Worker.Reader.{Read, cancelled, message, failed}

module _ (e : Env) (cfg : Config) (sim : Simulator) where
  -- Start, over what its passes meet; the list ends where the run is looked at. A panic of the
  -- handler ends the process.
  unfoldable pub start : List Read → Action e.Store Exit
  start [] w = (returned, w)
  start (cancelled ∷ reads) w = (returned, w)
  start (failed true ∷ reads) w = (returned, w)
  start (failed false ∷ reads) w = start reads (sleep (pos 1000000000) w).1
  start (message value ∷ reads) w =
      let (exit, w') = process_message e cfg sim value w in
      elim exit [ returned ↦ start reads w' | panicked ↦ (panicked, w') ]

  -- Rows were added at the end, each of them pending, confirmed or failed, and the keys of the table
  -- are still unique if they were.
  abbrev pub Appended : List Order → List Order → Type 0
  Appended rows rows' =
      (added : List Order) × (rows' ≡ rows ++ added)
      × All (λ o. IsOutcome o.status) added
      × (IsKeyed rows → IsKeyed rows')

  Appended-refl : (rows : List Order) → Appended rows rows
  Appended-refl rows = ([], sym (append-nil rows), tt, λ k. k)

  Appended-trans : (a b c : List Order) → Appended a b → Appended b c → Appended a c
  Appended-trans a b c (xs, p, s, k) (ys, q, t, l) = (
    xs ++ ys,
    q ∙ ap (λ rows. rows ++ ys) p ∙ append_assoc a xs ys,
    All-append (λ o. IsOutcome o.status) xs ys s t,
    λ h. l (k h),
  )

  Recorded-Appended :
      (v : OrderEvent) (rows rows' : List Order) → Recorded v rows rows' → Appended rows rows'
  Recorded-Appended v rows rows' (inl same) = rw same (Appended-refl rows)
  Recorded-Appended v rows rows' (inr (o, p, i, k, hk, hi, s)) =
      (o ∷ [], p, (s, tt), λ h. rw p (append-IsKeyed o rows (rw k hk) (rw i hi) h))

  pub process_message-Appended :
      (value : String) (w : World e.Store)
      → Appended w.orders (process_message e cfg sim value w).1.orders
  process_message-Appended value w = elim (Result-cases (unmarshal_event e.clock value)) [
    | inl (v, u) ↦ Recorded-Appended v _ _ (process_message-Recorded e cfg sim value v w u)
    | inr (m, u) ↦ rw (process_message-unread e cfg sim value m w u) (Appended-refl w.orders)
  ]

  after_exit-Appended :
      (rows : List Order) (exit : Exit) (w : World e.Store) (reads : List Read)
      → Appended rows w.orders
      → Appended rows (start reads w).1.orders
      → let next : Exit × World e.Store = elim exit [
        | returned ↦ start reads w
        | panicked ↦ (panicked, w)
      ] in
        Appended rows next.1.orders
  after_exit-Appended rows returned w reads a b = b
  after_exit-Appended rows panicked w reads a b = a

  -- Over any network, after any run of the reading loop the rows of the table are as they were,
  -- with rows added at the end that are pending, confirmed or failed, and the identifiers and
  -- idempotency keys are unique if they were before.
  pub start-Appended :
      (reads : List Read) (w : World e.Store) → Appended w.orders (start reads w).1.orders
  unfolding start
  start-Appended [] w = Appended-refl w.orders
  start-Appended (cancelled ∷ reads) w = Appended-refl w.orders
  start-Appended (failed true ∷ reads) w = Appended-refl w.orders
  start-Appended (failed false ∷ reads) w = start-Appended reads (sleep (pos 1000000000) w).1
  start-Appended (message value ∷ reads) w =
      let first = process_message-Appended value w in
      let w' : World e.Store = (process_message e cfg sim value w).1 in
      after_exit-Appended w.orders _ w' reads first
        (Appended-trans w.orders w'.orders _ first (start-Appended reads w'))
