-- ===== src/Worker/Main/Running.antt =====
-- When the worker runs, and what it is wired to then.
use Prim.Native.String.{◌++◌, len}
use text.Mathlib.TextPositions.{len-append}
use ticketer.Base.{
  ℕ, String, ◌≡◌, ◌≢◌, refl, ap, arith, inl, inr, Result, ok, err, Result-cases, pos, ◌≤ℤ◌,
}
use ticketer.Platform.Env.{Env}
use ticketer.Platform.Action.{World}
use ticketer.Platform.Startup.{Host, await_redis-store}
use ticketer.Telemetry.{Otel}
use ticketer.Worker.Payment.Outcome.{new_simulator_bounds}
use ticketer.Worker.Main.{
  Database, Worker, Boot, fatal, running, worker, configured, traced, repository_at, start_up,
}

own_group : (group : String) → (group ++ "-dlq") ≢ group
own_group group h = omega (arith, len-append group "-dlq", ap len h)

-- What the start-up comes to, by the outcome of NewRepository. Retries go where the orders are read,
-- dead orders where the second reader reads, which is of a group of its own.
abbrev pub Outcome :
    (e : Env) → Host → Otel → World e.Store → Result ℕ → Boot × World e.Store → Type 0
Outcome e host otel w (err m) (boot, w') =
    (boot ≡ fatal ("❌ Failed to connect to database: " ++ m)) × (w' ≡ w)
Outcome e host otel w (ok pool) (boot, w') =
    (g : Worker) × (boot ≡ running g)
    × (g ≡ worker (configured host) (traced host otel) pool)
    × (g.order_consumer.retry_writer.topic ≡ g.order_consumer.reader.topic)
    × (g.order_consumer.dlq_writer.topic ≡ g.dlq_consumer.reader.topic)
    × (g.dlq_consumer.reader.group_id ≢ g.order_consumer.reader.group_id)
    × (pos 0 ≤ℤ g.order_consumer.payment.success_rate)
    × (g.order_consumer.payment.success_rate ≤ℤ pos 100)
    × (w'.redis ≡ w.redis)
    × (w'.orders ≡ w.orders)
    × (w'.log ≡ w.log)

-- Over any network, the worker runs exactly if NewRepository gives a pool, whatever became of the
-- pings of Redis, and otherwise ends with nothing changed. A worker that runs writes its retries to
-- the topic that it reads orders from, and dead orders to the topic of its second reader, which is
-- in a group of its own; its payment rate is a percentage, and the store, the table and the log are
-- as they were.
pub start_up-Outcome :
    (e : Env) (host : Host) (db : Database) (otel : Otel) (w : World e.Store)
    → Outcome e host otel w (repository_at host db) (start_up e host db otel w)
unfolding start_up
start_up-Outcome e host db otel w = elim (Result-cases (repository_at host db)) [
  | inl (pool, r) ↦
      let same = await_redis-store e 30 w in
      let rate = new_simulator_bounds (configured host).payment_success_rate in
      let own = own_group (configured host).kafka_group_id in
      rw r (_, refl, refl, refl, refl, own, rate.0, rate.1, same.0, same.2, same.3)
  | inr (m, r) ↦ rw r (refl, refl)
]
