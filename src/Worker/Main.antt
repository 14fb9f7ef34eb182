-- ===== src/Worker/Main.antt =====
-- services/order-worker/main.go: the start-up and the shutdown.
pub mod Running
use Prim.Native.String.{◌++◌}
use ticketer.Base.{
  ℕ, String, Bool, Option, none, some, List, [], ◌∷◌, ℤ, pos, negsuc, Result, ok, err,
}
use ticketer.Shared.Config.{Config, load, database_dsn}
use ticketer.Platform.Env.{Env}
use ticketer.Platform.Action.{Metrics, Action, ◌>>=◌, ◌>>◌, pure}
use ticketer.Platform.Startup.{Host, await_redis}
use ticketer.Telemetry.{TracerProvider, Otel}
use ticketer.Telemetry
use ticketer.Worker.Payment.{Simulator, new_simulator}
use ticketer.Worker.Collectors.{new_metrics}
use ticketer.Worker.Repository.Connect.{new_repository}

-- InitTracer of services/order-worker/telemetry/tracer.go
abbrev pub init_tracer : Host → String → Otel → Result TracerProvider × Otel
init_tracer host jaeger_endpoint otel =
    Telemetry.init_tracer host "order-worker" jaeger_endpoint otel

-- A kafka.Reader and a kafka.Writer: what they read or write.
pub record Reader : Type 0 where
  pub brokers : List String
  pub topic : String
  pub group_id : String

pub record Writer : Type 0 where
  pub addr : String
  pub topic : String
  pub balancer : String

-- pgx, as NewRepository meets it.
pub record Database : Type 0 where
  pub parses : String → Option String
  pub makes : ℕ → Bool
  pub pings : ℕ → Bool

-- OrderConsumer of consumer.go; the repository is the pool of an attempt.
pub record OrderConsumer : Type 0 where
  pub reader : Reader
  pub dlq_writer : Writer
  pub retry_writer : Writer
  pub repository : ℕ
  pub payment : Simulator
  pub config : Config
  pub metrics : Metrics

-- DLQConsumer of dlq.go
pub record DlqConsumer : Type 0 where
  pub reader : Reader
  pub repository : ℕ
  pub metrics : Metrics

-- What main has made once it waits for a signal.
pub record Worker : Type 0 where
  pub tracer : Option TracerProvider
  pub otel : Otel
  pub order_consumer : OrderConsumer
  -- the goroutines that run its Start
  pub consumers : ℕ
  pub dlq_consumer : DlqConsumer
  pub metrics_addr : String

pub data Boot : Type 0 where
  fatal : String → Boot
  running : Worker → Boot

abbrev provider : Result TracerProvider → Option TracerProvider
provider (ok tp) = some tp
provider (err m) = none

-- The rounds of `for i := 0; i < count; i++`
abbrev pub rounds : ℤ → ℕ
rounds (pos n) = n
rounds (negsuc n) = 0

abbrev new_reader : Config → String → String → Reader
new_reader cfg topic group_id = record {
  brokers = cfg.kafka_broker ∷ [];
  topic = topic;
  group_id = group_id;
}

abbrev new_writer : Config → String → String → Writer
new_writer cfg topic balancer = record {
  addr = cfg.kafka_broker;
  topic = topic;
  balancer = balancer;
}

abbrev new_order_consumer : Config → ℕ → OrderConsumer
new_order_consumer cfg repository = record {
  reader = new_reader cfg cfg.kafka_topic_orders cfg.kafka_group_id;
  dlq_writer = new_writer cfg cfg.kafka_topic_dlq "least bytes";
  retry_writer = new_writer cfg cfg.kafka_topic_orders "hash";
  repository = repository;
  payment = new_simulator cfg.payment_success_rate;
  config = cfg;
  metrics = new_metrics;
}

abbrev new_dlq_consumer : Config → ℕ → DlqConsumer
new_dlq_consumer cfg repository = record {
  reader = new_reader cfg cfg.kafka_topic_dlq (cfg.kafka_group_id ++ "-dlq");
  repository = repository;
  metrics = new_metrics;
}

abbrev pub worker : Config → Result TracerProvider × Otel → ℕ → Worker
worker cfg (tp, otel) repository = record {
  tracer = provider tp;
  otel = otel;
  order_consumer = new_order_consumer cfg repository;
  consumers = rounds cfg.consumer_count;
  dlq_consumer = new_dlq_consumer cfg repository;
  metrics_addr = ":" ++ cfg.worker_metrics_port;
}

abbrev pub configured : Host → Config
configured host = load host.getenv

abbrev pub traced : Host → Otel → Result TracerProvider × Otel
traced host otel = init_tracer host (configured host).jaeger_endpoint otel

-- What follows NewRepository.
abbrev connected : (e : Env) → Host → Otel → Result ℕ → Action e.Store Boot
connected e host otel (err m) = pure (fatal ("❌ Failed to connect to database: " ++ m))
connected e host otel (ok repository) = do
  await_redis e 30
  pure (running (worker (configured host) (traced host otel) repository))

abbrev pub repository_at : Host → Database → Result ℕ
repository_at host db = new_repository db.parses db.makes db.pings (database_dsn (configured host))

-- main up to the wait for a signal
unfoldable pub start_up : (e : Env) → Host → Database → Otel → Action e.Store Boot
start_up e host db otel = connected e host otel (repository_at host db)

-- What the shutdown closes, by the code; the last three are the deferred calls, the last of them first.
pub data Closing : Type 0 where
  context order_reader dlq_reader dlq_writer retry_writer redis metrics_server tracer : Closing
  shutdown_context repository : Closing

-- An error of a closing is logged, and the next one follows.
abbrev logged : (Closing → Option String) → String → Closing → List String → List String
logged error prefix c rest = elim (error c) [ none ↦ rest | some m ↦ (prefix ++ m) ∷ rest ]

abbrev tracer_last : Option TracerProvider → List Closing → List Closing
tracer_last none rest = rest
tracer_last (some _) rest = tracer ∷ rest

abbrev tracer_logged : (Closing → Option String) → Option TracerProvider → List String
tracer_logged error none = []
tracer_logged error (some _) = logged error "Error shutting down tracer: " tracer []

-- main from the signal to its end: the closings and the lines about their errors. That of the metrics
-- server is dropped.
unfoldable pub shut_down :
    (Closing → Option String) → Option TracerProvider → List Closing × List String
shut_down error tp = (
  context
      ∷ order_reader
      ∷ dlq_reader
      ∷ dlq_writer
      ∷ retry_writer
      ∷ redis
      ∷ metrics_server
      ∷ tracer_last tp (shutdown_context ∷ repository ∷ context ∷ []),
  logged error "Error closing order reader: " order_reader (
      logged error "Error closing DLQ reader: " dlq_reader (
        logged error "Error closing DLQ writer: " dlq_writer (
          logged error "Error closing retry writer: " retry_writer
            (logged error "Error closing Redis: " redis (tracer_logged error tp))))),
)
