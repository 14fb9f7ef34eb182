-- ===== src/Gateway/Main.antt =====
-- services/api-gateway/main.go: the start-up, the periodic update of two gauges, and the shutdown.
pub mod Serving
use Prim.Native.String.{◌++◌}
use ticketer.Base.{
  ℕ, String, Bool, true, false, Option, none, some, ◌==◌, List, [], ◌∷◌, ℤ, pos, Result, ok, err,
  if◌then◌else◌,
}
use ticketer.Shared.Config.{Config, load}
use ticketer.Platform.Env.{Env}
use ticketer.Platform.Action.{Action, ◌>>=◌, ◌>>◌, pure}
use ticketer.Platform.Startup.{Host, await_redis}
use ticketer.Telemetry.{TracerProvider, Otel, init_tracer}
use ticketer.Gateway.Gatekeeper.{new_gatekeeper, get_inventory}
use ticketer.Gateway.Hub.{Hub, new_channel, new_hub}
use ticketer.Gateway.Hub.Pumps.{connection_count}
use ticketer.Gateway.Events.{seed_event}

-- A kafka.Writer: where it writes, and how it picks a partition.
pub record Writer : Type 0 where
  pub addr : String
  pub topic : String
  pub balancer : String
  pub async : Bool

-- What main has made once the server listens.
pub record Gateway : Type 0 where
  pub config : Config
  pub tracer : Option TracerProvider
  pub otel : Otel
  pub writer : Writer
  pub hub : Hub
  pub addr : String

-- log.Fatalf with its text, or the running server.
pub data Boot : Type 0 where
  fatal : String → Boot
  serving : Gateway → Boot

abbrev order_writer : Config → Writer
order_writer cfg = record {
  addr = cfg.kafka_broker;
  topic = cfg.kafka_topic_orders;
  balancer = "hash";
  async = false;
}

-- `tp`, which is nil after an error: the gateway then goes on without tracing.
abbrev pub provider : Result TracerProvider → Option TracerProvider
provider (ok tp) = some tp
provider (err m) = none

abbrev pub gateway : Config → Result TracerProvider × Otel → Gateway
gateway cfg (tp, otel) = record {
  config = cfg;
  tracer = provider tp;
  otel = otel;
  writer = order_writer cfg;
  hub = new_hub (λ c. new_channel);
  addr = ":" ++ cfg.api_port;
}

-- The outcome of app.Listen, whose error comes at once if the address cannot be had.
abbrev listening : Option String → Gateway → Boot
listening (some m) g = fatal ("❌ Server error: " ++ m)
listening none g = serving g

abbrev pub configured : Host → Config
configured host = load host.getenv

-- The address to listen on.
abbrev pub address : Host → String
address host = ":" ++ (configured host).api_port

abbrev pub traced : Host → Otel → Result TracerProvider × Otel
traced host otel = init_tracer host "api-gateway" (configured host).jaeger_endpoint otel

-- What follows NewGatekeeper.
abbrev gated : Host → Result (Unit {0}) → Otel → Boot
gated host (err m) otel = fatal ("❌ Failed to initialize gatekeeper: " ++ m)
gated host (ok _) otel =
    listening (host.listen_error (address host)) (gateway (configured host) (traced host otel))

-- main up to app.Listen, from the globals of otel before it; 30 pings at most.
unfoldable pub start_up : (e : Env) → Host → Otel → Action e.Store Boot
start_up e host otel = do await_redis e 30; reply ← new_gatekeeper e; pure (gated host reply otel)

-- The gauges RedisInventoryCurrent and WebSocketConnectionsActive, which hold a number exactly below
-- 2^53.
pub record Gauges : Type 0 where
  pub redis_inventory : ℤ
  pub websocket_connections : ℕ

abbrev read_gauges : Result ℤ → Hub → Gauges → Gauges
read_gauges (ok inv) h g = record {
  redis_inventory = inv;
  websocket_connections = connection_count h;
}
read_gauges (err m) h g = record g { websocket_connections = connection_count h }

-- One tick of the updater.
unfoldable pub update_gauges : (e : Env) → Hub → Gauges → Action e.Store Gauges
update_gauges e h g = do reply ← get_inventory e seed_event; pure (read_gauges reply h g)

-- What the shutdown closes, in the order of the code.
pub data Closing : Type 0 where
  subscriber kafka_writer tracer redis server : Closing

-- An error of a closing is logged, and the next one follows.
abbrev closed : (Closing → Option String) → String → Closing → List String → List String
closed error prefix c rest = elim (error c) [ none ↦ rest | some m ↦ (prefix ++ m) ∷ rest ]

-- The goroutine that waits for a signal: the closings it goes through, and the lines it logs.
unfoldable pub shut_down :
    (Closing → Option String) → Option TracerProvider → List Closing × List String
shut_down error tp =
    let last =
      closed error "Error closing Redis: " redis
        (closed error "Error shutting down server: " server []) in
    elim tp [
      | none ↦ (
        subscriber ∷ kafka_writer ∷ redis ∷ server ∷ [],
        closed error "Error closing Kafka writer: " kafka_writer last,
      )
      | some _ ↦ (
        subscriber ∷ kafka_writer ∷ tracer ∷ redis ∷ server ∷ [],
        closed error "Error closing Kafka writer: " kafka_writer
            (closed error "Error shutting down tracer: " tracer last),
      )
    ]
