-- ===== src/Tests/Runs.antt =====
-- Environments over the server in memory, a sale, a request and its event.
use ticketer.Base.{
  ℕ, eqb, String, true, false, none, some, ◌≡◌, refl, arith, ◌==◌, ℤ, pos, Result, ok, err,
  if◌then◌else◌, [], List, ◌^◌, ◌<ℤ◌,
}
use ticketer.Shared.Events.{WebSocketMessage}
use ticketer.Shared.Config.{Config}
use ticketer.Platform.Env.{Env, Delivery, delivered, IsOnline}
use ticketer.Platform.Action.{World}
use ticketer.Shared.Events.{inventory_key, user_lock_key}
use ticketer.Shared.Models.{Order}
use ticketer.Platform.Redis.{int}
use ticketer.Gateway.Gatekeeper.{gatekeeper_source, gatekeeper_script, result_success}
use ticketer.Gateway.Gatekeeper.Reserve.{Sale, reserve, Shows, script-reserve}
use ticketer.Gateway.Events.Start.{restock, set-Shows}
use ticketer.Worker.Payment.{Simulator}
use ticketer.Worker.Consumer.Paths.{confirmation}
use ticketer.Tests.Wire.{clock, attempt}
use ticketer.Tests.Server.{Memory, write, server, server-IsRedis}

-- A message is encoded as its text; that of a confirmation decodes.
abbrev unmarshal_text : String → Result WebSocketMessage
unmarshal_text t =
    if t == (confirmation (attempt (pos 0))).message
    then ok (confirmation (attempt (pos 0)))
    else err "unsupported"

-- Every number that is drawn is zero, and no context ends early.
abbrev pub env : (ℕ → Delivery) → Env
env net = record {
  redis = server;
  net = net;
  clock = clock;
  marshal_message = λ m. ok m.message;
  unmarshal_message = unmarshal_text;
  uuid_parses = λ t. true;
  uuid_new = λ n. "order-1";
  intn = λ bound n. 0;
  cancelled = λ ms n. false;
  accepts_types = λ o. true;
  accepts_reference = λ o. true;
  accepts_id = λ id. true;
  now = λ n. 1000;
}

abbrev pub all_delivered : ℕ → Delivery
all_delivered n = delivered

-- The first call meets its own fate, and all others are carried out.
abbrev pub first_call : Delivery → ℕ → Delivery
first_call d n = if eqb n 0 then d else delivered

abbrev pub online : Env
online = env all_delivered

pub online-IsOnline : IsOnline online
online-IsOnline n = refl

abbrev pub settings : ℤ → Config
settings max_retries = record {
  redis_host = "localhost";
  redis_port = "6379";
  redis_password = "";
  kafka_broker = "localhost:9092";
  kafka_topic_orders = "orders";
  kafka_topic_dlq = "orders-dlq";
  kafka_group_id = "order-workers";
  db_host = "localhost";
  db_port = "5432";
  db_user = "ticketer";
  db_password = "";
  db_name = "ticketer";
  api_port = "8080";
  ticket_inventory = pos 2;
  lock_ttl_seconds = pos 300;
  payment_success_rate = pos 80;
  max_retries = max_retries;
  consumer_count = pos 1;
  worker_metrics_port = "9091";
  jaeger_endpoint = "";
}

abbrev pub always_paid : Simulator
always_paid = record { success_rate = pos 100 }

abbrev pub never_paid : Simulator
never_paid = record { success_rate = pos 0 }

abbrev pub world : Memory → List Order → World Memory
world s rows = record {
  calls = 0;
  draws = 0;
  script_sha = gatekeeper_source;
  redis = s;
  published = [];
  log = [];
  slept = [];
  orders = rows;
  metrics = record {
    orders_processed = [];
    processing_observed = 0;
    payment_observed = 0;
    dlq_messages = 0;
    compensation_ops = 0;
  };
}

-- No sale, a sale of two tickets, and the sale once the user of the request has one of them.
abbrev pub closed : Sale
closed = record { left = λ v. pos 0; held = λ k. false }

abbrev pub closed_memory : Memory
closed_memory = record { value = λ k. none; loaded = λ h. false }

abbrev pub open_sale : Sale
open_sale = restock "event-1" (pos 2) closed

abbrev pub open_memory : Memory
open_memory = write (inventory_key "event-1") (some (int (pos 2))) closed_memory

abbrev pub taken_sale : Sale
taken_sale = (reserve "event-1" "user-1" open_sale).1

abbrev pub taken_memory : Memory
taken_memory =
    (gatekeeper_script server (inventory_key "event-1") (user_lock_key "event-1" "user-1") (pos 300)
      open_memory).1

pub closed_Shows : Shows server closed_memory closed
closed_Shows = record { counters = λ v. refl; locks = λ v u. refl }

pub open_Shows : Shows server open_memory open_sale
open_Shows = set-Shows online "event-1" closed (pos 2) closed_memory server-IsRedis closed_Shows

pub taken_Shows : Shows server taken_memory taken_sale
taken_Shows =
    (script-reserve server server-IsRedis "event-1" "user-1" (pos 300) open_memory open_sale
      open_Shows (omega arith)).1

-- The first booking succeeds.
pub taken_code : (reserve "event-1" "user-1" open_sale).0 ≡ result_success
unfolding reserve restock
taken_code = refl

pub taken_fits : open_sale.left "event-1" <ℤ pos (2 ^ 63)
unfolding restock
taken_fits = omega arith
