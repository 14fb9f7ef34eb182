-- ===== src/Shared/Config.antt =====
-- shared/config/config.go: the settings, read from environment variables.
pub mod Environment
use Prim.Native.String.{◌++◌}
use ticketer.Base.{String, ◌==◌, ℤ, pos, Result, ok, err, if◌then◌else◌}
use ticketer.Strconv.{atoi}

pub record Config : Type 0 where
  pub redis_host : String
  pub redis_port : String
  pub redis_password : String
  pub kafka_broker : String
  pub kafka_topic_orders : String
  pub kafka_topic_dlq : String
  pub kafka_group_id : String
  pub db_host : String
  pub db_port : String
  pub db_user : String
  pub db_password : String
  pub db_name : String
  pub api_port : String
  pub ticket_inventory : ℤ
  pub lock_ttl_seconds : ℤ
  pub payment_success_rate : ℤ
  pub max_retries : ℤ
  pub consumer_count : ℤ
  pub worker_metrics_port : String
  pub jaeger_endpoint : String

-- `getenv` is os.Getenv, which reads an unset variable as the empty text.
module _ (getenv : String → String) where
  unfoldable pub get_env : String → String → String
  get_env key fallback = if getenv key == "" then fallback else getenv key

  abbrev or_fallback : Result ℤ → ℤ → ℤ
  or_fallback (ok n) fallback = n
  or_fallback (err m) fallback = fallback

  unfoldable pub get_env_int : String → ℤ → ℤ
  get_env_int key fallback =
      if getenv key == "" then fallback else or_fallback (atoi (getenv key)) fallback

  unfoldable pub load : Config
  unfolding get_env get_env_int
  load = record {
    redis_host = get_env "REDIS_HOST" "localhost";
    redis_port = get_env "REDIS_PORT" "6379";
    redis_password = get_env "REDIS_PASSWORD" "";
    kafka_broker = get_env "KAFKA_BROKER" "localhost:9092";
    kafka_topic_orders = get_env "KAFKA_TOPIC_ORDERS" "order-pending";
    kafka_topic_dlq = get_env "KAFKA_TOPIC_DLQ" "order-dlq";
    kafka_group_id = get_env "KAFKA_GROUP_ID" "order-workers";
    db_host = get_env "DB_HOST" "localhost";
    db_port = get_env "DB_PORT" "6432";
    db_user = get_env "DB_USER" "ticketer";
    db_password = get_env "DB_PASSWORD" "ticketer_secret";
    db_name = get_env "DB_NAME" "ticketer_db";
    api_port = get_env "API_PORT" "8080";
    ticket_inventory = get_env_int "TICKET_INVENTORY" (pos 100);
    lock_ttl_seconds = get_env_int "LOCK_TTL_SECONDS" (pos 300);
    payment_success_rate = get_env_int "WORKER_PAYMENT_SUCCESS_RATE" (pos 80);
    max_retries = get_env_int "WORKER_MAX_RETRIES" (pos 3);
    consumer_count = get_env_int "WORKER_CONSUMER_COUNT" (pos 5);
    worker_metrics_port = get_env "WORKER_METRICS_PORT" "9091";
    jaeger_endpoint = get_env "JAEGER_ENDPOINT" "http://localhost:4317";
  }

unfoldable pub redis_addr : Config → String
redis_addr c = (c.redis_host ++ ":") ++ c.redis_port

unfoldable pub database_dsn : Config → String
database_dsn c =
    (((((((((("postgres://" ++ c.db_user) ++ ":") ++ c.db_password) ++ "@") ++ c.db_host) ++ ":")
            ++ c.db_port)
          ++ "/")
        ++ c.db_name)
      ++ "?sslmode=disable")
