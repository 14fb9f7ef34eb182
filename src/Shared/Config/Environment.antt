-- ===== src/Shared/Config/Environment.antt =====
-- The environment that spells a configuration, and what Load makes of it.
use ticketer.Base.{
  String, false, ◌≡◌, ◌≢◌, refl, sym, ap, ◌∙◌, List, [], ◌∷◌, All, ◌==◌, ℤ, pos, arith, eq_iff,
  IsInt64, ok, if◌then◌else◌, text_ne,
}
use ticketer.Strconv.{itoa, atoi}
use ticketer.Strconv.RoundTrip.{atoi-itoa}
use ticketer.Shared.Config.{Config, get_env, get_env_int, or_fallback, load}

-- The value of a variable in a list of assignments; an unset one is the empty text.
abbrev pub value_of : List (String × String) → String → String
value_of [] key = ""
value_of ((name, value) ∷ rest) key = if name == key then value else value_of rest key

-- Each variable with the text of its setting.
abbrev pub assignments : Config → List (String × String)
assignments c =
    ("REDIS_HOST", c.redis_host)
    ∷ ("REDIS_PORT", c.redis_port)
    ∷ ("REDIS_PASSWORD", c.redis_password)
    ∷ ("KAFKA_BROKER", c.kafka_broker)
    ∷ ("KAFKA_TOPIC_ORDERS", c.kafka_topic_orders)
    ∷ ("KAFKA_TOPIC_DLQ", c.kafka_topic_dlq)
    ∷ ("KAFKA_GROUP_ID", c.kafka_group_id)
    ∷ ("DB_HOST", c.db_host)
    ∷ ("DB_PORT", c.db_port)
    ∷ ("DB_USER", c.db_user)
    ∷ ("DB_PASSWORD", c.db_password)
    ∷ ("DB_NAME", c.db_name)
    ∷ ("API_PORT", c.api_port)
    ∷ ("TICKET_INVENTORY", itoa c.ticket_inventory)
    ∷ ("LOCK_TTL_SECONDS", itoa c.lock_ttl_seconds)
    ∷ ("WORKER_PAYMENT_SUCCESS_RATE", itoa c.payment_success_rate)
    ∷ ("WORKER_MAX_RETRIES", itoa c.max_retries)
    ∷ ("WORKER_CONSUMER_COUNT", itoa c.consumer_count)
    ∷ ("WORKER_METRICS_PORT", c.worker_metrics_port)
    ∷ ("JAEGER_ENDPOINT", c.jaeger_endpoint)
    ∷ []

-- The settings that have a default of their own, which the empty text stands for.
abbrev pub texts : Config → List String
texts c =
    c.redis_host ∷ c.redis_port ∷ c.kafka_broker ∷ c.kafka_topic_orders ∷ c.kafka_topic_dlq
    ∷ c.kafka_group_id ∷ c.db_host ∷ c.db_port ∷ c.db_user ∷ c.db_password ∷ c.db_name ∷ c.api_port
    ∷ c.worker_metrics_port ∷ c.jaeger_endpoint ∷ []

abbrev pub numbers : Config → List ℤ
numbers c =
    c.ticket_inventory ∷ c.lock_ttl_seconds ∷ c.payment_success_rate ∷ c.max_retries
    ∷ c.consumer_count ∷ []

itoa-ne-empty : (n : ℤ) → IsInt64 n → (itoa n == "") ≡ false
unfolding atoi
itoa-ne-empty n h = text_ne (itoa n) "" (λ p. refused (sym (ap atoi p) ∙ atoi-itoa n h))
  where
    refused : atoi "" ≢ ok n
    refused q = cc q

optional : (s : String) → (if s == "" then "" else s) ≡ s
optional s = ground (arith, eq_iff s "")

spelled :
    (n fallback : ℤ) (getenv : String → String)
    → IsInt64 n
    → (if itoa n == "" then fallback else or_fallback getenv (atoi (itoa n)) fallback) ≡ n
spelled n fallback getenv h = rw (itoa-ne-empty n h, atoi-itoa n h) refl

-- Let the settings with a default of their own not be empty, and the numbers fit into 64 bits. Then
-- Load reads a configuration back from the environment in which each variable spells its setting,
-- the numbers in decimal: no two variables are mixed up.
pub load-assignments :
    (c : Config)
    → All (λ s. (s == "") ≡ false) (texts c)
    → All IsInt64 (numbers c)
    → load (value_of (assignments c)) ≡ c
unfolding load get_env get_env_int
load-assignments c
      (t0, (t1, (t2, (t3, (t4, (t5, (t6, (t7, (t8, (t9, (t10, (t11, (t12, (t13, _))))))))))))))
      (n0, (n1, (n2, (n3, (n4, _))))) =
    rw
      (
        t0,
        t1,
        optional c.redis_password,
        t2,
        t3,
        t4,
        t5,
        t6,
        t7,
        t8,
        t9,
        t10,
        t11,
        t12,
        t13,
        spelled c.ticket_inventory (pos 100) (value_of (assignments c)) n0,
        spelled c.lock_ttl_seconds (pos 300) (value_of (assignments c)) n1,
        spelled c.payment_success_rate (pos 80) (value_of (assignments c)) n2,
        spelled c.max_retries (pos 3) (value_of (assignments c)) n3,
        spelled c.consumer_count (pos 5) (value_of (assignments c)) n4,
      )
      refl
