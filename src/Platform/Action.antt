-- ===== src/Platform/Action.antt =====
-- The state that the services share, and the monad of their code over it.
use ticketer.Base.{ℕ, suc, String, List, [], ◌∷◌, ◌++◌, ◌≡◌, ℤ, Result, ok, err}
use ticketer.Shared.Models.{Order}
use ticketer.Platform.Env.{Env, Delivery, delivered, refused, reply_lost, resent, last_try}

-- One record on a Kafka topic.
pub record Message : Type 0 where
  pub topic : String
  pub key : String
  pub value : String

-- The counters of services/order-worker/consumer/metrics.go: the labels of the increments of
-- `orders_processed_total`, and how often the other four were raised or observed.
pub record Metrics : Type 0 where
  pub orders_processed : List String
  pub processing_observed : ℕ
  pub payment_observed : ℕ
  pub dlq_messages : ℕ
  pub compensation_ops : ℕ

pub record World (Store : Type 0) : Type 0 where
  -- calls over the network so far, and draws of identifiers, random numbers and times
  pub calls : ℕ
  pub draws : ℕ
  -- the field `scriptSHA` of the gateway's Gatekeeper
  pub script_sha : String
  pub redis : Store
  -- what was published on Redis channels, and written to Kafka, the oldest first
  pub published : List (String × String)
  pub log : List Message
  -- the arguments of time.Sleep, in nanoseconds
  pub slept : List ℤ
  -- the rows of the table `orders`, the oldest first
  pub orders : List Order
  pub metrics : Metrics

-- Everything but Redis, the stored digest and the counts of calls is the same.
abbrev pub SameOutputs : {Store : Type 0} → World Store → World Store → Type 0
SameOutputs v w =
    (w.draws ≡ v.draws)
    × (w.published ≡ v.published)
    × (w.log ≡ v.log)
    × (w.slept ≡ v.slept)
    × (w.orders ≡ v.orders)
    × (w.metrics ≡ v.metrics)

abbrev pub Action : Type 0 → Type 0 → Type 0
Action Store A = World Store → A × World Store

infixl 5 ◌>>=◌ ◌>>◌
abbrev pub ◌>>=◌ : {Store A B : Type 0} → Action Store A → (A → Action Store B) → Action Store B
◌>>=◌ m f w = let (a, w') = m w in f a w'

abbrev pub ◌>>◌ : {Store A B : Type 0} → Action Store A → Action Store B → Action Store B
◌>>◌ m k w = k (m w).1

abbrev pub pure : {Store A : Type 0} → A → Action Store A
pure a w = (a, w)

abbrev pub modify : {Store : Type 0} → (World Store → World Store) → Action Store (Unit {0})
modify f w = (tt, f w)

-- One exchange with a server in state s, by its fate.
abbrev pub exchange : {S A : Type 0} → Delivery → (S → Result A × S) → S → Result A × S
exchange delivered f s = f s
exchange (refused m) f s = (err m, s)
exchange (reply_lost m) f s = (err m, (f s).1)
exchange (resent d) f s = exchange d f (f s).1

module _ (e : Env) where
  -- A command sent by go-redis, which repeats it by default.
  abbrev pub send : {A : Type 0} → (e.Store → Result A × e.Store) → Action e.Store (Result A)
  send f w =
      let (r, s) = exchange (e.net w.calls) f w.redis in
      (r, record w { calls = suc w.calls; redis = s })

  -- A query sent through the pool of pgx, which does not repeat it.
  abbrev pub query : {A : Type 0} → (List Order → Result A × List Order) → Action e.Store (Result A)
  query f w =
      let (r, rows) = exchange (last_try (e.net w.calls)) f w.orders in
      (r, record w { calls = suc w.calls; orders = rows })

  -- PUBLISH on a Redis channel.
  abbrev pub publish : String → String → Action e.Store (Result (Unit {0}))
  publish channel payload w =
      let (r, ps) =
        exchange (e.net w.calls) (λ ps. (ok tt, ps ++ (channel, payload) ∷ [])) w.published in
      (r, record w { calls = suc w.calls; published = ps })

  -- WriteMessages of one message by a kafka.Writer, which repeats it by default.
  abbrev pub write_message : Message → Action e.Store (Result (Unit {0}))
  write_message m w =
      let (r, log) = exchange (e.net w.calls) (λ log. (ok tt, log ++ m ∷ [])) w.log in
      (r, record w { calls = suc w.calls; log = log })

  -- The next value of a source of identifiers, random numbers or times.
  abbrev pub draw : {A : Type 0} → (ℕ → A) → Action e.Store A
  draw source w = (source w.draws, record w { draws = suc w.draws })
