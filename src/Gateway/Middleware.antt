-- ===== src/Gateway/Middleware.antt =====
-- services/api-gateway/middleware: the identifier of a request, and its metrics.
pub mod Collectors
use ticketer.Base.{
  ℕ, String, Bool, true, ◌==◌, ◌≡◌, refl, List, [], ◌∷◌, ◌++◌, ℤ, pos, ◌+ℤ◌, ◌-ℤ◌, int_laws,
  if◌then◌else◌,
}
use ticketer.Strconv.{itoa}
use ticketer.Platform.Env.{Env}
use ticketer.Platform.Action.{Action, pure, draw}
use ticketer.Gateway.Http.{Response}

-- RequestID of requestid.go: the value of X-Request-ID for the response and the handlers, from the
-- header of the request, which reads as the empty text if it is missing.
unfoldable pub request_id : (e : Env) → String → Action e.Store String
request_id e header = if header == "" then draw e e.uuid_new else pure header

-- SetupCORS of cors.go
pub record Cors : Type 0 where
  pub allow_origins : String
  pub allow_methods : String
  pub allow_headers : String
  pub allow_credentials : Bool

abbrev pub setup_cors : Cors
setup_cors = record {
  allow_origins = "http://localhost:3000, http://127.0.0.1:3000";
  allow_methods = "GET,POST,PUT,DELETE,OPTIONS";
  allow_headers = "Origin, Content-Type, Accept, Authorization, X-Idempotency-Key, X-Request-ID";
  allow_credentials = true;
}

-- The gauge of requests in flight, and the labels of the observed durations, of metrics.go.
pub record HttpMetrics : Type 0 where
  pub in_flight : ℤ
  pub observed : List (String × String × String)

-- How c.Next() ends: without an error, with the response of the handlers; with an error, of which fiber
-- makes a response with the first status once the middleware has returned, while the response so far has
-- the second; or with a panic.
pub data Outcome : Type 0 where
  answered : Response → Outcome
  failed : ℕ → ℕ → Outcome
  panicked : Outcome

abbrev observe : String → String → ℕ → HttpMetrics → HttpMetrics
observe method path status m = record {
  in_flight = m.in_flight -ℤ pos 1;
  observed = m.observed ++ (method, path, itoa (pos status)) ∷ [];
}

abbrev enter : HttpMetrics → HttpMetrics
enter m = record m { in_flight = m.in_flight +ℤ pos 1 }

abbrev leave : String → String → Outcome × HttpMetrics → Outcome × HttpMetrics
leave method path (answered r, m) = (answered r, observe method path r.status m)
leave method path (failed code status, m) = (failed code status, observe method path status m)
leave method path (panicked, m) = (panicked, m)

-- PrometheusMiddleware of metrics.go, around the handlers behind it. A panic passes through it to the
-- recovery that services/api-gateway/main.go installs in front.
unfoldable pub prometheus_middleware :
    String → String → (HttpMetrics → Outcome × HttpMetrics) → HttpMetrics → Outcome × HttpMetrics
prometheus_middleware method path next m = leave method path (next (enter m))

add_sub_one : (a : ℤ) → a +ℤ pos 1 -ℤ pos 1 ≡ a
add_sub_one a = omega int_laws

-- What is left of a request in the metrics, by how it ended.
abbrev pub Counted : String → String → HttpMetrics → Outcome × HttpMetrics → Type 0
Counted method path m (answered r, m') =
    (m'.in_flight ≡ m.in_flight)
    × (m'.observed ≡ m.observed ++ (method, path, itoa (pos r.status)) ∷ [])
Counted method path m (failed code status, m') =
    (m'.in_flight ≡ m.in_flight)
    × (m'.observed ≡ m.observed ++ (method, path, itoa (pos status)) ∷ [])
Counted method path m (panicked, m') =
    (m'.in_flight ≡ m.in_flight +ℤ pos 1) × (m'.observed ≡ m.observed)

leave-Counted :
    (method path : String) (m : HttpMetrics) (outcome : Outcome) (n : HttpMetrics)
    → n ≡ enter m
    → Counted method path m (leave method path (outcome, n))
leave-Counted method path m (answered r) n e = rw e (add_sub_one m.in_flight, refl)
leave-Counted method path m (failed code status) n e = rw e (add_sub_one m.in_flight, refl)
leave-Counted method path m panicked n e = rw e (refl, refl)

-- Around handlers that leave the metrics alone, an answered request leaves the gauge of requests in
-- flight as it was and one observation labelled with its status; one that ends in an error leaves
-- the gauge and one observation labelled with the status of the response so far, whatever status
-- the error stands for; one that panics leaves the gauge one too high and no observation.
pub prometheus_middleware-Counted :
    (method path : String) (next : HttpMetrics → Outcome × HttpMetrics) (m : HttpMetrics)
    → ((n : HttpMetrics) → (next n).1 ≡ n)
    → Counted method path m (prometheus_middleware method path next m)
unfolding prometheus_middleware
prometheus_middleware-Counted method path next m keeps =
    leave-Counted method path m (next (enter m)).0 (next (enter m)).1 (keeps (enter m))
