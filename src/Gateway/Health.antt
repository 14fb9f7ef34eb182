-- ===== src/Gateway/Health.antt =====
-- services/api-gateway/handlers/health.go: GET /health.
use Prim.Native.String.{◌++◌}
use ticketer.Base.{String, ◌==◌, List, [], ◌∷◌, Result, ok, err, if◌then◌else◌}
use ticketer.Platform.Env.{Env}
use ticketer.Platform.Action.{Action, ◌>>=◌, pure, send}
use ticketer.Gateway.Http.{Response, health}

abbrev redis_status : Result (Unit {0}) → String
redis_status (ok _) = "healthy"
redis_status (err m) = "unhealthy: " ++ m

-- The loop over the services ends at the first that is not healthy.
unfoldable pub overall : List (String × String) → String
overall [] = "healthy"
overall ((name, status) ∷ services) =
    let rest = overall services in if status == "healthy" then rest else "degraded"

abbrev reported : List (String × String) → Response
reported services = record {
  status = if overall services == "healthy" then 200 else 503;
  body = health (record { status = overall services; services = services });
}

-- HealthCheck
unfoldable pub health_check : (e : Env) → Action e.Store Response
health_check e = do
  reply ← send e (λ s. (ok tt, s))
  pure (reported (("redis", redis_status reply) ∷ []))
