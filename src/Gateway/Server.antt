-- ===== src/Gateway/Server.antt =====
-- services/api-gateway/main.go: the routes, with the handlers behind them.
pub mod Sockets
use ticketer.Base.{
  Option, none, some, ℕ, String, Bool, none, some, ◌==◌, List, [], ◌∷◌, Result, if◌then◌else◌,
}
use ticketer.Shared.Models.{BookingRequest}
use ticketer.Shared.Config.{Config}
use ticketer.Platform.Env.{Env}
use ticketer.Platform.Action.{Action}
use ticketer.Gateway.Http.{Response}
use ticketer.Gateway.Booking.{create_booking}
use ticketer.Gateway.Events.{start_flash_sale}
use ticketer.Gateway.Events
use ticketer.Gateway.Health.{health_check}
use ticketer.Gateway.Middleware.{Cors, setup_cors}
use ticketer.Gateway.Hub.{Event, register}
use ticketer.Gateway.Hub.Pumps.{read_pump}

-- The middleware in front of every handler, the outermost first.
pub data Middleware : Type 0 where
  recovery logging request_id prometheus : Middleware
  cors : Cors → Middleware

abbrev pub middleware : List Middleware
middleware = recovery ∷ logging ∷ cors setup_cors ∷ request_id ∷ prometheus ∷ []

-- The routes of the handlers, by what Fiber's router and body parser hand over: the outcome of
-- BodyParser, or the path's parameter `id`.
pub data Request : Type 0 where
  health events : Request
  bookings : Result BookingRequest → Request
  event start : String → Request

-- The method and the path of a route.
abbrev pub route : Request → String × String
route health = ("GET", "/health")
route (bookings body) = ("POST", "/api/v1/bookings")
route events = ("GET", "/api/v1/events")
route (event id) = ("GET", "/api/v1/events/:id")
route (start id) = ("POST", "/api/v1/events/:id/start")

module _ (e : Env) (cfg : Config) where
  -- The handler of a route.
  unfoldable pub serve : Request → Action e.Store Response
  serve health = health_check e
  serve (bookings body) = create_booking e cfg body
  serve events = Events.get_events e cfg
  serve (event id) = Events.get_event_by_id e cfg id
  serve (start id) = start_flash_sale e cfg id

-- c.Query("user_id", "anonymous") of a websocket.Conn: the default stands for a missing parameter only.
abbrev pub socket_user : Option String → String
socket_user none = "anonymous"
socket_user (some query) = query

-- What a request to /ws puts into the hub's channels, in order: nothing unless it asks for an upgrade;
-- else the client c, and its end once a read fails.
unfoldable pub websocket : Bool → ℕ → List Bool → List Event
websocket upgrade c reads =
    if upgrade
    then register c ∷ elim (read_pump c reads) [ none ↦ [] | some ends ↦ ends ∷ [] ]
    else []
