-- ===== src/Gateway/Events.antt =====
-- services/api-gateway/handlers/events.go: the reading of a sale and its start.
pub mod Start
use ticketer.Base.{
  String, Option, none, some, ◌==◌, ℤ, pos, ◌-ℤ◌, ltb_ℤ, wrap64, Result, ok, err, or_zero,
  if◌then◌else◌, [], ◌∷◌,
}
use ticketer.Shared.Models.{Event, EventWithAvailability}
use ticketer.Shared.Config.{Config}
use ticketer.Platform.Env.{Env}
use ticketer.Platform.Action.{Action, ◌>>=◌, ◌>>◌, pure}
use ticketer.Gateway.Http.{Response, events, event, already_started, started, failure}
use ticketer.Gateway.Gatekeeper.{get_inventory, init_inventory}

abbrev pub seed_event : String
seed_event = "550e8400-e29b-41d4-a716-446655440000"

abbrev pub missing_param : Response
missing_param = failure 400 "missing_param" "Event ID is required"

abbrev pub init_failed : Response
init_failed = failure 500 "init_failed" "Failed to initialize flash sale"

module _ (e : Env) (cfg : Config) where
  -- The demo event with the tickets remaining; those sold are a difference of two `int`s.
  abbrev pub availability : String → ℤ → EventWithAvailability
  availability id remaining = record {
    event = record {
      id = id;
      name = "Mega Concert 2026";
      description =
          "The biggest concert of the year! Limited tickets available. First come, first served.";
      total_tickets = cfg.ticket_inventory;
      ticket_price_cents = 4999;
    };
    tickets_remaining = remaining;
    tickets_sold = wrap64 (cfg.ticket_inventory -ℤ remaining);
  }

  -- GetEvents
  unfoldable pub get_events : Action e.Store Response
  get_events = do
    reply ← get_inventory e seed_event
    pure (record {
      status = 200;
      body = events (availability seed_event (or_zero (pos 0) reply) ∷ []);
    })

  -- GetEventByID, on the path's parameter `id`
  unfoldable pub get_event_by_id : String → Action e.Store Response
  get_event_by_id id = if id == "" then pure missing_param else (do
    reply ← get_inventory e id
    pure (record { status = 200; body = event (availability id (or_zero (pos 0) reply)) }))

  abbrev pub initialised : Result (Unit {0}) → String → Action e.Store Response
  initialised (err _) id = pure init_failed
  initialised (ok _) id = pure (record { status = 200; body = started id cfg.ticket_inventory })

  -- InitInventory, and the answer by its outcome.
  abbrev pub initialise : String → Action e.Store Response
  initialise id = do reply ← init_inventory e id cfg.ticket_inventory; initialised reply id

  -- `if err == nil && existing > 0`
  abbrev pub start_unless : Result ℤ → String → Action e.Store Response
  start_unless (err _) id = initialise id
  start_unless (ok existing) id =
      if ltb_ℤ (pos 0) existing
      then pure (record { status = 200; body = already_started existing })
      else initialise id

  -- StartFlashSale, on the path's parameter `id`
  unfoldable pub start_flash_sale : String → Action e.Store Response
  start_flash_sale id =
      if id == ""
      then pure missing_param
      else (do existing ← get_inventory e id; start_unless existing id)
