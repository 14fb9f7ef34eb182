-- ===== src/Platform/Env.antt =====
-- The parameters of the program's run.
use ticketer.Json.Event.{Clock}
use ticketer.Base.{◌&&◌, zero, suc, ◌+◌, ℕ, String, Bool, ◌≡◌, Result}
use ticketer.Shared.Events.{WebSocketMessage}
use ticketer.Shared.Models.{Order}
use ticketer.Platform.Redis.{Redis}

-- The fate of one call over the network: carried out and answered, never arrived, or carried out
-- with the answer lost; or carried out with the answer lost, and sent again by the client library
-- with the fate that follows. The text is that of the error that the library returns in the end.
pub data Delivery : Type 0 where
  delivered : Delivery
  refused : String → Delivery
  reply_lost : String → Delivery
  resent : Delivery → Delivery

-- The fate of the last attempt.
unfoldable pub last_try : Delivery → Delivery
last_try (resent d) = last_try d
last_try d = d

-- How often a call was repeated after it had been carried out.
unfoldable pub resends : Delivery → ℕ
resends (resent d) = suc (resends d)
resends d = 0

pub record Env : Type 1 where
  pub redis : Redis
  pub open redis use *
  -- The fate of the n-th call over the network.
  pub net : ℕ → Delivery
  -- The JSON of a time.Time, between its quotes.
  pub clock : Clock
  -- json.Marshal and json.Unmarshal at a WebSocketMessage.
  pub marshal_message : WebSocketMessage → Result String
  pub unmarshal_message : String → Result WebSocketMessage
  -- google/uuid: does Parse accept the text, and the n-th identifier that New draws.
  pub uuid_parses : String → Bool
  pub uuid_new : ℕ → String
  -- rand.Intn(n), as the n-th draw of a number below the bound.
  pub intn : ℕ → ℕ → ℕ
  -- Does the context end before a timer of so many milliseconds, at the n-th draw.
  pub cancelled : ℕ → ℕ → Bool
  -- PostgreSQL's checks that the rows do not decide: the types of the columns for an inserted row, the
  -- reference to the table `events`, and the type of an identifier in a WHERE clause.
  pub accepts_types : Order → Bool
  pub accepts_reference : Order → Bool
  pub accepts_id : String → Bool
  -- time.Now(), in nanoseconds.
  pub now : ℕ → ℕ

-- Every call over the network is carried out and answered.
abbrev pub IsOnline : Env → Type 0
IsOnline e = (n : ℕ) → e.net n ≡ delivered

-- How often one of the first n calls was repeated after it had been carried out.
unfoldable pub repeats : Env → ℕ → ℕ
repeats e zero = 0
repeats e (suc n) = repeats e n + resends (e.net n)

-- The database accepts the row, but for its keys.
abbrev pub accepts_row : Env → Order → Bool
accepts_row e o = e.accepts_types o && e.accepts_reference o
