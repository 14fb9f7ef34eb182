-- ===== src/Gateway/Gatekeeper.antt =====
-- services/api-gateway/redis/gatekeeper.go: the atomic reservation of a ticket in Redis.
pub mod Reserve
pub mod Acquire
pub mod Online
pub mod Release
pub mod Frame
pub mod Grants
pub mod Stored
use Prim.Native.String.{◌++◌}
use ticketer.Base.{
  String, Option, none, some, ◌≡◌, ◌==◌, ℤ, pos, negsuc, ltb_ℤ, Result, ok, err, is_one,
  if◌then◌else◌,
}
use ticketer.Strconv.{atoi}
use ticketer.Shared.Events.{inventory_key, user_lock_key}
use ticketer.Platform.Redis.{Redis, Value, int, text, Script, noscript}
use ticketer.Platform.Env.{Env}
use ticketer.Platform.Action.{Action, ◌>>=◌, ◌>>◌, pure, send}

-- The codes of the script's answer.
abbrev pub result_success : ℤ
result_success = pos 1

abbrev pub result_sold_out : ℤ
result_sold_out = pos 0

abbrev pub result_duplicate : ℤ
result_duplicate = negsuc 1

-- The text of the constant `gatekeeperScript`, less its comments and blank lines.
abbrev pub gatekeeper_source : String
gatekeeper_source =
    "if redis.call('EXISTS', KEYS[2]) == 1 then return -2 end local current_inventory = tonumber(redis.call('GET', KEYS[1]) or \"0\") if current_inventory > 0 then redis.call('DECR', KEYS[1]) redis.call('SETEX', KEYS[2], ARGV[1], \"locked\") return 1 else return 0 end"

module _ (r : Redis) where
  -- `tonumber(redis.call('GET', KEYS[1]) or "0")`
  abbrev pub current_inventory : Option Value → Option ℤ
  current_inventory none = some (pos 0)
  current_inventory (some (int n)) = some n
  current_inventory (some (text t)) = r.tonumber t

  -- `redis.call('SETEX', …)`, then `return 1`; an error reply ends the script.
  abbrev lock_user : String → ℤ → r.Store → Result ℤ × r.Store
  lock_user lock ttl s =
      let (reply, s') = r.setex lock ttl "locked" s in
      elim reply [ ok _ ↦ (ok result_success, s') | err m ↦ (err m, s') ]

  abbrev take_ticket : String → String → ℤ → r.Store → Result ℤ × r.Store
  take_ticket inventory lock ttl s =
      let (reply, s') = r.decr inventory s in
      elim reply [ ok _ ↦ lock_user lock ttl s' | err m ↦ (err m, s') ]

  abbrev check_inventory : Option ℤ → String → String → ℤ → r.Store → Result ℤ × r.Store
  check_inventory none inventory lock ttl s = (err "ERR attempt to compare nil with number", s)
  check_inventory (some n) inventory lock ttl s =
      if ltb_ℤ (pos 0) n then take_ticket inventory lock ttl s else (ok result_sold_out, s)

  -- The Lua script: the check of the lock, that of the inventory, the decrement and the lock.
  unfoldable pub gatekeeper_script : Script r.Store
  gatekeeper_script inventory lock ttl s =
      if is_one (r.exists lock s)
      then (ok result_duplicate, s)
      else check_inventory (current_inventory (r.get inventory s)) inventory lock ttl s

-- The commands of one pipeline, INCR and DEL, each of which is carried out; the first error is that
-- of the pipeline.
unfoldable pub release_commands :
    (r : Redis) → String → String → r.Store → Result (Unit {0}) × r.Store
release_commands r event user s =
    let (reply, s') = r.incr (inventory_key event) s in (reply, r.del (user_lock_key event user) s')

-- Redis runs the text of the script as the translation above says.
abbrev pub RunsScript : Redis → Type 0
RunsScript r = r.lua gatekeeper_source ≡ gatekeeper_script r

abbrev after_reload : Result ℤ → Result ℤ
after_reload (ok n) = ok n
after_reload (err m) = err ("gatekeeper eval failed after reload: " ++ m)

-- The answer of GET, read by strconv.Atoi; a missing key reads as no tickets.
abbrev pub read_inventory : Result (Option Value) → Result ℤ
read_inventory (ok none) = ok (pos 0)
read_inventory (ok (some (int n))) = ok n
read_inventory (ok (some (text t))) = atoi t
read_inventory (err m) = err m

module _ (e : Env) where
  -- The call of ScriptLoad, which answers with the digest.
  abbrev pub load_script : Action e.Store (Result String)
  load_script = send e λ s. (ok (e.sha gatekeeper_source), e.script_load gatekeeper_source s)

  abbrev pub store_sha : String → Action e.Store (Unit {0})
  store_sha sha w = (tt, record w { script_sha = sha })

  abbrev pub eval_script : String → String → ℤ → Action e.Store (Result ℤ)
  eval_script inventory lock ttl w = send e (e.eval_sha w.script_sha inventory lock ttl) w

  abbrev wrap_load : Result String → Action e.Store (Result (Unit {0}))
  wrap_load (ok sha) = do store_sha sha; pure (ok tt)
  wrap_load (err m) = pure (err ("failed to load gatekeeper Lua script: " ++ m))

  -- NewGatekeeper
  unfoldable pub new_gatekeeper : Action e.Store (Result (Unit {0}))
  new_gatekeeper = do wrap_load (← load_script)

  abbrev eval_again : Result String → String → String → ℤ → Action e.Store (Result ℤ)
  eval_again (ok sha) inventory lock ttl = do
    store_sha sha
    reply ← eval_script inventory lock ttl
    pure (after_reload reply)
  eval_again (err m) inventory lock ttl = pure (err ("failed to reload script: " ++ m))

  abbrev on_reply : Result ℤ → String → String → ℤ → Action e.Store (Result ℤ)
  on_reply (ok n) inventory lock ttl = pure (ok n)
  on_reply (err m) inventory lock ttl =
      if m == noscript
      then (do reply ← load_script; eval_again reply inventory lock ttl)
      else pure (err ("gatekeeper eval failed: " ++ m))

  -- TryAcquireTicket
  unfoldable pub try_acquire_ticket : String → String → ℤ → Action e.Store (Result ℤ)
  try_acquire_ticket event user ttl = do
    reply ← eval_script (inventory_key event) (user_lock_key event user) ttl
    on_reply reply (inventory_key event) (user_lock_key event user) ttl

  -- InitInventory
  unfoldable pub init_inventory : String → ℤ → Action e.Store (Result (Unit {0}))
  init_inventory event total = send e (λ s. (ok tt, e.set (inventory_key event) (int total) s))

  -- GetInventory
  unfoldable pub get_inventory : String → Action e.Store (Result ℤ)
  get_inventory event = do
    reply ← send e (λ s. (ok (e.get (inventory_key event) s), s))
    pure (read_inventory reply)

  -- ReleaseTicket
  unfoldable pub release_ticket : String → String → Action e.Store (Result (Unit {0}))
  release_ticket event user = send e (release_commands e.redis event user)
