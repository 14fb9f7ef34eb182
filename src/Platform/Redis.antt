-- ===== src/Platform/Redis.antt =====
-- The Redis server, as the commands that the program sends, and the laws that the server documents.
use ticketer.Base.{
  ℕ, ◌^◌, String, ◌≡◌, Option, none, some, ◌==◌, ℤ, pos, ◌+ℤ◌, ◌-ℤ◌, ◌<ℤ◌, ◌≤ℤ◌, Result, ok, err,
  if◌then◌else◌,
}

-- The content of a string key: the decimal text of an integer, as SET of an `int`, DECR and INCR
-- write it, or any other text.
pub data Value : Type 0 where
  int : ℤ → Value
  text : String → Value

-- The error reply to EVALSHA with a digest that the script cache does not hold.
abbrev pub noscript : String
noscript = "NOSCRIPT No matching script. Please use EVAL."

-- A Lua script of two keys and one argument, with the state in which it leaves the store. One that
-- raises an error keeps the writes that it has made.
abbrev pub Script : Type 0 → Type 0
Script Store = String → String → ℤ → Store → Result ℤ × Store

pub record Redis : Type 1 where
  pub Store : Type 0
  pub exists : String → Store → ℕ
  pub get : String → Store → Option Value
  pub set : String → Value → Store → Store
  pub setex : String → ℤ → String → Store → Result (Unit {0}) × Store
  pub incr : String → Store → Result (Unit {0}) × Store
  pub decr : String → Store → Result (Unit {0}) × Store
  pub del : String → Store → Store
  -- What a Lua text does, its digest, and the text that the script cache holds under a digest.
  pub lua : String → Script Store
  pub sha : String → String
  pub cached : String → Store → Option String
  pub script_load : String → Store → Store
  pub eval_sha : String → String → String → ℤ → Store → Result ℤ × Store
  -- Lua's `tonumber` on a text that is not the decimal text of an integer.
  pub tonumber : String → Option ℤ

abbrev pub present : Option Value → ℕ
present none = 0
present (some _) = 1

-- What INCR and DECR count from: a missing key counts as zero, and other text is refused.
abbrev pub counter : Option Value → Option ℤ
counter none = some (pos 0)
counter (some (int n)) = some n
counter (some (text _)) = none

abbrev pub run_cached : {Store : Type 0} → (String → Script Store) → Option String → Script Store
run_cached lua none k l a s = (err noscript, s)
run_cached lua (some source) k l a s = lua source k l a s

pub record IsRedis (r : Redis) : Type 0 where
  pub exists_lem : (k : String) (s : r.Store) → r.exists k s ≡ present (r.get k s)
  pub get-set :
      (k j : String) (v : Value) (s : r.Store)
      → r.get j (r.set k v s) ≡ (if k == j then some v else r.get j s)
  -- SETEX wants a positive time to live.
  pub setex_ok :
      (k v : String) (ttl : ℤ) (s : r.Store) → pos 0 <ℤ ttl → (r.setex k ttl v s).0 ≡ ok tt
  pub get-setex :
      (k j v : String) (ttl : ℤ) (s : r.Store)
      → pos 0 <ℤ ttl
      → r.get j (r.setex k ttl v s).1 ≡ (if k == j then some (text v) else r.get j s)
  pub setex_refused :
      (k v : String) (ttl : ℤ) (s : r.Store)
      → ttl ≤ℤ pos 0
      → r.setex k ttl v s ≡ (err "ERR invalid expire time in 'setex' command", s)
  -- The increment is refused only at the largest 64-bit integer, the decrement at the smallest.
  pub incr_ok :
      (k : String) (n : ℤ) (s : r.Store)
      → counter (r.get k s) ≡ some n
      → n +ℤ pos 1 <ℤ pos (2 ^ 63)
      → (r.incr k s).0 ≡ ok tt
  pub get-incr :
      (k j : String) (n : ℤ) (s : r.Store)
      → counter (r.get k s) ≡ some n
      → n +ℤ pos 1 <ℤ pos (2 ^ 63)
      → r.get j (r.incr k s).1 ≡ (if k == j then some (int (n +ℤ pos 1)) else r.get j s)
  pub incr_refused :
      (k : String) (n : ℤ) (s : r.Store)
      → counter (r.get k s) ≡ some n
      → pos (2 ^ 63) ≤ℤ n +ℤ pos 1
      → r.incr k s ≡ (err "ERR increment or decrement would overflow", s)
  pub decr_ok :
      (k : String) (n : ℤ) (s : r.Store)
      → counter (r.get k s) ≡ some n
      → pos 0 <ℤ n
      → (r.decr k s).0 ≡ ok tt
  pub get-decr :
      (k j : String) (n : ℤ) (s : r.Store)
      → counter (r.get k s) ≡ some n
      → pos 0 <ℤ n
      → r.get j (r.decr k s).1 ≡ (if k == j then some (int (n -ℤ pos 1)) else r.get j s)
  pub get-del :
      (k j : String) (s : r.Store) → r.get j (r.del k s) ≡ (if k == j then none else r.get j s)
  -- SCRIPT LOAD caches the text under its digest, which no other text has, and no key changes.
  pub cached-load : (t : String) (s : r.Store) → r.cached (r.sha t) (r.script_load t s) ≡ some t
  pub cached-sha : (t h : String) (s : r.Store) → r.cached h s ≡ some t → h ≡ r.sha t
  pub sha-injective : (t u : String) → r.sha t ≡ r.sha u → t ≡ u
  pub get-load : (t j : String) (s : r.Store) → r.get j (r.script_load t s) ≡ r.get j s
  pub eval_sha_lem :
      (h k l : String) (a : ℤ) (s : r.Store)
      → r.eval_sha h k l a s ≡ run_cached r.lua (r.cached h s) k l a s
