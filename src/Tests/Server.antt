-- ===== src/Tests/Server.antt =====
-- A Redis server in memory, with the laws and the gatekeeper's script.
use ticketer.Base.{
  ◌^◌, ◌-◌, String, Bool, true, false, Option, none, some, ◌≡◌, refl, sym, arith, ◌==◌, eq_refl, ℤ,
  pos, negsuc, ◌+ℤ◌, ◌-ℤ◌, ◌<ℤ◌, ◌≤ℤ◌, ltb_ℤ, int_laws, Result, ok, err, if◌then◌else◌,
}
use ticketer.Platform.Redis.{Redis, IsRedis, Value, int, text, present, counter, run_cached}
use ticketer.Gateway.Gatekeeper.{gatekeeper_script, RunsScript}

-- The values by their keys, and the texts in the script cache, each under itself as its digest.
pub record Memory : Type 0 where
  pub value : String → Option Value
  pub loaded : String → Bool

abbrev pub write : String → Option Value → Memory → Memory
write k v s = record s { value = λ j. if k == j then v else s.value j }

abbrev count : String → ℤ → Bool → Memory → Result (Unit {0}) × Memory
count k n fits s =
    if fits
    then (ok tt, write k (some (int n)) s)
    else (err "ERR increment or decrement would overflow", s)

abbrev incr_from : String → Option ℤ → Memory → Result (Unit {0}) × Memory
incr_from k none s = (err "ERR value is not an integer or out of range", s)
incr_from k (some n) s = count k (n +ℤ pos 1) (ltb_ℤ (n +ℤ pos 1) (pos (2 ^ 63))) s

abbrev decr_from : String → Option ℤ → Memory → Result (Unit {0}) × Memory
decr_from k none s = (err "ERR value is not an integer or out of range", s)
decr_from k (some n) s = count k (n -ℤ pos 1) (ltb_ℤ (negsuc (2 ^ 63 - 1)) n) s

abbrev set_expiring : Bool → String → String → Memory → Result (Unit {0}) × Memory
set_expiring true k v s = (ok tt, write k (some (text v)) s)
set_expiring false k v s = (err "ERR invalid expire time in 'setex' command", s)

abbrev cached_text : Bool → String → Option String
cached_text true h = some h
cached_text false h = none

-- The commands but for scripts.
abbrev commands : Redis
commands = record {
  Store = Memory;
  exists = λ k s. present (s.value k);
  get = λ k s. s.value k;
  set = λ k v s. write k (some v) s;
  setex = λ k ttl v s. set_expiring (ltb_ℤ (pos 0) ttl) k v s;
  incr = λ k s. incr_from k (counter (s.value k)) s;
  decr = λ k s. decr_from k (counter (s.value k)) s;
  del = λ k s. write k none s;
  lua = λ t k l a s. (err "ERR", s);
  sha = λ t. t;
  cached = λ h s. cached_text (s.loaded h) h;
  script_load = λ t s. record s { loaded = λ h. if t == h then true else s.loaded h };
  eval_sha = λ h k l a s. (err "ERR", s);
  tonumber = λ t. none;
}

-- Every text that is loaded runs as the gatekeeper's script does.
abbrev pub server : Redis
server = record commands {
  lua = λ t. gatekeeper_script commands;
  eval_sha = λ h k l a s.
      run_cached (λ t. gatekeeper_script commands) (cached_text (s.loaded h) h) k l a s;
}

pub server-RunsScript : RunsScript server
unfolding gatekeeper_script
server-RunsScript = refl

lt_true : (a b : ℤ) → a <ℤ b → ltb_ℤ a b ≡ true
lt_true a b h = ground arith

ge_false : (a b : ℤ) → b ≤ℤ a → ltb_ℤ a b ≡ false
ge_false a b h = ground arith

above : (n : ℤ) → pos 0 <ℤ n → negsuc (2 ^ 63 - 1) <ℤ n
above n h = omega int_laws

cached_self : (b : Bool) (h t : String) → cached_text b h ≡ some t → t ≡ h
cached_self true h t e = cc
cached_self false h t e = cc

pub server-IsRedis : IsRedis server
server-IsRedis = record {
  exists_lem = λ k s. refl;
  get-set = λ k j v s. refl;
  setex_ok = λ k v ttl s h. rw (lt_true (pos 0) ttl h) refl;
  get-setex = λ k j v ttl s h. rw (lt_true (pos 0) ttl h) refl;
  setex_refused = λ k v ttl s h. rw (ge_false (pos 0) ttl h) refl;
  incr_ok = λ k n s h f. rw (h, incr_from, lt_true (n +ℤ pos 1) (pos (2 ^ 63)) f) refl;
  get-incr = λ k j n s h f. rw (h, incr_from, lt_true (n +ℤ pos 1) (pos (2 ^ 63)) f) refl;
  incr_refused = λ k n s h f. rw (h, incr_from, ge_false (n +ℤ pos 1) (pos (2 ^ 63)) f) refl;
  decr_ok = λ k n s h f. rw (h, decr_from, lt_true (negsuc (2 ^ 63 - 1)) n (above n f)) refl;
  get-decr = λ k j n s h f. rw (h, decr_from, lt_true (negsuc (2 ^ 63 - 1)) n (above n f)) refl;
  get-del = λ k j s. refl;
  cached-load = λ t s. rw (eq_refl t) refl;
  cached-sha = λ t h s e. sym (cached_self (s.loaded h) h t e);
  sha-injective = λ t u h. h;
  get-load = λ t j s. refl;
  eval_sha_lem = λ h k l a s. refl;
}
