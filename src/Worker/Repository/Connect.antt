-- ===== src/Worker/Repository/Connect.antt =====
-- services/order-worker/db/repository.go: the attempts of NewRepository to connect.
use Prim.Native.String.{◌++◌}
use ticketer.Base.{
  ℕ, zero, suc, ◌+◌, ◌&&◌, eqb, ◌≤◌, ◌<◌, String, Bool, true, false, Option, none, some, ◌≡◌, refl,
  arith, Result, ok, err, if◌then◌else◌, Bool-cases, inl, inr,
}

-- What the attempts have come to: the last result of NewWithConfig, and how often the loop slept.
-- `none` is Go's nil, and a pool is the number of the attempt that made it.
pub record Attempts : Type 0 where
  pub pool : Option ℕ
  pub sleeps : ℕ

-- pgx as the n-th attempt meets it: does ParseConfig accept the text, does NewWithConfig make a pool,
-- and does Ping succeed.
module _ (parses : String → Option String) (makes pings : ℕ → Bool) where
  -- The loop, with the attempts that are left and the number of the next one.
  unfoldable pub connect : ℕ → ℕ → Attempts → Attempts
  connect zero i a = a
  connect (suc left) i a =
      let pool : Option ℕ = if makes i then some i else none in
      let next = connect left (suc i) (record { pool = pool; sleeps = suc a.sleeps }) in
      if makes i then if pings i then record { pool = pool; sleeps = a.sleeps } else next else next

  abbrev opened : Option ℕ → Result ℕ
  opened none = err "failed to connect to PostgreSQL after 30 attempts"
  opened (some i) = ok i

  abbrev parsed : Option String → Result ℕ
  parsed (some m) = err ("failed to parse DSN: " ++ m)
  parsed none = opened (connect 30 0 (record { pool = none; sleeps = 0 })).pool

  -- NewRepository; `parses` gives the error of ParseConfig, if there is one.
  unfoldable pub new_repository : String → Result ℕ
  new_repository dsn = parsed (parses dsn)

  abbrev answers : ℕ → Bool
  answers n = makes n && pings n

  connect-first :
      (left i n : ℕ) (a : Attempts)
      → i ≤ n
      → n < i + left
      → ((j : ℕ) → i ≤ j → j < n → answers j ≡ false)
      → answers n ≡ true
      → (connect left i a).pool ≡ some n
  unfolding connect
  connect-first zero i n a l h f m = absurd (omega arith)
  connect-first (suc left) i n a l h f m = elim (Bool-cases (eqb i n)) [
    | inl q ↦ let p : i ≡ n = ground arith in rw p (ground arith)
    | inr q ↦
        let before : answers i ≡ false = f i (omega arith) (ground arith) in
        let rest =
          connect-first left (suc i) n
            (record { pool = if makes i then some i else none; sleeps = suc a.sleeps })
            (ground arith) (omega arith) (λ j l'. f j (omega arith)) m in
        ground (arith, rest)
  ]

  connect_step :
      (left i : ℕ) (a : Attempts)
      → pings i ≡ false
      → connect (suc left) i a
        ≡ connect left
            (suc i)
            (record { pool = if makes i then some i else none; sleeps = suc a.sleeps })
  unfolding connect
  connect_step left i a h = elim (Bool-cases (makes i)) [
    | inl m ↦ rw (m, h) refl
    | inr m ↦ rw m refl
  ]

  connect_unanswered :
      (left i n : ℕ) (a : Attempts)
      → i + left ≡ n
      → ((j : ℕ) → pings j ≡ false)
      → (connect (suc left) i a).pool ≡ (if makes n then some n else none)
  unfolding connect
  connect_unanswered zero i n a p h =
      let q : i ≡ n = omega arith in rw (connect_step zero i a (h i)) (rw q refl)
  connect_unanswered (suc left) i n a p h = rw (connect_step (suc left) i a (h i)) (
      connect_unanswered left (suc i) n
        (record { pool = if makes i then some i else none; sleeps = suc a.sleeps }) (omega arith) h)

  -- For a text that parses, the first of 30 attempts whose pool is made and answers the ping gives
  -- the repository.
  pub new_repository-first :
      (dsn : String) (n : ℕ)
      → parses dsn ≡ none
      → n < 30
      → ((j : ℕ) → j < n → (makes j && pings j) ≡ false)
      → (makes n && pings n) ≡ true
      → new_repository dsn ≡ ok n
  unfolding new_repository
  new_repository-first dsn n p h f m =
      rw
        (
          p,
          connect-first 30 0 n (record { pool = none; sleeps = 0 }) (omega arith) h (λ j l. f j) m,
        )
        refl

  -- For a text that parses, when no ping is ever answered but the last attempt makes a pool, that
  -- pool is returned as a repository, without an error.
  pub new_repository-unanswered :
      (dsn : String)
      → parses dsn ≡ none
      → ((j : ℕ) → pings j ≡ false)
      → makes 29 ≡ true
      → new_repository dsn ≡ ok 29
  unfolding new_repository
  new_repository-unanswered dsn p h m =
      rw (p, connect_unanswered 29 0 29 (record { pool = none; sleeps = 0 }) refl h, m) refl
