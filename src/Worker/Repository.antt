-- ===== src/Worker/Repository.antt =====
-- services/order-worker/db/repository.go: the SQL statements over the table `orders` of
-- infra/postgres/init.sql, whose keys are `id` and `idempotency_key`.
pub mod Rows
pub mod Keyed
pub mod Connect
use ticketer.Base.{
  ℕ, suc, String, Bool, true, false, not, ◌&&◌, ◌||◌, Option, none, some, List, [], ◌∷◌, ◌++◌, ◌==◌,
  Result, ok, err, if◌then◌else◌,
}
use ticketer.Shared.Models.{Order, status_confirmed}
use ticketer.Platform.Env.{Env}
use ticketer.Platform.Uuid.{same_uuid}
use ticketer.Platform.Action.{Action, ◌>>=◌, pure, query}

unfoldable pub has_key : String → List Order → Bool
has_key key [] = false
has_key key (o ∷ rows) = o.idempotency_key == key || has_key key rows

unfoldable pub has_id : String → List Order → Bool
has_id id [] = false
has_id id (o ∷ rows) = same_uuid o.id id || has_id id rows

unfoldable pub find_by_key : String → List Order → Option Order
find_by_key key [] = none
find_by_key key (o ∷ rows) = if o.idempotency_key == key then some o else find_by_key key rows

unfoldable pub set_status : String → String → Option String → List Order → List Order
set_status id status reason [] = []
set_status id status reason (o ∷ rows) =
    (if same_uuid o.id id then record o { status = status; failure_reason = reason } else o)
    ∷ set_status id status reason rows

unfoldable pub confirmed_for : String → List Order → ℕ
confirmed_for event [] = 0
confirmed_for event (o ∷ rows) =
    if same_uuid o.event_id event && o.status == status_confirmed
    then suc (confirmed_for event rows)
    else confirmed_for event rows

module _ (e : Env) where
  -- INSERT … ON CONFLICT (idempotency_key) DO NOTHING RETURNING id, where no row is `none`. The types of
  -- the values are checked first, the reference to the table `events` last.
  unfoldable pub insert_order : Order → List Order → Result (Option String) × List Order
  insert_order o rows =
      if not (e.accepts_types o)
      then (err "invalid input syntax or value out of range", rows)
      else if has_key o.idempotency_key rows
      then (ok none, rows)
      else if has_id o.id rows
      then (err "duplicate key value violates unique constraint \"orders_pkey\"", rows)
      else if not (e.accepts_reference o)
      then (err "insert or update on table \"orders\" violates foreign key constraint", rows)
      else (ok (some o.id), rows ++ o ∷ [])

  -- UPDATE orders SET status, failure_reason WHERE id
  unfoldable pub update_order :
      String → String → Option String → List Order → Result (Unit {0}) × List Order
  update_order id status reason rows =
      if e.accepts_id id
      then (ok tt, set_status id status reason rows)
      else (err "invalid input syntax for type uuid", rows)

  abbrev pub is_new : Result (Option String) → Result Bool
  is_new (ok none) = ok false
  is_new (ok (some _)) = ok true
  is_new (err m) = err m

  -- CreateOrder
  unfoldable pub create_order : Order → Action e.Store (Result Bool)
  create_order o = do reply ← query e (insert_order o); pure (is_new reply)

  -- UpdateOrderStatus
  unfoldable pub update_order_status :
      String → String → Option String → Action e.Store (Result (Unit {0}))
  update_order_status id status reason = query e (update_order id status reason)

  -- GetOrderByIdempotencyKey
  unfoldable pub get_order_by_idempotency_key : String → Action e.Store (Result (Option Order))
  get_order_by_idempotency_key key = query e (λ rows. (ok (find_by_key key rows), rows))

  -- CountConfirmedOrders
  unfoldable pub count_confirmed_orders : String → Action e.Store (Result ℕ)
  count_confirmed_orders event = query e (λ rows. (ok (confirmed_for event rows), rows))
