-- ===== src/Worker/Repository/Keyed.antt =====
-- The two keys of the table stay unique, and an update keeps them.
use ticketer.Base.{
  String, false, Option, ◌≡◌, refl, arith, List, [], ◌∷◌, ◌++◌, ◌==◌, eq_iff, Result,
}
use ticketer.Shared.Models.{Order}
use ticketer.Platform.Env.{Env, Delivery, delivered, refused, reply_lost, resent, last_try}
use ticketer.Platform.Action.{World, exchange}
use ticketer.Platform.Uuid.{uuid_digits, same_uuid}
use ticketer.Worker.Repository.{
  has_key, has_id, set_status, insert_order, update_order, update_order_status,
}

-- No two rows share an idempotency key or an identifier.
abbrev pub IsKeyed : List Order → Type 0
IsKeyed [] = Unit {0}
IsKeyed (o ∷ rows) =
    (has_key o.idempotency_key rows ≡ false) × (has_id o.id rows ≡ false) × IsKeyed rows

has_key-set_status :
    (key id status : String) (reason : Option String) (rows : List Order)
    → has_key key (set_status id status reason rows) ≡ has_key key rows
unfolding has_key set_status
has_key-set_status key id status reason [] = refl
has_key-set_status key id status reason (o ∷ rows) =
    ground (arith, has_key-set_status key id status reason rows)

has_id-set_status :
    (j id status : String) (reason : Option String) (rows : List Order)
    → has_id j (set_status id status reason rows) ≡ has_id j rows
unfolding has_id set_status
has_id-set_status j id status reason [] = refl
has_id-set_status j id status reason (o ∷ rows) =
    ground (arith, has_id-set_status j id status reason rows)

set_status-IsKeyed :
    (id status : String) (reason : Option String) (rows : List Order)
    → IsKeyed rows
    → IsKeyed (set_status id status reason rows)
unfolding set_status
set_status-IsKeyed id status reason [] k = tt
set_status-IsKeyed id status reason (o ∷ rows) k = ground (
  arith,
  has_key-set_status o.idempotency_key id status reason rows,
  has_id-set_status o.id id status reason rows,
  set_status-IsKeyed id status reason rows k.2,
)

-- Text equality does not mind the order of its sides.
eqb_sym : (s t : String) → (s == t) ≡ (t == s)
eqb_sym s t = ground (arith, eq_iff s t, eq_iff t s)

has_key-append_ne :
    (key : String) (o : Order) (rows : List Order)
    → has_key key rows ≡ false
    → (o.idempotency_key == key) ≡ false
    → has_key key (rows ++ o ∷ []) ≡ false
unfolding has_key
has_key-append_ne key o [] h n = rw n
has_key-append_ne key o (x ∷ rows) h n = ground (arith, has_key-append_ne key o rows)

has_id-append_ne :
    (id : String) (o : Order) (rows : List Order)
    → has_id id rows ≡ false
    → same_uuid o.id id ≡ false
    → has_id id (rows ++ o ∷ []) ≡ false
unfolding has_id
has_id-append_ne id o [] h n = rw n
has_id-append_ne id o (x ∷ rows) h n = ground (arith, has_id-append_ne id o rows)

pub append-IsKeyed :
    (o : Order) (rows : List Order)
    → has_key o.idempotency_key rows ≡ false
    → has_id o.id rows ≡ false
    → IsKeyed rows
    → IsKeyed (rows ++ o ∷ [])
unfolding has_key has_id
append-IsKeyed o [] hk hi k = (refl, refl, tt)
append-IsKeyed o (x ∷ rows) hk hi k = ground (
  arith,
  eqb_sym x.idempotency_key o.idempotency_key,
  eqb_sym (uuid_digits x.id) (uuid_digits o.id),
  has_key-append_ne x.idempotency_key o rows k.0,
  has_id-append_ne x.id o rows k.1,
  append-IsKeyed o rows,
)

module _ (e : Env) where
  insert_order-IsKeyed :
      (o : Order) (rows : List Order) → IsKeyed rows → IsKeyed (insert_order e o rows).1
  unfolding insert_order
  insert_order-IsKeyed o rows k = ground (arith, append-IsKeyed o rows)

  update_order-IsKeyed :
      (id status : String) (reason : Option String) (rows : List Order)
      → IsKeyed rows
      → IsKeyed (update_order e id status reason rows).1
  unfolding update_order
  update_order-IsKeyed id status reason rows k =
      ground (arith, set_status-IsKeyed id status reason rows)

  exchange-IsKeyed :
      {A : Type 0} (d : Delivery) (f : List Order → Result A × List Order) (rows : List Order)
      → ((rows : List Order) → IsKeyed rows → IsKeyed (f rows).1)
      → IsKeyed rows
      → IsKeyed (exchange d f rows).1
  exchange-IsKeyed delivered f rows keeps k = keeps rows k
  exchange-IsKeyed (refused m) f rows keeps k = k
  exchange-IsKeyed (reply_lost m) f rows keeps k = keeps rows k
  exchange-IsKeyed (resent d) f rows keeps k = exchange-IsKeyed d f _ keeps (keeps rows k)

  pub update_order_status-IsKeyed :
      (id status : String) (reason : Option String) (w : World e.Store)
      → IsKeyed w.orders
      → IsKeyed (update_order_status e id status reason w).1.orders
  unfolding update_order_status
  update_order_status-IsKeyed id status reason w k =
      exchange-IsKeyed (last_try (e.net w.calls)) (update_order e id status reason) w.orders
        (update_order-IsKeyed id status reason) k
