-- ===== src/Worker/Repository/Rows.antt =====
-- The statements over the rows of the table.
use ticketer.Base.{
  String, true, false, Option, none, some, ◌≡◌, refl, inl, inr, arith, List, [], ◌∷◌, ◌++◌, ◌==◌,
  eq_iff, eq_refl, Bool-cases,
}
use ticketer.Shared.Models.{Order}
use ticketer.Platform.Uuid.{uuid_digits}
use ticketer.Worker.Repository.{has_key, has_id, find_by_key, set_status}

-- A new status in the last row, which alone has the identifier.
pub set_status-append :
    (id status : String) (reason : Option String) (o : Order) (rows : List Order)
    → has_id id rows ≡ false
    → o.id ≡ id
    → set_status id status reason (rows ++ o ∷ [])
      ≡ rows ++ record o { status = status; failure_reason = reason } ∷ []
unfolding set_status has_id
set_status-append id status reason o [] h e = rw e (rw (eq_refl (uuid_digits id)) refl)
set_status-append id status reason o (x ∷ rows) h e =
    ground (arith, set_status-append id status reason o rows)

-- The row that the unique key finds.
pub find_by_key-append :
    (o : Order) (rows : List Order)
    → has_key o.idempotency_key rows ≡ false
    → find_by_key o.idempotency_key (rows ++ o ∷ []) ≡ some o
unfolding find_by_key has_key
find_by_key-append o [] h = rw (eq_refl o.idempotency_key)
find_by_key-append o (x ∷ rows) h = ground (arith, find_by_key-append o rows)

pub find_by_key-none :
    (key : String) (rows : List Order) → has_key key rows ≡ false → find_by_key key rows ≡ none
unfolding find_by_key has_key
find_by_key-none key [] h = refl
find_by_key-none key (x ∷ rows) h = ground (arith, find_by_key-none key rows)

pub find_by_key-some :
    (key : String) (rows : List Order)
    → has_key key rows ≡ true
    → (o : Order) × (find_by_key key rows ≡ some o) × (o.idempotency_key ≡ key)
unfolding find_by_key has_key
find_by_key-some key [] h = cc
find_by_key-some key (x ∷ rows) h = elim (Bool-cases (x.idempotency_key == key)) [
  | inl q ↦ (x, rw q, (eq_iff _ _).0 q)
  | inr q ↦ let (o, f, k) = find_by_key-some key rows (rw q at h) in (o, rw q f, k)
]

pub has_key-append :
    (key : String) (o : Order) (rows : List Order)
    → o.idempotency_key ≡ key
    → has_key key (rows ++ o ∷ []) ≡ true
unfolding has_key
has_key-append key o [] e = ground (arith, eq_iff o.idempotency_key key)
has_key-append key o (x ∷ rows) e = ground (arith, has_key-append key o rows e)
