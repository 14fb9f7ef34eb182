-- ===== src/Json/Event.antt =====
-- json.Marshal and json.Unmarshal at the struct OrderEvent of shared/events/events.go.
use Prim.Native.Char.{Char, code}
use package.text.Mathlib.TextBridge.{of_list}
use ticketer.Json.Text.{chars}
use ticketer.Base.{
  ℕ, ◌-◌, String, Bool, true, false, ◌&&◌, Option, none, some, List, [], ◌∷◌, ◌++◌, ℤ, pos, Result,
  ok, err, eqb, leb, if◌then◌else◌,
}
use ticketer.Strconv.{itoa, atoi}
use ticketer.Shared.Events.{OrderEvent}
use ticketer.Json.{escapes}
use ticketer.Json.Parser.{Value, nothing, mapping, number, literal, read}

-- MarshalJSON and UnmarshalJSON of time.Time, between the quotes.
pub record Clock : Type 0 where
  pub print : ℕ → Result (List Char)
  pub parse : List Char → Option ℕ

abbrev pub quoted : List Char → List Char
quoted s = "\"" ∷ (s ++ "\"" ∷ [])

-- A string, as Marshal writes it.
abbrev pub text : String → List Char
text s = quoted (escapes (chars s))

-- `"name":value`, and a comma in front of all members but the first
abbrev pub member : String → List Char → List Char
member name v = quoted (chars name) ++ ":" ∷ v

abbrev pub document_of : OrderEvent → List Char → List Char
document_of v time =
    "{"
    ∷ (member "event_type" (text v.event_type)
        ++ ","
          ∷ (member "order_id" (text v.order_id)
              ++ ","
                ∷ (member "user_id" (text v.user_id)
                    ++ ","
                      ∷ (member "event_id" (text v.event_id)
                          ++ ","
                            ∷ (member "idempotency_key" (text v.idempotency_key)
                                ++ ","
                                  ∷ (member "retry_count" (chars (itoa v.retry_count))
                                      ++ ","
                                        ∷ (member "timestamp" (quoted time)
                                            ++ ","
                                              ∷ (member "trace_id" (text v.trace_id)
                                                  ++ "}" ∷ []))))))))

abbrev pub printed : OrderEvent → Result (List Char) → Result String
printed v (err m) = err m
printed v (ok time) = ok (of_list (document_of v time))

unfoldable pub marshal_event : Clock → OrderEvent → Result String
marshal_event clock v = printed v (clock.print v.timestamp)

-- Two letters of a key that differ only in their case; two characters beyond ASCII fold to letters.
abbrev fold : ℕ → ℕ
fold n =
    if leb b'a' n && leb n b'z'
    then n - 32
    else if eqb n 0x17f
    then b'S'
    else if eqb n 0x212a
    then b'K'
    else n

abbrev same_fold : List Char → List Char → Bool
same_fold [] [] = true
same_fold (c ∷ s) (d ∷ t) = eqb (fold (code c)) (fold (code d)) && same_fold s t
same_fold _ _ = false

abbrev names : String → List Char → Bool
names name key = same_fold (chars name) key

-- The zero value that Unmarshal starts from.
abbrev pub zero_event : OrderEvent
zero_event = record {
  event_type = "";
  order_id = "";
  user_id = "";
  event_id = "";
  idempotency_key = "";
  retry_count = pos 0;
  timestamp = 0;
  trace_id = "";
}

-- A value for a string, a number or a time; null leaves what is there.
abbrev as_string : Value → String → Option String
as_string nothing old = some old
as_string (literal raw v) old = some (of_list v)
as_string _ old = none

abbrev in_int64 : Result ℤ → Option ℤ
in_int64 (ok n) = some n
in_int64 (err m) = none

abbrev pub as_int : Value → ℤ → Option ℤ
as_int nothing old = some old
as_int (number t) old = in_int64 (atoi (of_list t))
as_int _ old = none

abbrev pub as_time : Clock → Value → ℕ → Option ℕ
as_time clock nothing old = some old
as_time clock (literal raw v) old = clock.parse raw
as_time clock _ old = none

abbrev pub with_field : {A : Type 0} → (A → OrderEvent) → Option A → Option OrderEvent
with_field set none = none
with_field set (some a) = some (set a)

-- One member of the document; a key that names no field is skipped.
unfoldable pub assign : Clock → List Char → Value → OrderEvent → Option OrderEvent
assign clock key x v =
    if names "event_type" key
    then with_field (λ s. record v { event_type = s }) (as_string x v.event_type)
    else if names "order_id" key
    then with_field (λ s. record v { order_id = s }) (as_string x v.order_id)
    else if names "user_id" key
    then with_field (λ s. record v { user_id = s }) (as_string x v.user_id)
    else if names "event_id" key
    then with_field (λ s. record v { event_id = s }) (as_string x v.event_id)
    else if names "idempotency_key" key
    then with_field (λ s. record v { idempotency_key = s }) (as_string x v.idempotency_key)
    else if names "retry_count" key
    then with_field (λ n. record v { retry_count = n }) (as_int x v.retry_count)
    else if names "timestamp" key
    then with_field (λ t. record v { timestamp = t }) (as_time clock x v.timestamp)
    else if names "trace_id" key
    then with_field (λ s. record v { trace_id = s }) (as_string x v.trace_id)
    else some v

unfoldable pub assign_all : Clock → List (List Char × Value) → OrderEvent → Option OrderEvent
assign_all clock [] v = some v
assign_all clock ((key, x) ∷ members) v = elim (assign clock key x v) [
  | none ↦ none
  | some u ↦ assign_all clock members u
]

abbrev no_event : Result OrderEvent
no_event = err "json: cannot unmarshal into Go value of type events.OrderEvent"

abbrev pub assigned : Option OrderEvent → Result OrderEvent
assigned none = no_event
assigned (some v) = ok v

-- By the value of the document; null changes nothing.
abbrev pub decoded : Clock → Value → List (List Char × Value) → Result OrderEvent
decoded clock mapping members = assigned (assign_all clock members zero_event)
decoded clock nothing members = ok zero_event
decoded clock _ members = no_event

unfoldable pub unmarshal_event : Clock → String → Result OrderEvent
unmarshal_event clock t = elim (read (chars t)) [
  | none ↦ err "invalid character in JSON"
  | some p ↦ decoded clock p.top p.members
]
