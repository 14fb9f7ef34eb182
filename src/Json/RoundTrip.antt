-- ===== src/Json/RoundTrip.antt =====
-- An OrderEvent that Marshal printed is read back.
use Prim.Native.Char.{Char}
use package.text.Mathlib.TextBridge.{of_list}
use ticketer.Base.{
  ok_inj, ℕ, String, some, ◌≡◌, refl, ap, ◌∙◌, inl, inr, Result-cases, List, [], ◌∷◌, ok, IsInt64,
}
use ticketer.Strconv.{itoa}
use ticketer.Strconv.RoundTrip.{atoi-itoa}
use ticketer.Shared.Events.{OrderEvent}
use ticketer.Json.{escapes}
use ticketer.Json.Text.{chars, of_list-chars, chars-of_list}
use ticketer.Json.Documents.{IsPlain, event_tokens, tokens-document_of}
use ticketer.Json.Parser.{
  Value, mapping, number, literal, Parse, document, read, parse, shift, finished,
}
use ticketer.Json.Event.{
  Clock, document_of, zero_event, assign, assign_all, marshal_event, unmarshal_event,
}

-- The print of a time needs no escapes and is read back as the same time.
abbrev pub IsClock : Clock → Type 0
IsClock clock =
    (t : ℕ) (s : List Char) → clock.print t ≡ ok s → IsPlain s × (clock.parse s ≡ some t)

abbrev of_string : String → String → List Char × Value
of_string name s = (chars name, literal (escapes (chars s)) (chars s))

abbrev members_of : OrderEvent → List Char → List (List Char × Value)
members_of v time =
    of_string "event_type" v.event_type
    ∷ of_string "order_id" v.order_id
    ∷ of_string "user_id" v.user_id
    ∷ of_string "event_id" v.event_id
    ∷ of_string "idempotency_key" v.idempotency_key
    ∷ (chars "retry_count", number (chars (itoa v.retry_count)))
    ∷ (chars "timestamp", literal time time)
    ∷ of_string "trace_id" v.trace_id
    ∷ []

abbrev parsed : OrderEvent → List Char → Parse
parsed v time = record {
  stack = [];
  expect = finished;
  current = chars "trace_id";
  members = members_of v time;
  top = mapping;
}

parse-event_tokens :
    (v : OrderEvent) (time : List Char)
    → parse (event_tokens v time) document ≡ some (parsed v time)
unfolding parse shift
parse-event_tokens v time = refl

assign_all-members_of :
    (clock : Clock) (v : OrderEvent) (time : List Char)
    → IsInt64 v.retry_count
    → clock.parse time ≡ some v.timestamp
    → assign_all clock (members_of v time) zero_event ≡ some v
unfolding assign_all assign chars
assign_all-members_of clock v time b h =
    rw (assign_all, of_list-chars (itoa v.retry_count), atoi-itoa v.retry_count b)
      (rw (assign, h)
        (rw
          (
            of_list-chars v.event_type,
            of_list-chars v.order_id,
            of_list-chars v.user_id,
            of_list-chars v.event_id,
            of_list-chars v.idempotency_key,
            of_list-chars v.trace_id,
          )
          refl))

read-document_of :
    (v : OrderEvent) (time : List Char)
    → IsPlain time
    → read (chars (of_list (document_of v time))) ≡ some (parsed v time)
unfolding read
read-document_of v time p =
    ap read (chars-of_list (document_of v time))
    ∙ rw (read, tokens-document_of v time p) (parse-event_tokens v time)

-- Let the JSON of a time need no escapes and be read back as the same time, and let the retry count
-- of an event fit into 64 bits. Then the text that Marshal gives for the event, if it gives one, is
-- read back by Unmarshal as the same event, whatever characters its strings have.
pub unmarshal_event-marshal_event :
    (clock : Clock) (v : OrderEvent) (t : String)
    → IsClock clock
    → IsInt64 v.retry_count
    → marshal_event clock v ≡ ok t
    → unmarshal_event clock t ≡ ok v
unfolding marshal_event unmarshal_event read
unmarshal_event-marshal_event clock v t k b h = elim (Result-cases (clock.print v.timestamp)) [
  | inr (m, e) ↦ let g = rw e at h in cc
  | inl (time, e) ↦
      let law = k v.timestamp time e in
      rw (← ok_inj (rw (e) at h)) (
        rw (unmarshal_event, read-document_of v time law.0)
          (rw (assign_all-members_of clock v time b law.1) refl))
]
