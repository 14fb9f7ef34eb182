-- ===== src/Telemetry.antt =====
-- services/api-gateway/telemetry/tracer.go, whose text services/order-worker/telemetry/tracer.go
-- repeats with its own service name: the set-up of OpenTelemetry.
use Prim.Native.Char.{Char, len_utf8}
use Prim.Native.String.{◌++◌, len, slice}
use Prim.Native.String.len
use text.Mathlib.Text.{starts_with}
use text.Mathlib.TextEquality.{starts_with_iff}
use text.Mathlib.TextPositions.{len-append, len_utf8-pos, slice-append_right, starts_with-append}
use ticketer.Base.{
  ◌+◌, ◌<◌, String, true, false, ◌≡◌, refl, sym, ◌∙◌, ap, ◌≢◌, ◌⊎◌, inl, inr, arith, ◌&&◌, ◌==◌,
  ltb, Option, none, some, List, [], ◌∷◌, Result, ok, err, if◌then◌else◌, Bool-cases,
}
use ticketer.Platform.Startup.{Host}

-- stripProtocol; a length and a position count bytes, as in Go.
unfoldable pub strip_protocol : String → String
strip_protocol endpoint =
    if ltb 7 (len endpoint) && (slice endpoint 0 7 == "http://")
    then slice endpoint 7 (len endpoint)
    else if ltb 8 (len endpoint) && (slice endpoint 0 8 == "https://")
    then slice endpoint 8 (len endpoint)
    else endpoint

-- A tracer provider: where its exporter sends the spans, and the resource that it names.
pub record TracerProvider : Type 0 where
  pub endpoint : String
  pub service_name : String
  pub service_version : String

-- The globals of the package otel.
pub record Otel : Type 0 where
  pub provider : Option TracerProvider
  pub propagators : List String

abbrev new_provider : String → String → Otel → Result TracerProvider × Otel
new_provider service endpoint otel =
    let tp : TracerProvider = record {
      endpoint = endpoint;
      service_name = service;
      service_version = "1.0.0";
    } in
    (ok tp, record { provider = some tp; propagators = "tracecontext" ∷ "baggage" ∷ [] })

abbrev with_resource : Option String → String → String → Otel → Result TracerProvider × Otel
with_resource (some m) service endpoint otel = (err m, otel)
with_resource none service endpoint otel = new_provider service endpoint otel

abbrev with_exporter : Host → Option String → String → String → Otel → Result TracerProvider × Otel
with_exporter host (some m) service endpoint otel = (err m, otel)
with_exporter host none service endpoint otel =
    with_resource (host.resource_error service "1.0.0") service endpoint otel

-- InitTracer, of the service with this name
unfoldable pub init_tracer : Host → String → String → Otel → Result TracerProvider × Otel
init_tracer host service jaeger_endpoint otel =
    let endpoint = strip_protocol jaeger_endpoint in
    with_exporter host (host.exporter_error endpoint) service endpoint otel

len_pos : (c : Char) (s : String) → 0 < len (String.◌∷◌ c s)
len_pos c s =
    let (k, pos) = len_utf8-pos c in
    let whole : len (String.◌∷◌ c s) ≡ len_utf8 c + len s = λ i. len.cons c s i in
    omega (arith, pos, whole)

-- A text that is longer than its prefix is cut behind it.
behind :
    (p endpoint : String)
    → (ltb (len p) (len endpoint) && starts_with endpoint p) ≡ true
    → (rest : String) × (rest ≢ "")
      × (endpoint ≡ p ++ rest)
      × (slice endpoint (len p) (len endpoint) ≡ rest)
behind p endpoint h =
    let (rest, whole) = (starts_with_iff endpoint p).0 (ground arith) in
    let l : len p < len endpoint = ground arith in
    let m : len p + len rest ≡ len endpoint = sym (len-append p rest) ∙ ap len whole in
    (
      rest,
      λ e. omega (arith, l, m, ap len e),
      sym whole,
      rw (← m, ← whole) (slice-append_right p rest),
    )

nothing_behind :
    (p rest : String)
    → (ltb (len p) (len (p ++ rest)) && starts_with (p ++ rest) p) ≡ false
    → rest ≡ ""
nothing_behind p String.[] h = refl
nothing_behind p (String.◌∷◌ c s) h =
    let rest : String = String.◌∷◌ c s in
    let longer : len p < len (p ++ rest) = omega (arith, len-append p rest, len_pos c s) in
    absurd (ground (arith, starts_with-append p rest))

-- What is left of an endpoint: the text behind one of the two schemes, or all of it.
abbrev pub Stripped : String → String → Type 0
Stripped endpoint out =
    ((rest : String) × (rest ≢ "") × (endpoint ≡ "http://" ++ rest) × (out ≡ rest))
    ⊎ ((rest : String) × (rest ≢ "") × (endpoint ≡ "https://" ++ rest) × (out ≡ rest))
    ⊎ ((out ≡ endpoint)
        × ((rest : String) → endpoint ≡ "http://" ++ rest → rest ≡ "")
        × ((rest : String) → endpoint ≡ "https://" ++ rest → rest ≡ ""))

-- For every endpoint: what is left is the text behind http:// or behind https://, if there is such
-- a text and it is not empty, and otherwise the endpoint as it is.
pub strip_protocol-Stripped : (endpoint : String) → Stripped endpoint (strip_protocol endpoint)
unfolding strip_protocol
strip_protocol-Stripped endpoint =
    elim (Bool-cases (ltb 7 (len endpoint) && (slice endpoint 0 7 == "http://"))) [
      | inl h ↦ rw h (inl (behind "http://" endpoint h))
      | inr h ↦ elim (Bool-cases (ltb 8 (len endpoint) && (slice endpoint 0 8 == "https://"))) [
        | inl k ↦ rw (h, k) (inr (inl (behind "https://" endpoint k)))
        | inr k ↦
            rw (h, k)
              (inr (
                inr (
                  refl,
                  λ rest e. nothing_behind "http://" rest (rw e at h),
                  λ rest e. nothing_behind "https://" rest (rw e at k),
                )))
      ]
    ]
