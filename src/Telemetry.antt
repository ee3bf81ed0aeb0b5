-- ===== src/Telemetry.antt =====
-- internal/platform/telemetry: otel.go, metrics.go, middleware.go, pgxtracer.go and slog.go. The OpenTelemetry SDK, the
-- wrapped slog.Handler and net/http's texts are parameters; a span is the record of what was set on it.
pub mod Flushing
pub mod Bridge
pub mod Queries
pub mod Tests
use go_blueprint.Prelude.{
  ◌-◌, ℕ, ◌+◌, ◌≡◌, Bool, true, false, Option, none, some, List, [], ◌∷◌, ◌++◌, if◌then◌else◌, leb,
  Text, codes,
}
use go_blueprint.Errors.{Error, Result, ok, err, within, text, ◌>>◌, joined}

abbrev pub Answer : Type 0
Answer = Result (Unit {0})

-- What the SDK answers to Setup, in its order.
pub record Setup : Type 0 where
  pub resource_made : Answer
  pub trace_exporter_made : Answer
  pub prometheus_made : Answer

-- Setup. Its Provider shuts down the tracer provider, then the meter provider.
pub data Provider : Type 0 where
  tracer_provider meter_provider : Provider

abbrev pub setup : Setup → Result (List Provider)
setup s = do
  within (codes "telemetry.Setup: resource") s.resource_made
  within (codes "telemetry.Setup: trace exporter") s.trace_exporter_made
  within (codes "telemetry.Setup: prometheus exporter") s.prometheus_made
  ok (tracer_provider ∷ meter_provider ∷ [])

-- errors.Join.
unfoldable pub join_all : List Error → Option Error
join_all [] = none
join_all (e ∷ es) = some (joined e (join_all es))

-- `if err != nil { errs = append(errs, err) }`.
unfoldable pub collect : List Error → Answer → List Error
collect errs (ok u) = errs
collect errs (err e) = errs ++ e ∷ []

-- Provider.Shutdown: `stop` is the Shutdown of one provider, over a state.
module _ {S : Type 0} (stop : Provider → S → S × Answer) where
  unfoldable pub shutdown_each : List Provider → List Error → S → S × List Error
  shutdown_each [] errs s = (s, errs)
  shutdown_each (p ∷ ps) errs s =
      let (s', answer) = stop p s in shutdown_each ps (collect errs answer) s'

  unfoldable pub shutdown : List Provider → S → S × Option Error
  unfolding shutdown_each join_all
  shutdown ps s = let (s', errs) = shutdown_each ps [] s in (s', join_all errs)

-- The instruments of InitMetrics, in its order.
abbrev pub instruments : List Text
instruments =
    codes "http.request.duration"
    ∷ codes "http.requests.total"
    ∷ codes "customer.registrations.total"
    ∷ codes "customer.removals.total"
    ∷ codes "db.query.duration"
    ∷ codes "db.query.errors.total"
    ∷ codes "cache.hits.total"
    ∷ codes "cache.misses.total"
    ∷ codes "outbox.messages.published.total"
    ∷ codes "outbox.publish.failures.total"
    ∷ []

-- `register` is the call of the meter for one name.
unfoldable pub register_all : (Text → Answer) → List Text → Answer
register_all register [] = ok tt
register_all register (name ∷ names) =
    within (codes "telemetry.InitMetrics: " ++ name) (register name) >> register_all register names

unfoldable pub init_metrics : (Text → Answer) → Answer
unfolding register_all
init_metrics register = register_all register instruments

-- trace.Span.
pub record Span : Type 0 where
  pub attributes : List (Text × Text)
  pub recorded : List Text
  pub failure : Option Text
  pub ended : Bool

abbrev pub new_span : Span
new_span = record { attributes = []; recorded = []; failure = none; ended = false }

abbrev pub set_attributes : List (Text × Text) → Span → Span
set_attributes attributes s = record s { attributes = s.attributes ++ attributes }

-- RecordError and SetStatus(codes.Error, err.Error()), with the text of err.
abbrev pub record_failure : Text → Span → Span
record_failure message s = record s {
  recorded = s.recorded ++ message ∷ [];
  failure = some message;
}

-- The handler inside EchoMiddleware, before and after it calls next: `failed` is the text of the error that next
-- returned, if it did, and `status` the status of the response.
abbrev pub name_span : Text → Text → Span → Span
name_span route request_id span =
    set_attributes ((codes "http.route", route) ∷ (codes "http.request_id", request_id) ∷ []) span

unfoldable pub settle_span : (ℕ → Text) → Option Text → ℕ → Span → Span
settle_span status_text (some message) status span = record_failure message span
settle_span status_text none status span =
    if leb 400 status then record span { failure = some (status_text status) } else span

-- The instruments of the database: the durations that were recorded, and the counter of errors. `bound` says
-- whether each of the two variables is not nil.
pub record QueryMetrics : Type 0 where
  pub duration_bound : Bool
  pub errors_bound : Bool
  pub durations : List ℕ
  pub errors : ℕ

-- spanWithStart, as TraceQueryStart puts it into the context.
pub record SpanWithStart : Type 0 where
  pub span : Span
  pub start : ℕ

unfoldable pub trace_query_start : ℕ → Text → Option SpanWithStart
trace_query_start now sql = some (record {
  span =
      set_attributes ((codes "db.system", codes "postgresql") ∷ (codes "db.statement", sql) ∷ [])
        new_span;
  start = now;
})

-- TraceQueryEnd: the metrics after it, and the span that it ended.
unfoldable pub trace_query_end :
    ℕ → Answer → Option SpanWithStart → QueryMetrics → QueryMetrics × Option Span
trace_query_end now answer none m = (m, none)
trace_query_end now answer (some s) m =
    let timed =
      if m.duration_bound
      then record m { durations = m.durations ++ (now - s.start) ∷ [] }
      else m in
    elim answer [
      | ok _ ↦ (timed, some (record s.span { ended = true }))
      | err e ↦ (
        if m.errors_bound then record timed { errors = timed.errors + 1 } else timed,
        some (record (record_failure (text e) s.span) { ended = true }),
      )
    ]

-- slog.Handler, and what WithAttrs and WithGroup derive from one.
pub record LogRecord : Type 0 where
  pub text : Text
  pub attributes : List (Text × Text)

pub data Derivation : Type 0 where
  with_attrs : List (Text × Text) → Derivation
  with_group : Text → Derivation

-- The wrapped handler: its level test, what its Handle writes, and its derivations.
pub record LogHandler (I : Type 0) : Type 0 where
  pub enabled : I → ℕ → Bool
  pub handle : I → LogRecord → List LogRecord → List LogRecord × Answer
  pub derive : Derivation → I → I

-- The span of a context, if it is recording: its trace id and its span id.
abbrev pub SpanIds : Type 0
SpanIds = Option (Text × Text)

-- OTelHandler.
pub record OTelHandler (I : Type 0) : Type 0 where
  pub inner : I

module _ {I : Type 0} (h : LogHandler I) where
  abbrev pub new_otel_handler : I → OTelHandler I
  new_otel_handler i = record { inner = i }

  abbrev pub add_ids : SpanIds → LogRecord → LogRecord
  add_ids none r = r
  add_ids (some (trace_id, span_id)) r = record r {
    attributes = r.attributes ++ (codes "trace_id", trace_id) ∷ (codes "span_id", span_id) ∷ [];
  }

  unfoldable pub otel_handle :
      OTelHandler I → SpanIds → LogRecord → List LogRecord → List LogRecord × Answer
  otel_handle o span r written = h.handle o.inner (add_ids span r) written

  abbrev pub otel_enabled : OTelHandler I → ℕ → Bool
  otel_enabled o level = h.enabled o.inner level

  unfoldable pub otel_derive : Derivation → OTelHandler I → OTelHandler I
  otel_derive d o = record { inner = h.derive d o.inner }
