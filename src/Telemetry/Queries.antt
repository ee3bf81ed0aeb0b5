-- ===== src/Telemetry/Queries.antt =====
-- The queries that PgxTracer of internal/platform/telemetry/pgxtracer.go traces.
use go_blueprint.Prelude.{
  ℕ, ◌+◌, ◌-◌, ◌≡◌, refl, Bool, true, false, not, ◌&&◌, Option, none, some, List, [], ◌∷◌, arith,
  if◌then◌else◌, Text, length, is_none, length-append,
}
use go_blueprint.Errors.{is_ok}
use go_blueprint.Telemetry.{Answer, QueryMetrics, Span, trace_query_end, trace_query_start}

-- A query: when it started and ended, its SQL, and how it ended.
pub record Query : Type 0 where
  pub started : ℕ
  pub finished : ℕ
  pub sql : Text
  pub answer : Answer

abbrev pub trace_query : Query → QueryMetrics → QueryMetrics × Option Span
trace_query q m = trace_query_end q.finished q.answer (trace_query_start q.started q.sql) m

unfoldable pub trace_all : List Query → QueryMetrics → QueryMetrics × List (Option Span)
trace_all [] m = (m, [])
trace_all (q ∷ qs) m =
    let (m', span) = trace_query q m in let (m'', spans) = trace_all qs m' in (m'', span ∷ spans)

-- The queries that failed.
abbrev pub failures : List Query → ℕ
failures [] = 0
failures (q ∷ qs) = (if is_ok q.answer then 0 else 1) + failures qs

-- Each query has its span, ended, with a failure exactly if the query failed.
abbrev pub spans_fit : List Query → List (Option Span) → Bool
spans_fit [] [] = true
spans_fit (q ∷ qs) (some s ∷ spans) =
    s.ended
    && (if is_ok q.answer then is_none s.failure else not (is_none s.failure))
    && spans_fit qs spans
spans_fit _ _ = false

abbrev is_bound : QueryMetrics → Bool
is_bound m = m.duration_bound && m.errors_bound

query_step :
    (q : Query) (m : QueryMetrics)
    → is_bound m ≡ true
    → (is_bound (trace_query q m).0 ≡ true)
      × ((trace_query q m).0.errors ≡ m.errors + (if is_ok q.answer then 0 else 1))
      × (length (trace_query q m).0.durations ≡ length m.durations + 1)
      × (spans_fit (q ∷ []) ((trace_query q m).1 ∷ []) ≡ true)
unfolding trace_query_end trace_query_start
query_step q m bound = (
  ground arith,
  ground arith,
  ground (arith, length-append m.durations ((q.finished - q.started) ∷ [])),
  ground arith,
)

spans_fit-cons :
    (q : Query) (span : Option Span) (qs : List Query) (spans : List (Option Span))
    → spans_fit (q ∷ []) (span ∷ []) ≡ true
    → spans_fit qs spans ≡ true
    → spans_fit (q ∷ qs) (span ∷ spans) ≡ true
spans_fit-cons q none qs spans h k = cc h
spans_fit-cons q (some s) qs spans h k = ground (arith, h, k)

-- With the instruments that InitMetrics binds: over any queries, the counter of errors grows by the
-- queries that failed, each query records one duration, and each has one span, which is ended, and whose
-- status is an error exactly if the query failed.
pub queries_traced :
    (qs : List Query) (m : QueryMetrics)
    → (m.duration_bound && m.errors_bound) ≡ true
    → ((trace_all qs m).0.errors ≡ m.errors + failures qs)
      × (length (trace_all qs m).0.durations ≡ length m.durations + length qs)
      × (spans_fit qs (trace_all qs m).1 ≡ true)
unfolding trace_all
queries_traced [] m bound = (omega arith, omega arith, refl)
queries_traced (q ∷ qs) m bound =
    let (still, counted, timed, fits) = query_step q m bound in
    let (errors, durations, spans) = queries_traced qs (trace_query q m).0 still in
    (
      omega (arith, counted, errors),
      omega (arith, timed, durations),
      spans_fit-cons q (trace_query q m).1 qs (trace_all qs (trace_query q m).0).1 fits spans,
    )
