-- ===== src/Telemetry/Tests.antt =====
-- Telemetry on concrete data.
use go_blueprint.Prelude.{ℕ, ◌+◌, ◌≡◌, refl, true, List, [], ◌∷◌, Text, codes, some}
use go_blueprint.Errors.{Error, ok, err, sentinel, pool_full}
use go_blueprint.Telemetry.{
  trace_query_end, otel_derive, collect, trace_query_start, Answer, Derivation, LogHandler,
  LogRecord, Provider, QueryMetrics, meter_provider, new_otel_handler, otel_handle, shutdown,
  tracer_provider, with_attrs, with_group,
}
use go_blueprint.Telemetry.Bridge.{otel_derive_all}
use go_blueprint.Telemetry.Queries.{Query, trace_all}

-- The tracer provider fails to flush; the state counts the calls.
abbrev stop : Provider → ℕ → ℕ × Answer
stop tracer_provider n = (n + 1, err (sentinel pool_full))
stop meter_provider n = (n + 1, ok tt)

abbrev providers : List Provider
providers = tracer_provider ∷ meter_provider ∷ []

shutdown_counts_both : (shutdown stop providers 0).0 ≡ 2
unfolding shutdown
shutdown_counts_both = refl

shutdown_joins : (shutdown stop providers 0).1 ≡ some (sentinel pool_full)
unfolding shutdown collect
shutdown_joins = refl

-- A handler that keeps attributes before those of the record.
abbrev plain : LogHandler (List (Text × Text))
plain = record {
  enabled = λ i level. true;
  handle = λ i r written. (r ∷ written, ok tt);
  derive = λ d i. i;
}

abbrev hello : LogRecord
hello = record { text = codes "hello"; attributes = [] }

abbrev derivations : List Derivation
derivations = with_attrs ((codes "service", codes "api") ∷ []) ∷ with_group (codes "http") ∷ []

writes_ids :
    (otel_handle plain
      (otel_derive_all plain derivations (new_otel_handler plain []))
      (some (codes "1", codes "2"))
      hello
      []).0
    ≡ record hello {
      attributes = (codes "trace_id", codes "1") ∷ (codes "span_id", codes "2") ∷ [];
    }
      ∷ []
unfolding otel_handle otel_derive
writes_ids = refl

abbrev metrics : QueryMetrics
metrics = record { duration_bound = true; errors_bound = true; durations = []; errors = 0 }

abbrev queries : List Query
queries =
    record { started = 5; finished = 9; sql = codes "SELECT 1"; answer = ok tt }
    ∷ record {
      started = 9;
      finished = 10;
      sql = codes "SELECT x";
      answer = err (Error.opaque (codes "no column"));
    }
    ∷ []

counts_one_failure : (trace_all queries metrics).0.errors ≡ 1
unfolding trace_all trace_query_start trace_query_end
counts_one_failure = refl

records_durations : (trace_all queries metrics).0.durations ≡ 4 ∷ 1 ∷ []
unfolding trace_all trace_query_start trace_query_end
records_durations = refl
