-- ===== src/Telemetry/Bridge.antt =====
-- The handlers derived from an OTelHandler of internal/platform/telemetry/slog.go.
use go_blueprint.Prelude.{ℕ, ◌≡◌, refl, List, [], ◌∷◌}
use go_blueprint.Telemetry.{
  Derivation, LogHandler, LogRecord, OTelHandler, SpanIds, add_ids, new_otel_handler, otel_derive,
  otel_enabled, otel_handle,
}

module _ {I : Type 0} (h : LogHandler I) where
  -- WithAttrs and WithGroup, one after the other, on the wrapped handler and on the one that wraps it.
  abbrev pub derive_all : List Derivation → I → I
  derive_all [] i = i
  derive_all (d ∷ ds) i = derive_all ds (h.derive d i)

  abbrev pub otel_derive_all : List Derivation → OTelHandler I → OTelHandler I
  otel_derive_all [] o = o
  otel_derive_all (d ∷ ds) o = otel_derive_all ds (otel_derive h d o)

  -- However a logger is derived from the handler: a record is written by the handler that is derived in the
  -- same way from the wrapped one, with the trace id and the span id of a recording span added and unchanged
  -- without one; and the same levels are enabled.
  pub derived_keeps_bridge :
      (ds : List Derivation) (i : I) (span : SpanIds) (r : LogRecord) (written : List LogRecord)
      (level : ℕ)
      → (otel_handle h (otel_derive_all ds (new_otel_handler h i)) span r written
          ≡ h.handle (derive_all ds i) (add_ids h span r) written)
        × (otel_enabled h (otel_derive_all ds (new_otel_handler h i)) level
            ≡ h.enabled (derive_all ds i) level)
  unfolding otel_handle otel_derive
  derived_keeps_bridge [] i span r written level = (refl, refl)
  derived_keeps_bridge (d ∷ ds) i span r written level =
      derived_keeps_bridge ds (h.derive d i) span r written level
