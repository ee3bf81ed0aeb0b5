-- ===== src/Process/Health.antt =====
-- healthCheck of internal/platform/server/server.go and parseLevel of cmd/api/main.go.
use go_blueprint.Prelude.{if◌then◌else◌, Text, codes, text_eq}
use go_blueprint.Errors.{Result, ok, err}

pub record Health : Type 0 where
  pub status : Text
  pub version : Text
  pub uptime : Text
  pub env : Text
  pub cache : Text

-- The body of the answer 200; `pinged` is what the cache says to Ping.
abbrev pub health_check : Text → Text → Result (Unit {0}) → Health
health_check env uptime pinged = record {
  status = codes "ok";
  version = codes "1.0.0";
  uptime = uptime;
  env = env;
  cache = elim pinged [ ok _ ↦ codes "ok" | err e ↦ codes "degraded" ];
}

-- slog.Level.
pub data Level : Type 0 where
  debug info warn error : Level

unfoldable pub parse_level : Text → Level
parse_level level =
    if text_eq level (codes "debug")
    then debug
    else if text_eq level (codes "warn")
    then warn
    else if text_eq level (codes "error")
    then error
    else info
