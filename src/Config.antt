-- ===== src/Config.antt =====
-- internal/platform/config/config.go. The tables are those of Load, in its order; viper is a parameter.
use go_blueprint.Prelude.{
  ◌≡◌, inl, inr, Bool, false, Option, none, some, List, [], ◌∷◌, ◌++◌, arith, if◌then◌else◌,
  Option-cases, Text, codes, is_empty,
}
use go_blueprint.Product.{ℤ}
use go_blueprint.Errors.{Result-cases, Error, Result, ok, err, wrap}

-- Config; a duration is in nanoseconds.
pub record Config : Type 0 where
  pub env : Text
  pub addr : Text
  pub database_url : Text
  pub event_log_path : Text
  pub jwt_secret : Text
  pub jwt_expiry : ℤ
  pub log_level : Text
  pub redis_addr : Text
  pub redis_password : Text
  pub redis_db : ℤ
  pub cache_ttl : ℤ
  pub worker_count : ℤ
  pub worker_queue : ℤ
  pub worker_drain_timeout : ℤ
  pub outbox_interval : ℤ
  pub outbox_batch : ℤ
  pub outbox_max_attempts : ℤ
  pub otel_enabled : Bool
  pub otel_service_name : Text
  pub otel_endpoint : Text
  pub metrics_addr : Text
  pub grpc_enabled : Bool
  pub grpc_addr : Text
  pub mongo_uri : Text
  pub mongo_database : Text
  pub kafka_enabled : Bool
  pub kafka_brokers : Text
  pub kafka_topic_customers : Text
  pub kafka_dlq_topic : Text
  pub kafka_consumer_group : Text
  pub kafka_producer_retries : ℤ

-- The calls of SetDefault, each value as it is written.
abbrev pub defaults : List (Text × Text)
defaults =
    (codes "env", codes "development")
    ∷ (codes "addr", codes ":8080")
    ∷ (codes "event_log_path", codes "./data/events.db")
    ∷ (codes "jwt_expiry", codes "24h")
    ∷ (codes "log_level", codes "info")
    ∷ (codes "redis_addr", [])
    ∷ (codes "redis_password", [])
    ∷ (codes "redis_db", codes "0")
    ∷ (codes "cache_ttl", codes "5m")
    ∷ (codes "worker_count", codes "4")
    ∷ (codes "worker_queue", codes "100")
    ∷ (codes "worker_drain_timeout", codes "15s")
    ∷ (codes "outbox_interval", codes "5")
    ∷ (codes "outbox_batch", codes "50")
    ∷ (codes "outbox_max_attempts", codes "5")
    ∷ (codes "otel_enabled", codes "false")
    ∷ (codes "otel_service_name", codes "go-blueprint")
    ∷ (codes "otel_endpoint", codes "localhost:4318")
    ∷ (codes "metrics_addr", codes ":9091")
    ∷ (codes "grpc_enabled", codes "false")
    ∷ (codes "grpc_addr", codes ":9090")
    ∷ (codes "mongo_uri", codes "mongodb://localhost:27017")
    ∷ (codes "mongo_database", codes "go_blueprint")
    ∷ (codes "kafka_enabled", codes "false")
    ∷ (codes "kafka_brokers", codes "localhost:9092")
    ∷ (codes "kafka_topic_customers", codes "customers.events")
    ∷ (codes "kafka_dlq_topic", codes "customers.events.dlq")
    ∷ (codes "kafka_consumer_group", codes "go-blueprint")
    ∷ (codes "kafka_producer_retries", codes "3")
    ∷ []

-- The calls of BindEnv.
abbrev pub bindings : List (Text × Text)
bindings =
    (codes "database_url", codes "DATABASE_URL")
    ∷ (codes "jwt_secret", codes "JWT_SECRET")
    ∷ (codes "redis_addr", codes "REDIS_ADDR")
    ∷ (codes "redis_password", codes "REDIS_PASSWORD")
    ∷ (codes "redis_db", codes "REDIS_DB")
    ∷ (codes "cache_ttl", codes "CACHE_TTL")
    ∷ (codes "worker_drain_timeout", codes "WORKER_DRAIN_TIMEOUT")
    ∷ (codes "otel_enabled", codes "OTEL_ENABLED")
    ∷ (codes "otel_service_name", codes "OTEL_SERVICE_NAME")
    ∷ (codes "otel_endpoint", codes "OTEL_EXPORTER_OTLP_ENDPOINT")
    ∷ (codes "metrics_addr", codes "METRICS_ADDR")
    ∷ (codes "grpc_enabled", codes "GRPC_ENABLED")
    ∷ (codes "grpc_addr", codes "GRPC_ADDR")
    ∷ (codes "mongo_uri", codes "MONGO_URI")
    ∷ (codes "mongo_database", codes "MONGO_DATABASE")
    ∷ (codes "kafka_enabled", codes "KAFKA_ENABLED")
    ∷ (codes "kafka_brokers", codes "KAFKA_BROKERS")
    ∷ (codes "kafka_topic_customers", codes "KAFKA_TOPIC_CUSTOMERS")
    ∷ (codes "kafka_dlq_topic", codes "KAFKA_DLQ_TOPIC")
    ∷ (codes "kafka_consumer_group", codes "KAFKA_CONSUMER_GROUP")
    ∷ (codes "kafka_producer_retries", codes "KAFKA_PRODUCER_RETRIES")
    ∷ []

-- viper with the environment and the files of the process: BindEnv, and Unmarshal over the defaults and
-- the variables that are bound.
pub record Viper : Type 0 where
  pub bind_env : Text → Text → Option Error
  pub unmarshal : List (Text × Text) → List (Text × Text) → Result Config

-- validate.
unfoldable pub validate : Config → Option Error
validate cfg =
    if is_empty cfg.database_url
    then some (Error.opaque (codes "config: DATABASE_URL is required"))
    else if is_empty cfg.jwt_secret
    then some (Error.opaque (codes "config: JWT_SECRET is required"))
    else none

-- The calls of BindEnv, up to the first that fails.
unfoldable pub bind_all : Viper → List (Text × Text) → Option Error
bind_all viper [] = none
bind_all viper ((key, variable) ∷ rest) =
    let later = bind_all viper rest in
    elim (viper.bind_env key variable) [
      | none ↦ later
      | some e ↦ some (wrap (codes "config: bind " ++ variable) e)
    ]

-- Load.
unfoldable pub load : Viper → Result Config
unfolding bind_all validate
load viper = elim (bind_all viper bindings) [
  | some e ↦ err e
  | none ↦ elim (viper.unmarshal defaults bindings) [
    | err e ↦ err (wrap (codes "config: unmarshal") e)
    | ok cfg ↦ elim (validate cfg) [ some e ↦ err e | none ↦ ok cfg ]
  ]
]

validated :
    (found cfg : Config)
    → ◌≡◌ {A = Result Config} (elim (validate found) [ some e ↦ err e | none ↦ ok found ]) (ok cfg)
    → (is_empty cfg.database_url ≡ false) × (is_empty cfg.jwt_secret ≡ false)
unfolding validate
validated found cfg h = ground arith

-- A configuration that was loaded names a database and has a secret.
load_is_valid :
    (viper : Viper) (cfg : Config)
    → load viper ≡ ok cfg
    → (is_empty cfg.database_url ≡ false) × (is_empty cfg.jwt_secret ≡ false)
unfolding load
load_is_valid viper cfg h = elim (Option-cases (bind_all viper bindings)) [
  | inr (e, failed) ↦ cc (rw (failed, load) at h)
  | inl bound ↦ elim (Result-cases (viper.unmarshal defaults bindings)) [
    | inr (e, failed) ↦ cc (rw (bound, failed, load) at h)
    | inl (found, read) ↦ validated found cfg (rw (bound, read, load) at h)
  ]
]
