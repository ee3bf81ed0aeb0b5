-- ===== src/Process/Startup.antt =====
-- main of cmd/api/main.go as a program over what it opens and closes: the calls that may fail, os.Exit, and the
-- deferred calls; with database.NewPool, mongodb.NewClient and EnsureIndexes, eventlog.NewSQLiteStore,
-- telemetry.Setup and the constructors of internal/platform/kafka, which it calls.
use go_blueprint.Prelude.{ℕ, Bool, true, false, List, [], ◌∷◌, ◌++◌, codes, Text}
use go_blueprint.Errors.{Result, ok, err, within}
use go_blueprint.Errors
use go_blueprint.Config.{Config}
use go_blueprint.Indexes.{IndexModel, ensure_indexes}
use go_blueprint.Cache.{choose_cache, Backend, redis, noop}
use go_blueprint.Telemetry.{Setup, setup, init_metrics}

-- What main opens, or what it starts and later stops.
pub data Resource : Type 0 where
  signals telemetry metrics_server postgres migration_db event_log cache : Resource
  drain_timer worker_pool dlq_writer producer consumer mongo grpc_server : Resource

-- `serves` is server.Start, from the first request to the end of its own shutdown.
pub data Act : Type 0 where
  opens closes : Resource → Act
  launches_consumer launches_poller serves : Act

-- The deferred calls, the latest first, and what was done.
pub record Boot : Type 0 where
  pub deferred : List Resource
  pub past : List Act

-- os.Exit(1) ends the process without the deferred calls.
pub data Ending (A : Type 0) : Type 0 where
  goes : A → Ending A
  exits : Ending A

abbrev pub M : Type 0 → Type 0
M A = Boot → Boot × Ending A

infixl 5 ◌>>=◌ ◌>>◌
unfoldable pub ◌>>=◌ : {A B : Type 0} → M A → (A → M B) → M B
◌>>=◌ m f s = let (s', e) = m s in elim e [ goes a ↦ f a s' | exits ↦ (s', exits) ]

abbrev pub ◌>>◌ : {A B : Type 0} → M A → M B → M B
m >> k = m >>= λ _. k

abbrev pub Answer : Type 0
Answer = Result (Unit {0})

abbrev pub pure : {A : Type 0} → A → M A
pure a s = (s, goes a)

abbrev pub does : Act → M (Unit {0})
does a s = (record s { past = s.past ++ a ∷ [] }, goes tt)

abbrev pub defers : Resource → M (Unit {0})
defers r s = (record s { deferred = r ∷ s.deferred }, goes tt)

-- `if err != nil { ...; os.Exit(1) }`.
abbrev pub or_exit : {A : Type 0} → M (Result A) → M A
or_exit m s =
    let (s', e) = m s in
    elim e [ exits ↦ (s', exits) | goes r ↦ elim r [ ok a ↦ (s', goes a) | err x ↦ (s', exits) ] ]

abbrev pub when : Bool → M (Unit {0}) → M (Unit {0})
when true m = m
when false m = pure tt

-- What the calls that leave the process answer.
pub record Host : Type 0 where
  pub setup : Setup
  pub instrument : Text → Answer
  pub pool_parsed : Answer
  pub pool_made : Answer
  pub pool_pinged : Answer
  pub goose_opened : Answer
  pub goose_up : Answer
  pub directory_made : Answer
  pub sqlite_opened : Answer
  pub sqlite_pinged : Answer
  pub sqlite_migrated : Answer
  pub redis_pinged : Answer
  pub dlq_made : Answer
  pub producer_made : Answer
  pub consumer_made : Answer
  pub mongo_connected : Answer
  pub mongo_pinged : Answer
  pub create_indexes : Text → List IndexModel → Answer
  pub listened : Answer
  pub served : Answer

-- database.NewPool, by what ParseConfig, NewWithConfig and Ping answer: a pool that does not answer to Ping
-- is closed again.
unfoldable pub new_pool : Answer → Answer → Answer → M Answer
new_pool (err e) made pinged = pure (within (codes "database: parse config") (err e))
new_pool (ok _) (err e) pinged = pure (within (codes "database: create pool") (err e))
new_pool (ok _) (ok _) (err e) = do
  does (opens postgres)
  does (closes postgres)
  pure (within (codes "database: ping") (err e))
new_pool (ok _) (ok _) (ok _) = do does (opens postgres); pure (ok tt)

-- runMigrations, by what OpenDBWithDriver and Up answer: its own connection is closed by its defer.
unfoldable pub run_migrations : Answer → Answer → M Answer
run_migrations (err e) up = pure (err e)
run_migrations (ok _) up = do does (opens migration_db); does (closes migration_db); pure up

-- eventlog.NewSQLiteStore, by what Open, Ping and migrate answer: nothing closes the database again.
unfoldable pub new_sqlite_store : Answer → Answer → Answer → M Answer
new_sqlite_store (err e) pinged migrated = pure (within (codes "eventlog: open sqlite") (err e))
new_sqlite_store (ok _) pinged migrated = do
  does (opens event_log)
  pure (
      Errors.◌>>◌ (within (codes "eventlog: ping sqlite") pinged)
        (within (codes "eventlog: migrate") migrated))

-- mongodb.NewClient, by what Connect and Ping answer: a client that does not answer is disconnected again.
unfoldable pub new_client : Answer → Answer → M Answer
new_client (err e) pinged = pure (within (codes "mongodb.NewClient: connect") (err e))
new_client (ok _) (err e) = do
  does (opens mongo)
  does (closes mongo)
  pure (within (codes "mongodb.NewClient: ping") (err e))
new_client (ok _) (ok _) = do does (opens mongo); pure (ok tt)

-- NewDLQWriter, NewProducer and NewConsumer: a client, or an error.
abbrev pub new_kafka_client : Text → Resource → Answer → M Answer
new_kafka_client context r (ok u) = do does (opens r); pure (ok tt)
new_kafka_client context r (err e) = pure (within context (err e))

-- main: telemetry and its metrics server.
unfoldable pub boot_telemetry : Host → Bool → M (Unit {0})
unfolding init_metrics
boot_telemetry h enabled = do
  when enabled (do
    or_exit (pure (setup h.setup))
    does (opens telemetry)
    or_exit (pure (init_metrics h.instrument)))
  when enabled (does (opens metrics_server))

-- main: the pool of connections, the migrations, the directory and the event log.
unfoldable pub boot_stores : Host → M (Unit {0})
unfolding new_pool run_migrations new_sqlite_store
boot_stores h = do
  or_exit (new_pool h.pool_parsed h.pool_made h.pool_pinged)
  defers postgres
  or_exit (run_migrations h.goose_opened h.goose_up)
  or_exit (pure h.directory_made)
  or_exit (new_sqlite_store h.sqlite_opened h.sqlite_pinged h.sqlite_migrated)

abbrev pub is_redis : Backend → Bool
is_redis redis = true
is_redis noop = false

-- main: the cache and the worker pool.
unfoldable pub boot_pool : Bool → M (Unit {0})
boot_pool with_redis = do
  when with_redis (does (opens cache))
  does (opens drain_timer)
  defers drain_timer
  does (opens worker_pool)

-- main: Kafka and the poller.
unfoldable pub boot_kafka : Host → Bool → M (Unit {0})
boot_kafka h enabled = do
  when enabled (do
    or_exit (new_kafka_client (codes "kafka.NewDLQWriter") dlq_writer h.dlq_made)
    defers dlq_writer
    or_exit (new_kafka_client (codes "kafka.NewProducer") producer h.producer_made)
    defers producer
    or_exit (new_kafka_client (codes "kafka.NewConsumer") consumer h.consumer_made)
    does launches_consumer
    defers consumer)
  does launches_poller

-- main: MongoDB, the gRPC listener, and server.Start.
unfoldable pub boot_servers : Host → Bool → M (Unit {0})
unfolding new_client
boot_servers h grpc_enabled = do
  or_exit (new_client h.mongo_connected h.mongo_pinged)
  defers mongo
  or_exit (pure (ensure_indexes h.create_indexes))
  when grpc_enabled (do or_exit (pure h.listened); does (opens grpc_server))
  does serves
  or_exit (pure h.served)

-- main after server.Start. An error of the flush is logged.
unfoldable pub shut_down : Bool → Bool → M (Unit {0})
shut_down otel_enabled grpc_enabled = do
  when grpc_enabled (does (closes grpc_server))
  does (closes worker_pool)
  when otel_enabled (does (closes telemetry))
  when otel_enabled (does (closes metrics_server))

-- main from the loaded configuration on.
unfoldable pub main_body : Host → Config → M (Unit {0})
unfolding boot_telemetry boot_stores boot_pool boot_kafka boot_servers shut_down
main_body h cfg = do
  does (opens signals)
  defers signals
  boot_telemetry h cfg.otel_enabled
  boot_stores h
  boot_pool (is_redis (choose_cache cfg.redis_addr h.redis_pinged))
  boot_kafka h cfg.kafka_enabled
  boot_servers h cfg.grpc_enabled
  shut_down cfg.otel_enabled cfg.grpc_enabled

-- The deferred calls at the return.
abbrev pub close_all : List Resource → List Act
close_all [] = []
close_all (r ∷ rs) = closes r ∷ close_all rs

-- The exit code of the process, and what it did, by what config.Load gave.
unfoldable pub main : Result Config → Host → ℕ × List Act
unfolding main_body ◌>>=◌
main (err e) h = (1, [])
main (ok cfg) h =
    let (s, e) = main_body h cfg (record { deferred = []; past = [] }) in
    elim e [ goes _ ↦ (0, s.past ++ close_all s.deferred) | exits ↦ (1, s.past) ]
