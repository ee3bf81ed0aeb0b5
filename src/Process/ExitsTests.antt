-- ===== src/Process/ExitsTests.antt =====
-- main with all its parts, and without a database.
use go_blueprint.Prelude.{false, ◌≡◌, refl, [], ◌∷◌, some, true, codes, if◌then◌else◌}
use go_blueprint.Errors.{Error, ok, err}
use go_blueprint.Config.{Config}
use go_blueprint.Cache.{choose_cache}
use go_blueprint.Product.{pos}
use go_blueprint.Telemetry.{init_metrics, register_all}
use go_blueprint.Process.Startup.{
  Host, cache, closes, event_log, is_redis, main, opens, postgres, signals,
}
use go_blueprint.Process.Lifetimes.{account, closed_in_use}
use go_blueprint.Process.Exits.{early_closes, main_releases}

abbrev cfg : Config
cfg = record {
  env = codes "test";
  addr = codes ":8080";
  database_url = codes "postgres://db";
  event_log_path = codes "data/events.db";
  jwt_secret = codes "s";
  jwt_expiry = pos 1;
  log_level = codes "info";
  redis_addr = codes "redis:6379";
  redis_password = [];
  redis_db = pos 0;
  cache_ttl = pos 300;
  worker_count = pos 2;
  worker_queue = pos 3;
  worker_drain_timeout = pos 15;
  outbox_interval = pos 5;
  outbox_batch = pos 10;
  outbox_max_attempts = pos 5;
  otel_enabled = true;
  otel_service_name = codes "api";
  otel_endpoint = [];
  metrics_addr = codes ":9090";
  grpc_enabled = true;
  grpc_addr = codes ":50051";
  mongo_uri = [];
  mongo_database = [];
  kafka_enabled = true;
  kafka_brokers = [];
  kafka_topic_customers = [];
  kafka_dlq_topic = [];
  kafka_consumer_group = [];
  kafka_producer_retries = pos 3;
}

abbrev fine : Host
fine = record {
  setup = record { resource_made = ok tt; trace_exporter_made = ok tt; prometheus_made = ok tt };
  instrument = λ name. ok tt;
  pool_parsed = ok tt;
  pool_made = ok tt;
  pool_pinged = ok tt;
  goose_opened = ok tt;
  goose_up = ok tt;
  directory_made = ok tt;
  sqlite_opened = ok tt;
  sqlite_pinged = ok tt;
  sqlite_migrated = ok tt;
  redis_pinged = ok tt;
  dlq_made = ok tt;
  producer_made = ok tt;
  consumer_made = ok tt;
  mongo_connected = ok tt;
  mongo_pinged = ok tt;
  create_indexes = λ collection indexes. ok tt;
  listened = ok tt;
  served = ok tt;
}

abbrev without_mongo : Host
without_mongo = record fine { mongo_pinged = err (Error.opaque (codes "timeout")) }

main_releases_example :
    ((main (ok cfg) fine).0 ≡ 0)
    × (account [] (main (ok cfg) fine).1
        ≡ some (
            if is_redis (choose_cache cfg.redis_addr fine.redis_pinged)
            then cache ∷ event_log ∷ []
            else event_log ∷ []))
    × (closed_in_use [] (main (ok cfg) fine).1 ≡ early_closes cfg.otel_enabled cfg.kafka_enabled)
unfolding init_metrics register_all
main_releases_example = main_releases fine cfg refl

-- Without a database main opens the pool, closes it after the failed ping, and exits.
abbrev without_database : Host
without_database = record fine { pool_pinged = err (Error.opaque (codes "refused")) }

exits_without_database :
    main (ok (record cfg { otel_enabled = false })) without_database
    ≡ (1, opens signals ∷ opens postgres ∷ closes postgres ∷ [])
unfolding main
exits_without_database = refl
