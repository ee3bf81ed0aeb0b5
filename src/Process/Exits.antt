-- ===== src/Process/Exits.antt =====
-- When main of cmd/api/main.go returns, and what it has closed by then.
use go_blueprint.Prelude.{
  ℕ, ◌≡◌, refl, sym, ap, ◌∙◌, Bool, true, false, ◌&&◌, some, List, [], ◌∷◌, ◌++◌, if◌then◌else◌,
  arith,
}
use go_blueprint.Errors.{ok, is_ok}
use go_blueprint.Indexes.{ensure_indexes}
use go_blueprint.Config.{Config}
use go_blueprint.Telemetry.{init_metrics, setup}
use go_blueprint.Cache.{choose_cache}
use go_blueprint.Process.Startup.{
  is_redis, close_all, Act, Boot, Ending, Host, cache, event_log, exits, goes, main, main_body,
  opens, postgres, signals, telemetry, Resource, worker_pool, metrics_server, consumer,
}
use go_blueprint.Process.Lifetimes.{
  account, closed_in_use, is_tidy, Holder, holds, poller_run, consumer_run,
}
use go_blueprint.Process.Parts.{Ran, went, stopped, Ran-then, Ran-does, Ran-defers}
use go_blueprint.Process.Booting.{
  start, after_all, telemetry_up, telemetry-Ran, stores_up, stores-Ran, pool-Ran, kafka_up,
  kafka-Ran, servers_up, servers-Ran, shut-Ran,
}

-- Every call that main needs answers as it should, with the parts that the configuration switches on.
abbrev pub is_up : Host → Config → Bool
is_up h cfg =
    (if cfg.otel_enabled then is_ok (setup h.setup) && is_ok (init_metrics h.instrument) else true)
    && is_ok h.pool_parsed
    && is_ok h.pool_made
    && is_ok h.pool_pinged
    && is_ok h.goose_opened
    && is_ok h.goose_up
    && is_ok h.directory_made
    && is_ok h.sqlite_opened
    && is_ok h.sqlite_pinged
    && is_ok h.sqlite_migrated
    && (if cfg.kafka_enabled
        then is_ok h.dlq_made && is_ok h.producer_made && is_ok h.consumer_made
        else true)
    && is_ok h.mongo_connected
    && is_ok h.mongo_pinged
    && is_ok (ensure_indexes h.create_indexes)
    && (if cfg.grpc_enabled then is_ok h.listened else true)
    && is_ok h.served

and-true : (a : Bool) → (a && true) ≡ a
and-true true = refl
and-true false = refl

and_assoc : (a b c : Bool) → ((a && b) && c) ≡ (a && (b && c))
and_assoc true b c = refl
and_assoc false b c = refl

telemetry_up_lem :
    (h : Host) (o : Bool)
    → telemetry_up h o
      ≡ (if o then is_ok (setup h.setup) && is_ok (init_metrics h.instrument) else true)
telemetry_up_lem h true = and-true _
telemetry_up_lem h false = refl

kafka_up_lem :
    (h : Host) (k : Bool)
    → kafka_up h k
      ≡ (if k then is_ok h.dlq_made && is_ok h.producer_made && is_ok h.consumer_made else true)
kafka_up_lem h true = simp (and-true, and_assoc)
kafka_up_lem h false = refl

servers_up_lem :
    (h : Host) (g : Bool)
    → servers_up h g ≡ (
        is_ok h.mongo_connected
        && is_ok h.mongo_pinged
        && is_ok (ensure_indexes h.create_indexes)
        && (if g then is_ok h.listened else true)
        && is_ok h.served)
servers_up_lem h true = simp (and-true, and_assoc)
servers_up_lem h false = simp (and-true, and_assoc)

module _ (h : Host) (cfg : Config) where
  abbrev with_redis : Bool
  with_redis = is_redis (choose_cache cfg.redis_addr h.redis_pinged)

  abbrev last : Boot
  last = after_all cfg.otel_enabled with_redis cfg.kafka_enabled cfg.grpc_enabled

  body_up : Bool
  body_up =
      telemetry_up h cfg.otel_enabled
      && (stores_up h
          && (true && (kafka_up h cfg.kafka_enabled && (servers_up h cfg.grpc_enabled && true))))

  body_up_lem : body_up ≡ is_up h cfg
  unfolding body_up stores_up
  body_up_lem = simp (
    telemetry_up_lem h cfg.otel_enabled,
    kafka_up_lem h cfg.kafka_enabled,
    servers_up_lem h cfg.grpc_enabled,
    and-true,
    and_assoc,
  )

  body-Ran : Ran {A = Unit {0}} last body_up (main_body h cfg (record { deferred = []; past = [] }))
  unfolding main_body body_up
  body-Ran =
      let o = cfg.otel_enabled in
      let k = cfg.kafka_enabled in
      Ran-does (opens signals) _ _ (
        Ran-defers signals _ _ (
          Ran-then start _ _ (telemetry-Ran h o) (λ u1. Ran-then _ _ _ (stores-Ran h o) (λ u2.
            Ran-then _ _ _ (pool-Ran o with_redis) (λ u3.
              Ran-then _ _ _ (kafka-Ran h o with_redis k) (λ u4.
                Ran-then _ _ _ (servers-Ran h o with_redis k cfg.grpc_enabled)
                  (λ u5. shut-Ran o with_redis k cfg.grpc_enabled)))))))

  -- How main ends, with the configuration that Load gave.
  pub data Ended : ℕ × List Act → Type 0 where
    returned : is_up h cfg ≡ true → Ended (0, last.past ++ close_all last.deferred)
    aborted : (acts : List Act) → is_up h cfg ≡ false → is_tidy acts ≡ true → Ended (1, acts)

  ends :
      (r : Boot × Ending (Unit {0}))
      → Ran {A = Unit {0}} last body_up r
      → Ended (
          let (s, e) = r in
          elim e [ goes u ↦ (0, s.past ++ close_all s.deferred) | exits ↦ (1, s.past) ])
  ends _ (went u up) = returned (sym body_up_lem ∙ up)
  ends _ (stopped s up tidy) = aborted s.past (sym body_up_lem ∙ up) tidy

  main_ended : Ended (main (ok cfg) h)
  unfolding main
  main_ended = ends _ body-Ran

-- What main closes in use, by whether the telemetry and Kafka are on.
abbrev pub early_closes : Bool → Bool → List (Resource × Holder)
early_closes o k =
    (worker_pool, poller_run)
      ∷ (if o then (telemetry, holds postgres) ∷ (telemetry, holds metrics_server) ∷ [] else [])
    ++ (if k then (consumer, consumer_run) ∷ [] else [])
    ++ (postgres, poller_run) ∷ []

left_open :
    (o c k g : Bool)
    → let s = after_all o c k g in
      (account [] (s.past ++ close_all s.deferred)
        ≡ some (if c then cache ∷ event_log ∷ [] else event_log ∷ []))
      × (closed_in_use [] (s.past ++ close_all s.deferred) ≡ early_closes o k)
unfolding account closed_in_use
left_open o c k g = ground arith

ended_up :
    (h : Host) (cfg : Config) (r : ℕ × List Act)
    → Ended h cfg r
    → is_up h cfg ≡ true
    → ◌≡◌ {A = ℕ × List Act} r (0, (last h cfg).past ++ close_all (last h cfg).deferred)
ended_up h cfg _ (returned up) yes_up = refl
ended_up h cfg _ (aborted acts down tidy) yes_up = cc

-- If every call that main needs answers as it should, main returns with exit code 0: nothing was opened twice, closed
-- twice or used before it was open; all that is left open is the event log and, if Redis answered, the client of the
-- cache; and what was closed while something that uses it may have been at work is exactly this: the worker pool
-- under the poller's goroutine; the telemetry, if it is on, under the pool of connections and the metrics
-- server; the consumer's client, if Kafka is on, under the consumer's goroutine; and the pool of connections
-- under the poller's goroutine.
pub main_releases :
    (h : Host) (cfg : Config)
    → is_up h cfg ≡ true
    → ((main (ok cfg) h).0 ≡ 0)
      × (account [] (main (ok cfg) h).1
          ≡ some (
              if is_redis (choose_cache cfg.redis_addr h.redis_pinged)
              then cache ∷ event_log ∷ []
              else event_log ∷ []))
      × (closed_in_use [] (main (ok cfg) h).1 ≡ early_closes cfg.otel_enabled cfg.kafka_enabled)
main_releases h cfg up =
    let same = ended_up h cfg (main (ok cfg) h) (main_ended h cfg) up in
    let (left, early) =
      left_open cfg.otel_enabled (with_redis h cfg) cfg.kafka_enabled cfg.grpc_enabled in
    (
      ap (λ r. r.0) same,
      ap (λ r. account [] r.1) same ∙ left,
      ap (λ r. closed_in_use [] r.1) same ∙ early,
    )
