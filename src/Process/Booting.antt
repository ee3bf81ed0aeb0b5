-- ===== src/Process/Booting.antt =====
-- Where main of cmd/api/main.go stands after each of its parts, and when a part comes to os.Exit.
use go_blueprint.Prelude.{◌≡◌, refl, Bool, true, false, ◌&&◌, List, [], ◌∷◌, if◌then◌else◌, arith}
use go_blueprint.Errors.{is_ok}
use go_blueprint.Telemetry.{init_metrics, setup}
use go_blueprint.Process.Startup.{
  ◌>>=◌, boot_telemetry, Act, Boot, Host, boot_kafka, boot_pool, boot_servers, boot_stores, cache,
  closes, consumer, dlq_writer, drain_timer, event_log, grpc_server, launches_consumer,
  launches_poller, metrics_server, migration_db, mongo, opens, postgres, producer, serves,
  shut_down, signals, telemetry, worker_pool,
}
use go_blueprint.Process.Lifetimes.{account, closed_in_use}
use go_blueprint.Process.Parts.{
  did, deferring, Ran, went, Ran-then, Ran-does, Ran-defers, Ran-pure, Ran-answer, is_fine,
  new_pool-Ran, run_migrations-Ran, new_sqlite_store-Ran, new_client-Ran, new_kafka_client-Ran,
}
use go_blueprint.Indexes.{ensure_indexes}

-- Where main stands after each part, if every call was fine.
abbrev pub start : Boot
start = record { deferred = signals ∷ []; past = opens signals ∷ [] }

abbrev pub after_telemetry : Bool → Boot
after_telemetry false = start
after_telemetry true = did start (opens telemetry ∷ opens metrics_server ∷ [])

abbrev pub after_stores : Bool → Boot
after_stores o = deferring postgres (
    did (after_telemetry o)
      (opens postgres ∷ opens migration_db ∷ closes migration_db ∷ opens event_log ∷ []))

abbrev pub after_pool : Bool → Bool → Boot
after_pool o c = deferring drain_timer (
    did (if c then did (after_stores o) (opens cache ∷ []) else after_stores o)
      (opens drain_timer ∷ opens worker_pool ∷ []))

abbrev pub after_kafka : Bool → Bool → Bool → Boot
after_kafka o c false = did (after_pool o c) (launches_poller ∷ [])
after_kafka o c true = deferring consumer (
    deferring producer (
      deferring dlq_writer (
        did (after_pool o c) (
          opens dlq_writer
          ∷ opens producer
          ∷ opens consumer
          ∷ launches_consumer
          ∷ launches_poller
          ∷ []))))

abbrev pub after_servers : Bool → Bool → Bool → Bool → Boot
after_servers o c k g = deferring mongo (
    did (after_kafka o c k)
      (opens mongo ∷ (if g then opens grpc_server ∷ serves ∷ [] else serves ∷ [])))

abbrev pub after_all : Bool → Bool → Bool → Bool → Boot
after_all o c k g =
    did
      (did
        (if g then did (after_servers o c k g) (closes grpc_server ∷ []) else after_servers o c k g)
        (closes worker_pool ∷ []))
      (if o then closes telemetry ∷ closes metrics_server ∷ [] else [])

abbrev pub telemetry_up : Host → Bool → Bool
telemetry_up h false = true
telemetry_up h true = (is_ok (setup h.setup) && is_ok (init_metrics h.instrument)) && true

pub telemetry-Ran :
    (h : Host) (o : Bool)
    → Ran {A = Unit {0}} (after_telemetry o) (telemetry_up h o) (boot_telemetry h o start)
unfolding boot_telemetry account closed_in_use init_metrics
telemetry-Ran h false = Ran-pure tt start _ (went tt refl)
telemetry-Ran h true =
    Ran-then start _ _
      (Ran-then start _ _ (Ran-answer (setup h.setup) start refl)
        (λ ps. Ran-does (opens telemetry) start _ (Ran-answer (init_metrics h.instrument) _ refl)))
      (λ u. went tt refl)

-- A test that holds at both flags, at all of two, and so on.
abbrev at_both : (Bool → Bool) → Bool
at_both p = p true && p false

both_at : (p : Bool → Bool) → at_both p ≡ true → (b : Bool) → p b ≡ true
both_at p h true = ground (arith, h)
both_at p h false = ground (arith, h)

both_at_two :
    (p : Bool → Bool → Bool) → at_both (λ a. at_both (p a)) ≡ true → (a b : Bool) → p a b ≡ true
both_at_two p h a = both_at (p a) (both_at (λ x. at_both (p x)) h a)

both_at_three :
    (p : Bool → Bool → Bool → Bool)
    → at_both (λ a. at_both (λ b. at_both (p a b))) ≡ true
    → (a b c : Bool) → p a b c ≡ true
both_at_three p h a = both_at_two (p a) (both_at (λ x. at_both (λ y. at_both (p x y))) h a)

unfoldable pub stores_up : Host → Bool
stores_up h =
    (is_ok h.pool_parsed && is_ok h.pool_made && is_ok h.pool_pinged)
    && ((is_ok h.goose_opened && is_ok h.goose_up)
        && (is_ok h.directory_made
            && (is_ok h.sqlite_opened && is_ok h.sqlite_pinged && is_ok h.sqlite_migrated)))

pub stores-Ran :
    (h : Host) (o : Bool)
    → Ran {A = Unit {0}} (after_stores o) (stores_up h) (boot_stores h (after_telemetry o))
unfolding boot_stores account closed_in_use stores_up
stores-Ran h o =
    let fine = λ (acts : List Act) (h : at_both (λ o. is_fine (after_telemetry o) acts) ≡ true).
      both_at (λ o. is_fine (after_telemetry o) acts) h o in
    Ran-then (after_telemetry o) _ _
      (new_pool-Ran (after_telemetry o) h.pool_parsed h.pool_made h.pool_pinged (fine [] refl)
        (fine (opens postgres ∷ closes postgres ∷ []) refl))
      (λ u. Ran-defers postgres (did (after_telemetry o) (opens postgres ∷ [])) _ (
        let s = deferring postgres (did (after_telemetry o) (opens postgres ∷ [])) in
        Ran-then s _ _
          (run_migrations-Ran s h.goose_opened h.goose_up (fine (opens postgres ∷ []) refl)
            (fine (opens postgres ∷ opens migration_db ∷ closes migration_db ∷ []) refl))
          (λ v.
            let t = did s (opens migration_db ∷ closes migration_db ∷ []) in
            let t_fine =
              fine (opens postgres ∷ opens migration_db ∷ closes migration_db ∷ []) refl in
            Ran-then t _ _ (Ran-answer h.directory_made t t_fine) (λ w.
              new_sqlite_store-Ran t h.sqlite_opened h.sqlite_pinged h.sqlite_migrated t_fine (
                fine
                  (opens postgres ∷ opens migration_db ∷ closes migration_db ∷ opens event_log ∷ [])
                  refl)))))

pub pool-Ran :
    (o c : Bool) → Ran {A = Unit {0}} (after_pool o c) true (boot_pool c (after_stores o))
unfolding boot_pool ◌>>=◌
pool-Ran o false = went tt refl
pool-Ran o true = went tt refl

abbrev pub kafka_up : Host → Bool → Bool
kafka_up h false = true
kafka_up h true =
    (is_ok h.dlq_made && (is_ok h.producer_made && (is_ok h.consumer_made && true))) && true

pub kafka-Ran :
    (h : Host) (o c k : Bool)
    → Ran {A = Unit {0}} (after_kafka o c k) (kafka_up h k) (boot_kafka h k (after_pool o c))
unfolding boot_kafka account closed_in_use
kafka-Ran h o c false = Ran-pure tt (after_pool o c) _ (went tt refl)
kafka-Ran h o c true =
    let fine =
      λ (acts : List Act) (h : at_both (λ a. at_both (λ b. is_fine (after_pool a b) acts)) ≡ true).
        both_at_two (λ a b. is_fine (after_pool a b) acts) h o c in
    let s = after_pool o c in
    let t = deferring dlq_writer (did s (opens dlq_writer ∷ [])) in
    let u = deferring producer (did t (opens producer ∷ [])) in
    Ran-then s _ _
      (Ran-then s _ _ (new_kafka_client-Ran s _ dlq_writer h.dlq_made (fine [] refl)) (λ x.
        Ran-defers dlq_writer (did s (opens dlq_writer ∷ [])) _ (
          Ran-then t _ _
            (new_kafka_client-Ran t _ producer h.producer_made (fine (opens dlq_writer ∷ []) refl))
            (λ y. Ran-defers producer (did t (opens producer ∷ [])) _ (
              Ran-then u _ _
                (new_kafka_client-Ran u _ consumer h.consumer_made
                  (fine (opens dlq_writer ∷ opens producer ∷ []) refl))
                (λ z. Ran-does launches_consumer _ _ (went tt refl)))))))
      (λ x. went tt refl)

abbrev pub servers_up : Host → Bool → Bool
servers_up h false =
    (is_ok h.mongo_connected && is_ok h.mongo_pinged)
    && (is_ok (ensure_indexes h.create_indexes) && is_ok h.served)
servers_up h true =
    (is_ok h.mongo_connected && is_ok h.mongo_pinged)
    && (is_ok (ensure_indexes h.create_indexes) && ((is_ok h.listened && true) && is_ok h.served))

pub servers-Ran :
    (h : Host) (o c k g : Bool)
    → Ran {A = Unit {0}}
        (after_servers o c k g)
        (servers_up h g)
        (boot_servers h g (after_kafka o c k))
unfolding boot_servers account closed_in_use
servers-Ran h o c k false =
    let fine =
      λ (acts : List Act)
          (h : at_both (λ a. at_both (λ b. at_both (λ d. is_fine (after_kafka a b d) acts)))
            ≡ true).
        both_at_three (λ a b d. is_fine (after_kafka a b d) acts) h o c k in
    let s = after_kafka o c k in
    let t = deferring mongo (did s (opens mongo ∷ [])) in
    Ran-then s _ _
      (new_client-Ran s h.mongo_connected h.mongo_pinged (fine [] refl)
        (fine (opens mongo ∷ closes mongo ∷ []) refl))
      (λ x. Ran-defers mongo (did s (opens mongo ∷ [])) _ (
        Ran-then t _ _
          (Ran-answer (ensure_indexes h.create_indexes) t (fine (opens mongo ∷ []) refl))
          (λ y.
            Ran-pure tt t _ (
              Ran-does serves t _
                (Ran-answer h.served _ (fine (opens mongo ∷ serves ∷ []) refl))))))
servers-Ran h o c k true =
    let fine =
      λ (acts : List Act)
          (h : at_both (λ a. at_both (λ b. at_both (λ d. is_fine (after_kafka a b d) acts)))
            ≡ true).
        both_at_three (λ a b d. is_fine (after_kafka a b d) acts) h o c k in
    let s = after_kafka o c k in
    let t = deferring mongo (did s (opens mongo ∷ [])) in
    let u = did t (opens grpc_server ∷ []) in
    Ran-then s _ _
      (new_client-Ran s h.mongo_connected h.mongo_pinged (fine [] refl)
        (fine (opens mongo ∷ closes mongo ∷ []) refl))
      (λ x. Ran-defers mongo (did s (opens mongo ∷ [])) _ (
        Ran-then t _ _
          (Ran-answer (ensure_indexes h.create_indexes) t (fine (opens mongo ∷ []) refl))
          (λ y.
            Ran-then t _ _
              (Ran-then t _ _ (Ran-answer h.listened t (fine (opens mongo ∷ []) refl))
                (λ z. went tt refl))
              (λ z. Ran-does serves u _ (
                Ran-answer h.served _
                  (fine (opens mongo ∷ opens grpc_server ∷ serves ∷ []) refl))))))

pub shut-Ran :
    (o c k g : Bool)
    → Ran {A = Unit {0}} (after_all o c k g) true (shut_down o g (after_servers o c k g))
unfolding shut_down ◌>>=◌
shut-Ran false c k false = went tt refl
shut-Ran false c k true = went tt refl
shut-Ran true c k false = went tt refl
shut-Ran true c k true = went tt refl
