-- ===== src/Process/Lifetimes.antt =====
-- What main of cmd/api/main.go leaves open, and in which order it closes what it opened.
use go_blueprint.Prelude.{
  ◌++◌, false, is_empty, map, ℕ, Bool, true, not, ◌&&◌, Option, none, some, List, [], ◌∷◌,
  if◌then◌else◌, any, ◌==◌, is_none, select,
}
use go_blueprint.Prelude.Every.{all}
use go_blueprint.Process.Startup.{
  Act, Resource, cache, closes, consumer, dlq_writer, drain_timer, event_log, grpc_server,
  launches_consumer, launches_poller, metrics_server, migration_db, mongo, opens, postgres,
  producer, serves, signals, telemetry, worker_pool,
}

abbrev pub rank : Resource → ℕ
rank signals = 0
rank telemetry = 1
rank metrics_server = 2
rank postgres = 3
rank migration_db = 4
rank event_log = 5
rank cache = 6
rank drain_timer = 7
rank worker_pool = 8
rank dlq_writer = 9
rank producer = 10
rank consumer = 11
rank mongo = 12
rank grpc_server = 13

abbrev pub has : Resource → List Resource → Bool
has r rs = any (λ q. rank q == rank r) rs

-- What may be at work: something open, the goroutine of poller.Run, or that of kafkaConsumer.Run. Nothing waits for
-- the two goroutines.
pub data Holder : Type 0 where
  holds : Resource → Holder
  poller_run consumer_run : Holder

-- What it needs open: a job works on the tables and publishes, under the timer of the drain; the producer writes
-- dead letters; the pool of connections and the metrics server hand on to the telemetry; the gRPC handlers use
-- the stores; the poller claims messages and submits jobs; the consumer polls its client.
abbrev pub uses : Holder → List Resource
uses (holds worker_pool) = postgres ∷ producer ∷ dlq_writer ∷ drain_timer ∷ []
uses (holds producer) = dlq_writer ∷ []
uses (holds postgres) = telemetry ∷ []
uses (holds metrics_server) = telemetry ∷ []
uses (holds grpc_server) = postgres ∷ event_log ∷ cache ∷ []
uses poller_run = worker_pool ∷ postgres ∷ []
uses consumer_run = consumer ∷ []
uses _ = []

abbrev pub is_holder_of : Resource → Holder → Bool
is_holder_of r (holds q) = rank q == rank r
is_holder_of r _ = false

-- The closes of something while something that uses it may be at work.
unfoldable pub closed_in_use : List Holder → List Act → List (Resource × Holder)
closed_in_use holders [] = []
closed_in_use holders (opens r ∷ acts) = closed_in_use (holds r ∷ holders) acts
closed_in_use holders (closes r ∷ acts) =
    map (λ h. (r, h)) (select (λ h. has r (uses h)) holders)
    ++ closed_in_use (select (λ h. not (is_holder_of r h)) holders) acts
closed_in_use holders (launches_consumer ∷ acts) = closed_in_use (consumer_run ∷ holders) acts
closed_in_use holders (launches_poller ∷ acts) = closed_in_use (poller_run ∷ holders) acts
closed_in_use holders (serves ∷ acts) = closed_in_use holders acts

-- What must be open when a goroutine starts or the server serves.
abbrev pub all_open : List Resource → List Resource → Bool
all_open needed rs = all (λ r. has r rs) needed

-- What is open after some acts, or `none`, if one of them opens what is open, closes what is not open, or
-- needs what is not open.
unfoldable pub account : List Resource → List Act → Option (List Resource)
account open_now [] = some open_now
account open_now (opens r ∷ acts) = if has r open_now then none else account (r ∷ open_now) acts
account open_now (closes r ∷ acts) =
    if has r open_now then account (select (λ q. not (rank q == rank r)) open_now) acts else none
account open_now (launches_consumer ∷ acts) =
    if has consumer open_now then account open_now acts else none
account open_now (launches_poller ∷ acts) =
    if all_open (worker_pool ∷ postgres ∷ []) open_now then account open_now acts else none
account open_now (serves ∷ acts) =
    if all_open (postgres ∷ event_log ∷ worker_pool ∷ mongo ∷ []) open_now
    then account open_now acts
    else none

-- Nothing closes a resource.
abbrev pub is_kept : Resource → List Act → Bool
is_kept r [] = true
is_kept r (closes q ∷ acts) = not (rank q == rank r) && is_kept r acts
is_kept r (_ ∷ acts) = is_kept r acts

abbrev pub is_tidy : List Act → Bool
is_tidy acts =
    not (is_none (account [] acts)) && is_empty (closed_in_use [] acts) && is_kept worker_pool acts
