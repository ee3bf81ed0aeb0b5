-- ===== src/Lib.antt =====
-- go-blueprint: a verification library for the customer, auth and product services.
--
-- The program is a Go service. A customer command writes a customer and an outbox message in one Postgres
-- transaction, then drops cached answers and appends to the event log. A poller claims outbox messages,
-- and a bounded worker pool delivers them. Queries go through a cache. HTTP and gRPC handlers translate requests
-- and errors. Users register and log in with JWTs. Products and customer preferences live in MongoDB
-- collections. A Kafka producer publishes the messages of the outbox, and a consumer hands them to a handler.
-- A gRPC stream polls the event log. main wires all this and shuts it down.
--
-- Where each part is (paths from the repository's root):
--   Worker         internal/worker/pool.go: New, Submit, Stop and the loop of a worker. Each event is one step
--                  of one goroutine; `run` plays a schedule, and `wait` is wg.Wait on fuel.
--   Outbox         internal/outbox: outbox.go and postgres.go (Store), poller.go (Poller, Backoff).
--                  Claims, Backpressure, History, Quiet and Delivery prove things about them.
--   Cache          internal/platform/cache: cache.go and redis.go.
--   Customer       internal/customer: domain.go (Domain), service.go (World, Service), query.go (Query),
--                  handler.go (Http), grpc.go without its stream (Grpc); and customer_repo.go and customers.sql.go of
--                  internal/platform/database/postgres (Repository). Tables, Atomicity and AllOrNothing are
--                  about the transaction, Registry and Commands about the table of customers,
--                  Interleaving, Sequential and Races about requests at the same time, Coherence and Caching about
--                  the cache, Replies and Gaps about the replies of the handlers.
--   Auth           internal/auth: domain.go, service.go (Service), middleware.go (Access), handler.go (Http; its
--                  mapAuthError in Access); user_repo.go and users.sql.go (Users); and interceptors.go and
--                  server.go of internal/platform/grpc (Access, Interceptors). Sessions and Signup prove things.
--   Product        internal/product: domain.go, service.go and query.go (Service), handler.go (Parameters, Http);
--                  and product_repo.go of internal/platform/database/mongodb (Collection). Commands, Catalog,
--                  Listing, Filters, Pages, Shop, Replacing and Archived prove things.
--   Preferences    internal/customer: preferences.go, preferences_service.go (Service) and
--                  preferences_handler.go (Handler); and preferences_repo.go of
--                  internal/platform/database/mongodb. Updates and Outcomes prove things.
--   EventLog       internal/eventlog/sqlite.go, and WatchCustomerEvents of internal/customer/grpc.go. Order,
--                  Reading and Stream prove things; Gaps shows where texts and times part.
--   Kafka          internal/platform/kafka: handler.go, middleware.go, consumer.go (Consumer), producer.go and
--                  dlq.go (Producer); and internal/customer/events.go (Producer). Redelivery and Commits prove
--                  things.
--   Process        cmd/api/main.go: the context of the jobs, and the shutdown with server.Start of
--                  internal/platform/server/server.go (Shutdown), as a step relation over the poller's loop and
--                  the pool of Worker; healthCheck and parseLevel (Health); and the routes of server.Start and of
--                  the handlers, with Echo's router as a parameter (Routes). Middleware is the chain before the routes,
--                  with internal/platform/middleware/middleware.go and telemetry's EchoMiddleware; RequestLines
--                  is about it. Startup is main as a program over what it opens and closes, with the
--                  functions that it calls; Lifetimes, Parts, Booting and Exits are about it. Expiry, Due,
--                  Liveness, Channel and Closing prove things, and Announced and Pipeline follow a
--                  registration from the command to the event handler.
--   Config         internal/platform/config/config.go, with viper as a parameter.
--   Telemetry      internal/platform/telemetry, with the OpenTelemetry SDK as a parameter. Flushing, Bridge and
--                  Queries prove things.
--   Indexes        the indexes of internal/platform/database/mongodb/client.go.
--   Errors         errors.New, %w, errors.Is and errors.Join, and `Fate`: a call that leaves the process takes
--                  effect and says so, fails with no effect, or takes effect while its answer is lost.
--   Prelude        shared names, Boolean tests, lists over native numbers, Go strings.
--
-- Conventions. Ids are natural numbers and times are nanoseconds since the zero time. A Go string is the list
-- of its code points; the case table above ASCII, the print of an id, JSON, bcrypt, the JWT library, the
-- validator and the parsers are parameters. The clock readings, the new ids and the fates of the calls of one
-- command are the fields of `Call`. A table is a list of rows, and a transaction works on a copy that a
-- commit puts in its place. The durations of the backoff wrap at 2^64.
--
-- Fuel: only `Worker.wait` and `Worker.stop` take fuel; three steps for each job and each worker are
-- enough.
--
-- Not modelled: the spans of the services and the log lines other than that of a request; generated code;
-- concurrent transactions other than as one step each, and the rows that SKIP LOCKED passes over; the options
-- that the constructors only hand to a library; the microseconds to which Postgres cuts a time.
pub mod Prelude
pub mod Errors
pub mod Worker
pub mod Outbox
pub mod Cache
pub mod Customer
pub mod Auth
pub mod Product
pub mod Kafka
pub mod Preferences
pub mod Process
pub mod Telemetry
pub mod Indexes
pub mod EventLog
pub mod Config
