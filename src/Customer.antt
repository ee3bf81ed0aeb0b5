-- ===== src/Customer.antt =====
-- internal/customer: the aggregate, its Postgres repository, the command and query services, the HTTP
-- and gRPC handlers and the Kafka event handler. This file has the aggregate's data.
pub mod Domain
pub mod Repository
pub mod World
pub mod Service
pub mod Tables
pub mod Atomicity
pub mod AllOrNothing
pub mod Query
pub mod Coherence
pub mod Caching
pub mod Http
pub mod Grpc
pub mod Replies
pub mod Gaps
pub mod Registry
pub mod Commands
pub mod Interleaving
pub mod Sequential
pub mod Races
pub mod InterleavingTests
pub mod Tests
use go_blueprint.Prelude.{ℕ, Text}

-- customer.Customer. Ids are numbers; a time is its number of nanoseconds since the zero time, in UTC.
pub record Customer : Type 0 where
  pub id : ℕ
  pub name : Text
  pub email : Text
  pub birth_date : ℕ
  pub created_at : ℕ
  pub updated_at : ℕ
