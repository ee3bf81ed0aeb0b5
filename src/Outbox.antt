-- ===== src/Outbox.antt =====
-- The transactional outbox: internal/outbox. This file has the message and the table row; the children
-- model the Postgres store, the poller and the publishers.
pub mod Store
pub mod Claims
pub mod Backoff
pub mod Poller
pub mod Backpressure
pub mod History
pub mod Quiet
pub mod Delivery
pub mod Tests
use go_blueprint.Prelude.{ℕ, Option, none, some, Text}

-- OutboxMessage. Ids are numbers, times are nanoseconds, and the payload is JSON text.
pub record Message : Type 0 where
  pub id : ℕ
  pub aggregate : ℕ
  pub event_type : Text
  pub payload : Text
  pub created_at : ℕ
  pub processed_at : Option ℕ
  pub attempts : ℕ
  pub last_error : Option Text

-- A row of outbox_messages (migrations 004 to 006): the message, the claim and the schedule.
pub record Row : Type 0 where
  pub message : Message
  pub open message use *
  pub locked_at : Option ℕ
  pub next_attempt_at : ℕ
