-- ===== src/Customer/World.antt =====
-- The state that the commands of internal/customer/service.go change, and what their calls meet.
use go_blueprint.Customer.Repository.{CustomerRow}
use go_blueprint.Outbox.{Row}
use go_blueprint.Cache.{Redis}
use go_blueprint.Prelude.{ℕ, Option, List, Text}
use go_blueprint.Errors.{Fate, Result, Error}

-- The tables that one transaction writes.
pub record Database : Type 0 where
  pub customers : List CustomerRow
  pub outbox : List Row

-- eventlog.Event.
pub record LoggedEvent : Type 0 where
  pub id : ℕ
  pub aggregate : ℕ
  pub event_type : Text
  pub payload : Text
  pub occurred_at : ℕ

-- What the service shares with the world: the database, the cache, the event log, and the two counters
-- of telemetry.
pub record World : Type 0 where
  pub database : Database
  pub cache : Redis
  pub events : List LoggedEvent
  pub registrations : ℕ
  pub removals : ℕ

-- The functions that the code calls in other packages: the case table, the print of an id, and
-- json.Marshal of a map of texts.
pub record Host : Type 0 where
  pub lower : ℕ → ℕ
  pub uuid_text : ℕ → Text
  pub to_json : List (Text × Text) → Result Text

-- What the calls of one command meet: failures of the queries and of Begin, the fates of the
-- statements, the readings of the clock and the new ids.
pub record Call : Type 0 where
  pub find_failure : Option Error
  pub email_failure : Option Error
  pub begin_failure : Option Error
  pub write_fate : Fate
  pub outbox_fate : Fate
  pub commit_fate : Fate
  pub evict_one : Fate
  pub evict_list : Fate
  pub log_fate : Fate
  pub checked_at : ℕ
  pub stamped_at : ℕ
  pub queued_at : ℕ
  pub database_now : ℕ
  pub logged_at : ℕ
  pub customer_id : ℕ
  pub message_id : ℕ
  pub event_id : ℕ

pub record RegisterCmd : Type 0 where
  pub name : Text
  pub email : Text
  pub birth_date : ℕ

pub record UpdateCmd : Type 0 where
  pub id : ℕ
  pub name : Text
  pub email : Text
  pub birth_date : ℕ
