-- ===== src/Process.antt =====
-- cmd/api/main.go: what the process wires together. This file has the context that the jobs of the worker
-- pool run under.
pub mod Expiry
pub mod Due
pub mod Liveness
pub mod Shutdown
pub mod Channel
pub mod Closing
pub mod Tests
pub mod Runs
pub mod Health
pub mod Routes
pub mod Middleware
pub mod RequestLines
pub mod MiddlewareTests
pub mod Startup
pub mod Lifetimes
pub mod Parts
pub mod Booting
pub mod Exits
pub mod ExitsTests
pub mod Announced
pub mod Pipeline
pub mod PipelineTests
use go_blueprint.Prelude.{
  ℕ, ◌+◌, min, leb, Bool, true, false, Option, none, some, if◌then◌else◌, Text, codes, List, [],
  ◌∷◌,
}
use go_blueprint.Errors.{Fate, refused, Error}
use go_blueprint.Outbox.{Message, Row}
use go_blueprint.Outbox.Store.{Engine, claim_batch}
use go_blueprint.Outbox.Poller.{Poller, deliver, reclaim_after}

-- A context of package `context`, by the time at which it is done.
pub record Context : Type 0 where
  pub done_at : Option ℕ

-- context.WithoutCancel and context.WithTimeout.
abbrev pub without_cancel : Context → Context
without_cancel ctx = record { done_at = none }

abbrev pub earlier : Option ℕ → ℕ → ℕ
earlier none t = t
earlier (some s) t = min s t

abbrev pub with_timeout : ℕ → ℕ → Context → Context
with_timeout now timeout ctx = record { done_at = some (earlier ctx.done_at (now + timeout)) }

abbrev pub is_over : Context → ℕ → Bool
is_over ctx now = elim ctx.done_at [ none ↦ false | some t ↦ leb t now ]

-- The context that main hands to worker.New at `start`, and that each job gets.
unfoldable pub job_context : Context → ℕ → ℕ → Context
job_context root start drain_timeout = with_timeout start drain_timeout (without_cancel root)

abbrev pub expired : Error
expired = Error.opaque (codes "context deadline exceeded")

-- What happens to a statement under a context that is done: documented behaviour of pgx, it is not sent.
abbrev pub under : Context → ℕ → Fate → Fate
under ctx now fate = if is_over ctx now then refused expired else fate

-- What the outbox of a process does: a tick claims under the root context, a job delivers under its own.
pub data Act : Type 0 where
  ticks : Fate → List ℕ → ℕ → Act
  delivers : ℕ → Option Error → Fate → Message → Act

module _ (uuid_text : ℕ → Text) (e : Engine) (p : Poller) (root job : Context) where
  unfoldable pub act : List Row → Act → List Row
  act rows (ticks fate held now) =
      (claim_batch e (under root now fate) held now p.batch_size reclaim_after p.max_attempts
        rows).0
  act rows (delivers now published mark msg) =
      (deliver uuid_text p now published (under job now mark) rows msg).0

  unfoldable pub act_all : List Row → List Act → List Row
  unfolding act
  act_all rows [] = rows
  act_all rows (a ∷ acts) = act_all (act rows a) acts
