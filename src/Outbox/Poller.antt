-- ===== src/Outbox/Poller.antt =====
-- internal/outbox/poller.go: one tick of Run, and the delivery job.
use go_blueprint.Prelude.{
  ℕ, ◌+◌, Option, none, some, List, [], ◌∷◌, ◌++◌, leb, if◌then◌else◌, Text, codes,
}
use go_blueprint.Outbox.Store.{mark_failed, mark_exhausted, mark_processed, claim_batch, Engine}
use go_blueprint.Worker.{accepted, submit, Pool}
use go_blueprint.Outbox.{Row, Message}
use go_blueprint.Errors.{text, error_of, joined, ok, wrap, err, Result, Error, Fate}
use go_blueprint.Outbox.Backoff.{backoff}

-- _reclaimAfter, five minutes in nanoseconds.
abbrev pub reclaim_after : ℕ
reclaim_after = 300_000_000_000

-- The Poller's configuration; the interval is in nanoseconds.
pub record Poller : Type 0 where
  pub interval : ℕ
  pub batch_size : ℕ
  pub max_attempts : ℕ

-- The loop of poll. A full pool ends it, and so does the panic of a send on a closed channel; the
-- second part is what was not submitted.
unfoldable pub submit_all : Pool Message → List Message → Pool Message × List Message
submit_all pool [] = (pool, [])
submit_all pool (m ∷ ms) =
    let (pool', answer) = submit pool m in
    elim answer [ accepted ↦ submit_all pool' ms | _ ↦ (pool', m ∷ ms) ]

-- The table and the pool after a tick, and the messages that it claimed and did not submit.
pub record Tick : Type 0 where
  pub rows : List Row
  pub pool : Pool Message
  pub claimed : List Message
  pub left : List Message

-- Poller.poll. An error of the claim is logged, and the tick is over.
unfoldable pub poll : Engine → Poller → Fate → List ℕ → ℕ → List Row → Pool Message → Tick
unfolding submit_all
poll e p fate held now rows pool =
    let claim = claim_batch e fate held now p.batch_size reclaim_after p.max_attempts rows in
    elim claim.1 [
      | err x ↦ record { rows = claim.0; pool = pool; claimed = []; left = [] }
      | ok ms ↦
          let rest = submit_all pool ms in
          record { rows = claim.0; pool = rest.0; claimed = ms; left = rest.1 }
    ]

-- Poller.deliver. `published` is the error of Publish, `mark` the fate of the statement that records
-- the outcome, and `uuid_text` prints an id.
module _ (uuid_text : ℕ → Text) where
  abbrev pub delivery_error :
      Message → Error → List Row × Result (Unit {0}) → List Row × Result (Unit {0})
  delivery_error msg e (rows, marked) =
      (rows, err (wrap (codes "outbox.deliver " ++ uuid_text msg.id) (joined e (error_of marked))))

  unfoldable pub deliver :
      Poller → ℕ → Option Error → Fate → List Row → Message → List Row × Result (Unit {0})
  deliver p now none mark rows msg = mark_processed mark now rows msg.id
  deliver p now (some e) mark rows msg =
      let attempts = msg.attempts + 1 in
      if leb p.max_attempts attempts
      then delivery_error msg e (mark_exhausted mark now rows msg.id (text e))
      else delivery_error msg e
          (mark_failed mark now rows msg.id (text e) (backoff p.interval attempts))
