-- ===== src/Outbox/Store.antt =====
-- internal/outbox/postgres.go: each statement as a function on the table, a list of rows.
-- `now` is the clock of the database in the statement, and `Fate` says whether the statement took
-- effect and whether its answer arrived.
use mathlib.Core.List.{Perm}
use go_blueprint.Prelude.{
  ℕ, ◌+◌, Bool, true, not, ◌&&◌, Option, none, some, List, [], ◌∷◌, ◌++◌, map, ltb, leb, ◌==◌, take,
  select, contains, is_none, if◌then◌else◌, Text, codes, any,
}
use go_blueprint.Errors.{◌>>◌, Error, Result, ok, err, wrap, Fate, settle, reply, within}
use go_blueprint.Outbox.{Message, Row}

-- What the statements leave to Postgres: the order of equal keys under ORDER BY created_at, and the
-- order in which UPDATE ... RETURNING gives the rows back.
pub record Engine : Type 0 where
  pub by_created : List Row → List Row
  pub returning : List Row → List Row

-- Documented behaviour: both give the rows that they are given.
pub record IsEngine (e : Engine) : Type 0 where
  pub by_created_perm : (rs : List Row) → Perm rs (e.by_created rs)
  pub returning_perm : (rs : List Row) → Perm rs (e.returning rs)

-- The row that INSERT makes, with the defaults of the columns that it does not name.
abbrev pub fresh_row : ℕ → Message → Row
fresh_row now m = record {
  message = record m { processed_at = none; attempts = 0; last_error = none };
  locked_at = none;
  next_attempt_at = now;
}

-- `locked_at IS NULL OR locked_at < now() - reclaim`.
abbrev pub lock_free : ℕ → ℕ → Option ℕ → Bool
lock_free now reclaim none = true
lock_free now reclaim (some at) = ltb (at + reclaim) now

-- The WHERE of the inner SELECT.
unfoldable pub claimable : ℕ → ℕ → ℕ → Row → Bool
claimable now reclaim max_attempts r =
    is_none r.processed_at
    && ltb r.attempts max_attempts
    && leb r.next_attempt_at now
    && lock_free now reclaim r.locked_at

abbrev pub ids : List Row → List ℕ
ids rs = map (λ r. r.id) rs

abbrev pub message_ids : List Message → List ℕ
message_ids ms = map (λ m. m.id) ms

-- An UPDATE with `WHERE id = $n`.
unfoldable pub update_row : ℕ → (Row → Row) → List Row → List Row
update_row id change [] = []
update_row id change (r ∷ rs) = (if r.id == id then change r else r) ∷ update_row id change rs

-- SET locked_at = now() on the selected ids.
unfoldable pub lock : ℕ → List ℕ → List Row → List Row
lock now chosen [] = []
lock now chosen (r ∷ rs) =
    (if contains r.id chosen then record r { locked_at = some now } else r) ∷ lock now chosen rs

-- Exec of one statement, its error wrapped.
abbrev pub exec : Text → Fate → List Row → List Row → List Row × Result (Unit {0})
exec context fate before after = (settle fate before after, within context (reply fate))

module _ (e : Engine) where
  -- The ids that the inner SELECT gives. `held` are the rows that other transactions have locked.
  unfoldable pub chosen_ids : List ℕ → ℕ → ℕ → ℕ → ℕ → List Row → List ℕ
  chosen_ids held now limit reclaim max_attempts rows = ids (
      take limit (
        e.by_created
          (select (λ r. claimable now reclaim max_attempts r && not (contains r.id held)) rows)))

  -- PostgresOutboxStore.ClaimBatch: the table after it, and what it returns.
  unfoldable pub claim_batch :
      Fate → List ℕ → ℕ → ℕ → ℕ → ℕ → List Row → List Row × Result (List Message)
  unfolding lock
  claim_batch fate held now limit reclaim max_attempts rows =
      let chosen = chosen_ids held now limit reclaim max_attempts rows in
      let after = lock now chosen rows in
      (
        settle fate rows after,
        within (codes "outbox.ClaimBatch") (
            reply fate
            >> ok (map (λ r. r.message) (e.returning (select (λ r. contains r.id chosen) after)))),
      )

-- PostgresOutboxStore.SaveTx: the INSERT, inside the caller's transaction. `id` is the primary key.
unfoldable pub save_tx : Fate → ℕ → List Row → Message → List Row × Result (Unit {0})
save_tx fate now rows m =
    if any (λ r. r.id == m.id) rows
    then (rows, err (wrap (codes "outbox.SaveTx") (Error.opaque (codes "duplicate key value"))))
    else exec (codes "outbox.SaveTx") fate rows (rows ++ fresh_row now m ∷ [])

-- PostgresOutboxStore.MarkProcessed; `now` is time.Now().UTC() of the process.
unfoldable pub mark_processed : Fate → ℕ → List Row → ℕ → List Row × Result (Unit {0})
unfolding update_row
mark_processed fate now rows id =
    exec (codes "outbox.MarkProcessed") fate rows (
      update_row id (λ r. record r { message = record r.message { processed_at = some now } }) rows)

-- The SET list of MarkFailed.
abbrev pub failed_row : ℕ → Text → ℕ → Row → Row
failed_row now reason retry_after r = record r {
  message = record r.message { attempts = r.attempts + 1; last_error = some reason };
  locked_at = none;
  next_attempt_at = now + retry_after;
}

-- PostgresOutboxStore.MarkFailed.
unfoldable pub mark_failed : Fate → ℕ → List Row → ℕ → Text → ℕ → List Row × Result (Unit {0})
unfolding update_row
mark_failed fate now rows id reason retry_after =
    exec (codes "outbox.MarkFailed") fate rows
      (update_row id (failed_row now reason retry_after) rows)

-- The SET list of MarkExhausted.
abbrev pub exhausted_row : ℕ → Text → Row → Row
exhausted_row now reason r = record r {
  message = record r.message {
    attempts = r.attempts + 1;
    last_error = some reason;
    processed_at = some now;
  };
  locked_at = none;
}

-- PostgresOutboxStore.MarkExhausted.
unfoldable pub mark_exhausted : Fate → ℕ → List Row → ℕ → Text → List Row × Result (Unit {0})
unfolding update_row
mark_exhausted fate now rows id reason =
    exec (codes "outbox.MarkExhausted") fate rows (update_row id (exhausted_row now reason) rows)
