-- ===== src/Process/Expiry.antt =====
-- What the outbox of a process still does once the context of its jobs is done.
use go_blueprint.Prelude.{
  ℕ, ◌+◌, ◌≡◌, refl, ap, ◌∙◌, Bool, true, ◌&&◌, Option, none, List, [], ◌∷◌, map, arith, leb,
  if◌then◌else◌, Text,
}
use go_blueprint.Process.{
  expired, Context, Act, act, act_all, job_context, ticks, delivers, under, is_over,
}
use go_blueprint.Errors.{Fate, refused, done, lost, Error, settle}
use go_blueprint.Outbox.{Message, Row}
use go_blueprint.Outbox.Store.{
  Engine, claim_batch, lock, mark_processed, mark_failed, mark_exhausted, chosen_ids,
}
use go_blueprint.Outbox.Poller.{Poller, deliver, reclaim_after}

-- A table without its locks.
abbrev pub unlocked : List Row → List Row
unlocked rows = map (λ (r : Row). record r { locked_at = none }) rows

-- Every delivery of the sequence is recorded at that time or later.
abbrev pub delivers_from : ℕ → List Act → Bool
delivers_from t [] = true
delivers_from t (ticks fate held now ∷ acts) = delivers_from t acts
delivers_from t (delivers now published mark msg ∷ acts) = leb t now && delivers_from t acts

unlocked-lock :
    (now : ℕ) (chosen : List ℕ) (rows : List Row) → unlocked (lock now chosen rows) ≡ unlocked rows
unfolding lock
unlocked-lock now chosen [] = refl
unlocked-lock now chosen (r ∷ rows) = ground (arith, unlocked-lock now chosen rows)

unlocked-settle :
    (fate : Fate) (before after : List Row)
    → unlocked after ≡ unlocked before
    → unlocked (settle fate before after) ≡ unlocked before
unlocked-settle done before after h = h
unlocked-settle (refused x) before after h = refl
unlocked-settle (lost x) before after h = h

unlocked-claim :
    (e : Engine) (fate : Fate) (held : List ℕ) (now limit reclaim max_attempts : ℕ)
    (rows : List Row)
    → unlocked (claim_batch e fate held now limit reclaim max_attempts rows).0 ≡ unlocked rows
unfolding claim_batch
unlocked-claim e fate held now limit reclaim max_attempts rows =
    unlocked-settle fate rows
      (lock now (chosen_ids e held now limit reclaim max_attempts rows) rows)
      (unlocked-lock now (chosen_ids e held now limit reclaim max_attempts rows) rows)

module _ (uuid_text : ℕ → Text) where
  -- A delivery whose statement is refused leaves the table as it was.
  deliver_refused :
      (p : Poller) (now : ℕ) (published : Option Error) (x : Error) (rows : List Row)
      (msg : Message)
      → (deliver uuid_text p now published (refused x) rows msg).0 ≡ rows
  unfolding deliver mark_processed mark_failed mark_exhausted
  deliver_refused p now published x rows msg = ground arith

  over_from :
      (root : Context) (start drain_timeout now : ℕ)
      → leb (start + drain_timeout) now ≡ true
      → is_over (job_context root start drain_timeout) now ≡ true
  unfolding job_context
  over_from root start drain_timeout now h = h

-- From WorkerDrainTimeout after the pool was made, a process that is still running retires no message and
-- counts no attempt: whatever its ticks and deliveries do, and whether or not a publish succeeds, the table
-- stays as it was but for locked_at.
pub expired_only_locks :
    (uuid_text : ℕ → Text) (e : Engine) (p : Poller) (root : Context) (start drain_timeout : ℕ)
    (rows : List Row) (acts : List Act)
    → delivers_from (start + drain_timeout) acts ≡ true
    → unlocked (act_all uuid_text e p root (job_context root start drain_timeout) rows acts)
      ≡ unlocked rows
unfolding act_all act
expired_only_locks uuid_text e p root start drain_timeout rows [] h = refl
expired_only_locks uuid_text e p root start drain_timeout rows (ticks fate held now ∷ acts) h =
    expired_only_locks uuid_text e p root start drain_timeout
      (act uuid_text e p root (job_context root start drain_timeout) rows (ticks fate held now))
      acts h
    ∙ unlocked-claim e (under root now fate) held now p.batch_size reclaim_after p.max_attempts rows
expired_only_locks uuid_text e p root start drain_timeout rows
      (delivers now published mark msg ∷ acts) h =
    expired_only_locks uuid_text e p root start drain_timeout
      (act uuid_text e p root (job_context root start drain_timeout) rows
        (delivers now published mark msg))
      acts (ground (arith, h))
    ∙ ap unlocked (
        ap
          (λ b.
            (deliver uuid_text p now published (if b then refused expired else mark) rows msg).0)
          (over_from uuid_text root start drain_timeout now (ground (arith, h)))
        ∙ deliver_refused uuid_text p now published expired rows msg)
