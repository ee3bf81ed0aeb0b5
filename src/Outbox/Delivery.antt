-- ===== src/Outbox/Delivery.antt =====
-- What a delivery leaves in the table: success and exhaustion retire a message, failure makes it wait.
use go_blueprint.Prelude.{
  lt→ltb, not_le→leb, le→leb, not-false, or_left, or_true, ◌^◌, and_true, min, ℕ, ◌+◌, ◌*◌, ◌≤◌,
  ◌<◌, ◌≡◌, refl, ◌∙◌, ◌⊎◌, inl, inr, Bool, true, false, not, Option, none, some, List, [], ◌∷◌,
  arith, ltb, leb, ◌==◌, Bool-cases, is_none, any, Text,
}
use go_blueprint.Outbox.History
use go_blueprint.Outbox.Store.{
  failed_row, mark_exhausted, claimable, mark_processed, mark_failed, claim_batch, update_row,
  Engine, IsEngine,
}
use go_blueprint.Errors.{
  fails_as, text, done, lost, joined, settle, ok, is, Sentinel, refused, Error, Fate,
}
use go_blueprint.Outbox.{Message, Row}
use go_blueprint.Outbox.Poller.{deliver, Poller}
use go_blueprint.Outbox.History.{any-update_row, is_retired, Op, replay}
use go_blueprint.Outbox.Quiet.{
  IsLasting, all-is_after, held_rows-unclaimed, is_quiet, replay-held_rows,
}
use go_blueprint.Prelude.Every.{all}
use go_blueprint.Outbox.Backoff.{backoff-eq-min, max_backoff}

abbrev pub is_refused : Fate → Bool
is_refused (refused e) = true
is_refused _ = false

pub settle_took :
    {S : Type 0} (mark : Fate) (before after : S)
    → is_refused mark ≡ false
    → settle mark before after ≡ after
settle_took done before after h = refl
settle_took (refused x) before after h = cc
settle_took (lost x) before after h = refl

-- What holds of every row after an update, by the rows that it changes and those that it does not.
all-update_row :
    (id : ℕ) (change : Row → Row) (q : Row → Bool) (rows : List Row)
    → ((r : Row) → q (change r) ≡ true)
    → ((r : Row) → (r.id == id) ≡ false → q r ≡ true)
    → all q (update_row id change rows) ≡ true
unfolding update_row
all-update_row id change q [] h k = refl
all-update_row id change q (r ∷ rows) h k =
    ground (arith, h r, k r, all-update_row id change q rows h k)

-- An update of the rows with one id that sets processed_at retires the id.
retire_rows :
    (id : ℕ) (change : Row → Row) (rows : List Row)
    → ((r : Row) → ((change r).id ≡ r.id) × (is_none (change r).processed_at ≡ false))
    → any (λ r. r.id == id) rows ≡ true
    → is_retired id (update_row id change rows) ≡ true
retire_rows id change rows k h =
    and_true (History.any-update_row id id change rows (λ r. ((k r).0, λ _. (k r).1)) ∙ h) (
      all-update_row id change _ rows (λ r. or_true _ (not-false (k r).1))
        (λ r e. or_left _ _ (not-false e)))

is-joined : (x : Error) (o : Option Error) (s : Sentinel) → is x s ≡ true → is (joined x o) s ≡ true
unfolding is
is-joined x none s h = h
is-joined x (some y) s h = or_left _ _ h

due_lasts : (now : ℕ) → IsLasting 0 (λ r. ltb now r.next_attempt_at)
due_lasts now = record {
  locks = λ at r later h. h;
  retires = λ at r h. h;
  gives_up = λ at reason r h. h;
}

not_due :
    (now reclaim max_attempts : ℕ) (r : Row)
    → ltb now r.next_attempt_at ≡ true
    → claimable now reclaim max_attempts r ≡ false
unfolding claimable
not_due now reclaim max_attempts r h = ground (arith, h)

module _ (uuid_text : ℕ → Text) where
  -- A delivery of a message that has a row, whose publish succeeded or that was the last one allowed,
  -- leaves processed_at in every row of it, unless the statement that records it had no effect.
  pub deliver_retires :
      (p : Poller) (now : ℕ) (published : Option Error) (mark : Fate) (rows : List Row)
      (msg : Message)
      → any (λ r. r.id == msg.id) rows ≡ true
      → is_refused mark ≡ false
      → (published ≡ none) ⊎ (p.max_attempts ≤ msg.attempts + 1)
      → is_retired msg.id (deliver uuid_text p now published mark rows msg).0 ≡ true
  unfolding deliver mark_processed mark_exhausted
  deliver_retires p now none mark rows msg h m k =
      rw (settle_took mark rows (update_row msg.id _ rows) m)
        (retire_rows msg.id _ rows (λ r. (refl, refl)) h)
  deliver_retires p now (some x) mark rows msg h m (inl e) = cc
  deliver_retires p now (some x) mark rows msg h m (inr le) =
      rw (le→leb _ _ le, settle_took mark rows (update_row msg.id _ rows) m)
        (retire_rows msg.id _ rows (λ r. (refl, refl)) h)

  deliver_fails :
      (p : Poller) (now : ℕ) (x : Error) (mark : Fate) (rows : List Row) (msg : Message)
      → is_refused mark ≡ false
      → msg.attempts + 1 < p.max_attempts
      → (deliver uuid_text p now (some x) mark rows msg).0
        ≡ update_row msg.id
            (failed_row now (text x) (min (p.interval * 2 ^ (msg.attempts + 1)) max_backoff))
            rows
  unfolding deliver mark_failed
  deliver_fails p now x mark rows msg m k = rw (
    not_le→leb _ _ k,
    settle_took mark rows (update_row msg.id _ rows) m,
    backoff-eq-min p.interval (msg.attempts + 1),
  )

  -- After a failed delivery that was not the last one, and whose statement took effect: no claim returns the
  -- message before interval * 2^attempts, capped at five minutes, has passed, whatever statements of the store run
  -- in between and whatever their fates, if none of them inserts that message or records another failed
  -- delivery of it.
  pub failed_waits :
      (e : Engine) (lawful : IsEngine e) (p : Poller) (now : ℕ) (x : Error) (mark : Fate)
      (rows : List Row) (msg : Message) (ops : List Op) (fate : Fate) (held : List ℕ)
      (now' limit reclaim : ℕ) (ms : List Message)
      → is_refused mark ≡ false
      → msg.attempts + 1 < p.max_attempts
      → all (is_quiet msg.id) ops ≡ true
      → now' < now + min (p.interval * 2 ^ (msg.attempts + 1)) max_backoff
      → (claim_batch e fate held now' limit reclaim p.max_attempts
          (replay e (deliver uuid_text p now (some x) mark rows msg).0 ops)).1
        ≡ ok ms
      → all (λ m. not (m.id == msg.id)) ms ≡ true
  failed_waits e lawful p now x mark rows msg ops fate held now' limit reclaim ms m k quiet early
        c =
      let due = λ (r : Row). ltb now' r.next_attempt_at in
      held_rows-unclaimed msg.id due e lawful fate held now' limit reclaim p.max_attempts _
        (not_due now' reclaim p.max_attempts)
        (replay-held_rows msg.id due e 0 (due_lasts now') _ ops quiet (all-is_after ops) (
          rw (deliver_fails p now x mark rows msg m k) (
            all-update_row msg.id _ _ rows (λ r. or_true _ (lt→ltb _ _ early))
              (λ r o. or_left _ _ (not-false o)))))
        c

  -- The error of a failed delivery is, for errors.Is, the error of the publisher as well.
  pub deliver-is :
      (p : Poller) (now : ℕ) (x : Error) (mark : Fate) (rows : List Row) (msg : Message)
      (s : Sentinel)
      → is x s ≡ true
      → fails_as (deliver uuid_text p now (some x) mark rows msg).1 s ≡ true
  unfolding deliver is
  deliver-is p now x mark rows msg s h = elim (Bool-cases (leb p.max_attempts (msg.attempts + 1))) [
    | inl last ↦ rw last (is-joined x _ s h)
    | inr more ↦ rw more (is-joined x _ s h)
  ]
