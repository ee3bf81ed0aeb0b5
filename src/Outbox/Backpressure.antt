-- ===== src/Outbox/Backpressure.antt =====
-- What a tick does with the messages that the full pool refuses.
use go_blueprint.Prelude.{
  and_right, or_true, contains, ℕ, ◌+◌, ◌≤◌, ◌≡◌, refl, ap, ◌∙◌, inl, inr, Bool, true, false, not,
  ◌||◌, none, some, List, [], ◌∷◌, ◌++◌, ◌==◌, ==_iff, Bool-cases, arith, leb, is_none,
}
use go_blueprint.Outbox.Store.{
  message_ids, claim_batch, chosen_ids, lock, claimable, Engine, IsEngine,
}
use go_blueprint.Worker.{send_panics, queue_full, accepted, submit, Submitted, Pool}
use go_blueprint.Worker.Drain.{count, count-append}
use go_blueprint.Outbox.Poller.{reclaim_after, poll, Poller, submit_all}
use go_blueprint.Outbox.{Row, Message}
use go_blueprint.Prelude.Every.{all-contains, all-true, all}
use go_blueprint.Errors.{Result-cases, ok, Fate}
use go_blueprint.Outbox.Claims.{claim_ok, claim_done-0, claimed, claimed_ids}
use go_blueprint.Outbox.History.{Op, replay}
use go_blueprint.Outbox.Quiet.{
  IsLasting, held_rows, held_rows-unclaimed, is_after, is_quiet, replay-held_rows,
}

-- The pool holds the jobs that it held before and those that were sent, as often.
abbrev pub Gains : Pool Message → Pool Message → List Message → Type 0
Gains before after sent =
    (test : Message → Bool)
    → count test after.queue + count test after.running
      ≡ count test before.queue + count test before.running + count test sent

submit-Gains :
    (pool : Pool Message) (m : Message)
    → (submit pool m).1 ≡ accepted
    → Gains pool (submit pool m).0 (m ∷ [])
unfolding submit
submit-Gains pool m h test = ground (arith, h, count-append test pool.queue (m ∷ []))

full-Gains :
    (pool : Pool Message) (m : Message)
    → (submit pool m).1 ≡ queue_full
    → Gains pool (submit pool m).0 []
unfolding submit
full-Gains pool m h test = ground (arith, h)

panic-Gains :
    (pool : Pool Message) (m : Message)
    → (submit pool m).1 ≡ send_panics
    → Gains pool (submit pool m).0 []
unfolding submit
panic-Gains pool m h test = ground (arith, h)

Gains-then :
    (before mid after : Pool Message) (m : Message) (sent : List Message)
    → Gains before mid (m ∷ [])
    → Gains mid after sent
    → Gains before after (m ∷ sent)
Gains-then before mid after m sent first rest test = ground (arith, first test, rest test)

-- The messages that were submitted are a first part of those that were claimed, and the pool has gained them.
submit_all-append :
    (pool : Pool Message) (ms : List Message)
    → (sent : List Message) × (sent ++ (submit_all pool ms).1 ≡ ms)
      × Gains pool (submit_all pool ms).0 sent
unfolding submit_all
submit_all-append pool [] = ([], refl, λ test. omega arith)
submit_all-append pool (m ∷ ms) =
    cases (submit pool m).1 refl (submit_all-append (submit pool m).0 ms)
  where
    cases :
        (answer : Submitted)
        → (submit pool m).1 ≡ answer
        → ((sent : List Message) × (sent ++ (submit_all (submit pool m).0 ms).1 ≡ ms)
            × Gains (submit pool m).0 (submit_all (submit pool m).0 ms).0 sent)
        → (sent : List Message) × (sent ++ (submit_all pool (m ∷ ms)).1 ≡ m ∷ ms)
          × Gains pool (submit_all pool (m ∷ ms)).0 sent
    cases accepted h (sent, e, more) = (
      m ∷ sent,
      rw (h, submit_all) (ap (λ l. m ∷ l) e),
      rw (h, submit_all)
          (Gains-then pool (submit pool m).0 (submit_all (submit pool m).0 ms).0 m sent
            (submit-Gains pool m h) more),
    )
    cases queue_full h _ = ([], rw (h, submit_all), rw (h, submit_all) (full-Gains pool m h))
    cases send_panics h _ = ([], rw (h, submit_all), rw (h, submit_all) (panic-Gains pool m h))

contains-append :
    (i : ℕ) (sent left : List Message)
    → contains i (message_ids left) ≡ true
    → contains i (message_ids (sent ++ left)) ≡ true
contains-append i [] left h = h
contains-append i (m ∷ sent) left h = or_true (m.id == i) (contains-append i sent left h)

-- The row is retired, or it was claimed at a time or later.
abbrev held_from : ℕ → Row → Bool
held_from since r =
    not (is_none r.processed_at) || elim r.locked_at [ none ↦ false | some at ↦ leb since at ]

held_from-IsLasting : (since : ℕ) → IsLasting since (held_from since)
held_from-IsLasting since = record {
  locks = λ at r later h. or_true (not (is_none r.processed_at)) later;
  retires = λ at r h. refl;
  gives_up = λ at reason r h. refl;
}

held_from-unclaimed :
    (since now reclaim max_attempts : ℕ) (r : Row)
    → now ≤ since + reclaim
    → held_from since r ≡ true
    → claimable now reclaim max_attempts r ≡ false
unfolding claimable
held_from-unclaimed since now reclaim max_attempts r soon h = ground (arith, soon, h)

lock-held_rows :
    (i now : ℕ) (chosen : List ℕ) (rows : List Row)
    → contains i chosen ≡ true
    → held_rows i (held_from now) (lock now chosen rows) ≡ true
unfolding lock
lock-held_rows i now chosen [] h = refl
lock-held_rows i now chosen (r ∷ rows) h = elim (Bool-cases (r.id == i)) [
  | inl same ↦
      let mine : contains r.id chosen ≡ true =
        ap (λ j. contains j chosen) ((==_iff r.id i).0 same) ∙ h in
      ground (arith, mine, lock-held_rows i now chosen rows h)
  | inr other ↦ ground (arith, other, lock-held_rows i now chosen rows h)
]

-- Messages none of which has an id of a list, one id at a time.
apart :
    (left : List ℕ) (ms : List Message)
    → ((i : ℕ) → contains i left ≡ true → all (λ m. not (m.id == i)) ms ≡ true)
    → all (λ m. not (contains m.id left)) ms ≡ true
apart left [] h = refl
apart left (m ∷ ms) h = elim (Bool-cases (contains m.id left)) [
  | inl c ↦ cc (h m.id c, (==_iff m.id m.id).1 refl)
  | inr c ↦ ground (arith, c, apart left ms (λ i k. and_right (not (m.id == i)) _ (h i k)))
]

module _ (e : Engine) (lawful : IsEngine e) where
  chosen_of :
      (chosen : List ℕ) (now : ℕ) (rows : List Row) (i : ℕ)
      → contains i (message_ids (claimed e lawful chosen now rows)) ≡ true
      → contains i chosen ≡ true
  chosen_of chosen now rows i h = elim (Bool-cases (contains i chosen)) [
    | inl c ↦ c
    | inr c ↦ cc (h, claimed_ids e lawful chosen now rows i (ap not c))
  ]

  -- A message of the claim of a tick is claimed by no statement until the reclaim time has passed.
  claimed_waits :
      (chosen held : List ℕ) (now now' limit reclaim max_attempts i : ℕ) (rows : List Row)
      (ops : List Op) (fate : Fate) (ms : List Message)
      → contains i (message_ids (claimed e lawful chosen now rows)) ≡ true
      → all (is_quiet i) ops ≡ true
      → all (is_after now) ops ≡ true
      → now' ≤ now + reclaim
      → (claim_batch e fate held now' limit reclaim max_attempts
          (replay e (lock now chosen rows) ops)).1
        ≡ ok ms
      → all (λ m. not (m.id == i)) ms ≡ true
  claimed_waits chosen held now now' limit reclaim max_attempts i rows ops fate ms there quiet later
        soon c =
      held_rows-unclaimed i (held_from now) e lawful fate held now' limit reclaim max_attempts _
        (λ r. held_from-unclaimed now now' reclaim max_attempts r soon)
        (replay-held_rows i (held_from now) e now (held_from-IsLasting now) _ ops quiet later
          (lock-held_rows i now chosen rows (chosen_of chosen now rows i there)))
        c

  -- What a tick claims is what it submits and what it leaves, in that order, and the pool has gained what it submits;
  -- and a message that it leaves is claimed by no statement until five minutes have passed since the claim, whatever
  -- statements of the store run in between and whatever their fates, if no claim among them is earlier than
  -- that of the tick, and none of them inserts such a message or records a failed delivery of one.
  pub left_not_reclaimed :
      (p : Poller) (fate fate' : Fate) (held held' : List ℕ) (now now' limit' : ℕ) (rows : List Row)
      (pool : Pool Message) (ops : List Op) (ms' : List Message)
      → now' ≤ now + reclaim_after
      → all (λ i. all (is_quiet i) ops) (message_ids (poll e p fate held now rows pool).left) ≡ true
      → all (is_after now) ops ≡ true
      → (claim_batch e fate' held' now' limit' reclaim_after p.max_attempts
          (replay e (poll e p fate held now rows pool).rows ops)).1
        ≡ ok ms'
      → ((sent : List Message) × (sent ++ (poll e p fate held now rows pool).left
            ≡ (poll e p fate held now rows pool).claimed)
          × Gains pool (poll e p fate held now rows pool).pool sent)
        × (all (λ m. not (contains m.id (message_ids (poll e p fate held now rows pool).left))) ms'
            ≡ true)
  unfolding poll
  left_not_reclaimed p fate fate' held held' now now' limit' rows pool ops ms' soon quiet later c =
      elim (Result-cases
        (claim_batch e fate held now p.batch_size reclaim_after p.max_attempts rows).1) [
          | inr (x, failed) ↦ rw (failed, poll) (([], refl, λ test. omega arith), all-true ms')
          | inl (ms, taken) ↦
              let (sent, same, gained) = submit_all-append pool ms in
              let left = message_ids (submit_all pool ms).1 in
              let still : all (λ i. all (is_quiet i) ops) left ≡ true = rw (taken, poll) at quiet in
              let (took, found) =
                claim_ok e lawful fate held now p.batch_size reclaim_after p.max_attempts rows ms
                  taken in
              rw (taken, poll)
                (
                  (sent, same, gained),
                  apart left ms' (λ i there.
                      claimed_waits
                        (chosen_ids e held now p.batch_size reclaim_after p.max_attempts rows) held'
                        now now' limit' reclaim_after p.max_attempts i rows ops fate' ms'
                        (rw (found, ← same) (contains-append i sent (submit_all pool ms).1 there))
                        (all-contains (λ j. all (is_quiet j) ops) i left still there) later soon
                        (rw (took, claim_done-0) at (rw (taken, poll) at c))),
                )
        ]
