-- ===== src/Process/Liveness.antt =====
-- A due message is claimed, queued and, once a job for it succeeds, retired for good.
use go_blueprint.Prelude.{
  ℕ, ◌+◌, ◌≤◌, ◌≡◌, refl, sym, ap, ◌∙◌, inl, inr, Bool, true, false, not, ◌&&◌, ◌||◌, Option, none,
  some, List, [], ◌∷◌, arith, leb, ◌==◌, if◌then◌else◌, Bool-cases, is_none, any, Text, length,
}
use go_blueprint.Prelude.{select, contains, ==_iff}
use go_blueprint.Errors.{Error, Fate, done, settle, refused, lost, text}
use go_blueprint.Outbox.{Message, Row}
use go_blueprint.Outbox.Store.{
  Engine, IsEngine, claimable, message_ids, claim_batch, mark_processed, mark_failed,
  mark_exhausted,
}
use go_blueprint.Outbox.Claims.{has_row}
use go_blueprint.Outbox.History
use go_blueprint.Outbox.History.{Op, is_retired, Keeps}
use go_blueprint.Outbox.Backoff.{backoff}
use go_blueprint.Outbox.Delivery.{deliver_retires, is_refused}
use go_blueprint.Outbox.Poller.{Poller, poll, deliver, reclaim_after}
use go_blueprint.Worker.{Pool, open_for_jobs}
use go_blueprint.Process.{expired, Context, Act, act, act_all, ticks, delivers, under, is_over}
use go_blueprint.Process.Due.{due_queued}

-- A job for the message published it, and recorded that before its context was done.
abbrev pub succeeds : Context → ℕ → List Act → Bool
succeeds job i [] = false
succeeds job i (ticks fate held now ∷ acts) = succeeds job i acts
succeeds job i (delivers now published mark msg ∷ acts) =
    (msg.id == i && is_none published && not (is_refused mark) && not (is_over job now))
    || succeeds job i acts

module _ (i : ℕ) where
  any-settle :
      (fate : Fate) (before after : List Row)
      → any (λ r. r.id == i) after ≡ any (λ r. r.id == i) before
      → any (λ r. r.id == i) (settle fate before after) ≡ any (λ r. r.id == i) before
  any-settle done before after h = h
  any-settle (refused x) before after h = refl
  any-settle (lost x) before after h = h

  module _ (uuid_text : ℕ → Text) (e : Engine) (p : Poller) (root job : Context) where
    -- A tick and a delivery are statements of the store.
    act_is_op :
        (rows : List Row) (a : Act)
        → (op : Op) × (act uuid_text e p root job rows a ≡ History.apply e rows op)
    unfolding act deliver History.apply
    act_is_op rows (ticks fate held now) =
        (Op.claims (under root now fate) held now p.batch_size reclaim_after p.max_attempts, refl)
    act_is_op rows (delivers now none mark msg) =
        (Op.processes (under job now mark) now msg.id, refl)
    act_is_op rows (delivers now (some x) mark msg) =
        elim (Bool-cases (leb p.max_attempts (msg.attempts + 1))) [
          | inl last ↦
              (Op.exhausts (under job now mark) now msg.id (text x), rw (last, act, deliver) refl)
          | inr more ↦ (
            Op.fails (under job now mark) now msg.id (text x)
                (backoff p.interval (msg.attempts + 1)),
            rw (more, act, deliver) refl,
          )
        ]

    act-is_retired :
        (rows : List Row) (a : Act)
        → is_retired i rows ≡ true
        → is_retired i (act uuid_text e p root job rows a) ≡ true
    act-is_retired rows a h =
        let (op, same) = act_is_op rows a in rw same (History.apply-is_retired i e rows op h)

    act_all-is_retired :
        (rows : List Row) (acts : List Act)
        → is_retired i rows ≡ true
        → is_retired i (act_all uuid_text e p root job rows acts) ≡ true
    unfolding act_all
    act_all-is_retired rows [] h = h
    act_all-is_retired rows (a ∷ acts) h =
        act_all-is_retired (act uuid_text e p root job rows a) acts (act-is_retired rows a h)

    act-any :
        (rows : List Row) (a : Act)
        → any (λ r. r.id == i) (act uuid_text e p root job rows a) ≡ any (λ r. r.id == i) rows
    unfolding act deliver claim_batch mark_processed mark_failed mark_exhausted
    act-any rows (ticks fate held now) =
        any-settle (under root now fate) rows _ (History.any-lock i now _ rows)
    act-any rows (delivers now none mark msg) =
        any-settle (under job now mark) rows _
          (History.any-update_row i msg.id _ rows (λ r. (refl, λ k. refl)))
    act-any rows (delivers now (some x) mark msg) =
        elim (Bool-cases (leb p.max_attempts (msg.attempts + 1))) [
          | inl last ↦
              rw (last, act, deliver)
                (any-settle (under job now mark) rows _
                  (History.any-update_row i msg.id _ rows (λ r. (refl, λ k. refl))))
          | inr more ↦
              rw (more, act, deliver)
                (any-settle (under job now mark) rows _
                  (History.any-update_row i msg.id _ rows (λ r. (refl, λ k. k))))
        ]

    -- The delivery that succeeds.
    success_retires :
        (rows : List Row) (now : ℕ) (published : Option Error) (mark : Fate) (msg : Message)
        → any (λ r. r.id == i) rows ≡ true
        → (msg.id == i && is_none published && not (is_refused mark) && not (is_over job now))
          ≡ true
        → is_retired i (act uuid_text e p root job rows (delivers now published mark msg)) ≡ true
    unfolding act
    success_retires rows now (some x) mark msg h k = ground (arith, k)
    success_retires rows now none mark msg h k =
        let is_i : msg.id ≡ i = (==_iff msg.id i).0 (ground (arith, k)) in
        let taken : is_refused mark ≡ false = ground (arith, k) in
        let alive : is_over job now ≡ false = ground (arith, k) in
        ap
          (λ b.
            is_retired i
              (deliver uuid_text p now none (if b then refused expired else mark) rows msg).0)
          alive
        ∙ ap (λ j. is_retired j (deliver uuid_text p now none mark rows msg).0) (sym is_i)
        ∙ deliver_retires uuid_text p now none mark rows msg
            (ap (λ j. any (λ r. r.id == j) rows) is_i ∙ h) taken (inl refl)

    acts_retire :
        (rows : List Row) (acts : List Act)
        → any (λ r. r.id == i) rows ≡ true
        → succeeds job i acts ≡ true
        → is_retired i (act_all uuid_text e p root job rows acts) ≡ true
    unfolding act_all
    acts_retire rows [] h k = cc k
    acts_retire rows (ticks fate held now ∷ acts) h k =
        acts_retire (act uuid_text e p root job rows (ticks fate held now)) acts
          (act-any rows (ticks fate held now) ∙ h) k
    acts_retire rows (delivers now published mark msg ∷ acts) h k =
        let a = delivers now published mark msg in
        elim (Bool-cases
          (msg.id == i && is_none published && not (is_refused mark) && not (is_over job now))) [
            | inl this ↦
                act_all-is_retired (act uuid_text e p root job rows a) acts
                  (success_retires rows now published mark msg h this)
            | inr later ↦
                acts_retire (act uuid_text e p root job rows a) acts (act-any rows a ∙ h)
                  (rw later at k)
          ]

-- A tick whose statement succeeds while no other transaction holds a row, with a batch as large as the
-- number of due messages and a buffer with room for what it claims, queues a job for every due message. If
-- that job then publishes and records this before its context is done, the message has processed_at from
-- there on, whatever else the ticks and deliveries of the process did before and after.
pub due_delivered :
    (uuid_text : ℕ → Text) (e : Engine) (lawful : IsEngine e) (p : Poller) (root job : Context)
    (now i : ℕ) (rows : List Row) (pool : Pool Message) (acts : List Act)
    → has_row (λ r. claimable now reclaim_after p.max_attempts r && not (contains r.id [])) rows i
      ≡ true
    → length
        (select (λ r. claimable now reclaim_after p.max_attempts r && not (contains r.id [])) rows)
      ≤ p.batch_size
    → pool.channel ≡ open_for_jobs
    → length pool.queue + length (poll e p done [] now rows pool).claimed ≤ pool.queue_size
    → succeeds job i acts ≡ true
    → (contains i (message_ids (poll e p done [] now rows pool).pool.queue) ≡ true)
      × (is_retired i (act_all uuid_text e p root job (poll e p done [] now rows pool).rows acts)
          ≡ true)
due_delivered uuid_text e lawful p root job now i rows pool acts due fits open_ room success =
    let (nothing, queued, kept) = due_queued e lawful p now i rows pool due fits open_ room in
    (
      queued,
      acts_retire i uuid_text e p root job (poll e p done [] now rows pool).rows acts kept success,
    )
