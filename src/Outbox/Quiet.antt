-- ===== src/Outbox/Quiet.antt =====
-- What statements of internal/outbox/postgres.go leave of a message that none of them inserts or marks as failed.
use go_blueprint.Prelude.{
  le→leb, ℕ, ◌≡◌, refl, inl, inr, Bool, true, false, not, ◌||◌, some, List, [], ◌∷◌, ◌++◌, arith,
  leb, ◌==◌, Bool-cases, any, Text,
}
use go_blueprint.Prelude.Every.{all, all-select}
use go_blueprint.Errors.{Fate, done, refused, lost, settle, ok}
use go_blueprint.Outbox.{Message, Row}
use go_blueprint.Outbox.Store.{
  Engine, IsEngine, claimable, claim_batch, exhausted_row, fresh_row, lock, mark_exhausted,
  mark_failed, mark_processed, save_tx, update_row,
}
use go_blueprint.Outbox.Claims.{all-claimed, claim_ok}
use go_blueprint.Outbox.History.{Op, apply, replay, saves, claims, processes, fails, exhausts}

-- The statement neither inserts the message nor records a failed delivery of it.
abbrev pub is_quiet : ℕ → Op → Bool
is_quiet id (saves fate now m) = not (m.id == id)
is_quiet id (fails fate now target reason retry_after) = not (target == id)
is_quiet id _ = true

-- A claim is not made before a time.
abbrev pub is_after : ℕ → Op → Bool
is_after since (claims fate held now limit reclaim max_attempts) = leb since now
is_after since _ = true

-- A test that a row keeps when it is claimed from a time on, and when its message is retired.
pub record IsLasting (since : ℕ) (q : Row → Bool) : Type 0 where
  pub locks :
      (now : ℕ) (r : Row)
      → leb since now ≡ true
      → q r ≡ true
      → q (record r { locked_at = some now }) ≡ true
  pub retires :
      (now : ℕ) (r : Row)
      → q r ≡ true
      → q (record r { message = record r.message { processed_at = some now } }) ≡ true
  pub gives_up :
      (now : ℕ) (reason : Text) (r : Row) → q r ≡ true → q (exhausted_row now reason r) ≡ true

module _ (id : ℕ) (q : Row → Bool) where
  -- The rows of the id pass the test.
  abbrev pub held_rows : List Row → Bool
  held_rows rows = all (λ r. not (r.id == id) || q r) rows

  pub lock-held_rows :
      (since now : ℕ) (chosen : List ℕ) (rows : List Row)
      → IsLasting since q
      → leb since now ≡ true
      → held_rows rows ≡ true
      → held_rows (lock now chosen rows) ≡ true
  unfolding lock
  lock-held_rows since now chosen [] k later h = refl
  lock-held_rows since now chosen (r ∷ rows) k later h =
      ground (arith, k.locks now r later, lock-held_rows since now chosen rows k later)

  update-held_rows :
      (target : ℕ) (change : Row → Row) (rows : List Row)
      → ((r : Row) → (change r).id ≡ r.id)
      → ((r : Row) → q r ≡ true → q (change r) ≡ true)
      → held_rows rows ≡ true
      → held_rows (update_row target change rows) ≡ true
  unfolding update_row
  update-held_rows target change [] same keep h = refl
  update-held_rows target change (r ∷ rows) same keep h =
      ground (arith, same r, keep r, update-held_rows target change rows same keep)

  other-held_rows :
      (target : ℕ) (change : Row → Row) (rows : List Row)
      → (target == id) ≡ false
      → ((r : Row) → (change r).id ≡ r.id)
      → held_rows rows ≡ true
      → held_rows (update_row target change rows) ≡ true
  unfolding update_row
  other-held_rows target change [] other same h = refl
  other-held_rows target change (r ∷ rows) other same h =
      ground (arith, same r, other-held_rows target change rows other same)

  append-held_rows :
      (rows : List Row) (r : Row)
      → (r.id == id) ≡ false
      → held_rows rows ≡ true
      → held_rows (rows ++ r ∷ []) ≡ true
  append-held_rows [] r other h = ground arith
  append-held_rows (s ∷ rows) r other h = ground (arith, append-held_rows rows r other)

  settle-held_rows :
      (fate : Fate) (rows rows' : List Row)
      → held_rows rows ≡ true
      → held_rows rows' ≡ true
      → held_rows (settle fate rows rows') ≡ true
  settle-held_rows done rows rows' h k = k
  settle-held_rows (refused x) rows rows' h k = h
  settle-held_rows (lost x) rows rows' h k = k

  save-held_rows :
      (fate : Fate) (now : ℕ) (m : Message) (rows : List Row)
      → (m.id == id) ≡ false
      → held_rows rows ≡ true
      → held_rows (save_tx fate now rows m).0 ≡ true
  unfolding save_tx
  save-held_rows fate now m rows other h = elim (Bool-cases (any (λ r. r.id == m.id) rows)) [
    | inl known ↦ rw known h
    | inr new ↦
        rw new (settle-held_rows fate rows _ h (append-held_rows rows (fresh_row now m) other h))
  ]

  module _ (e : Engine) (since : ℕ) (lasting : IsLasting since q) where
    apply-held_rows :
        (rows : List Row) (op : Op)
        → is_quiet id op ≡ true
        → is_after since op ≡ true
        → held_rows rows ≡ true
        → held_rows (apply e rows op) ≡ true
    unfolding apply claim_batch mark_processed mark_failed mark_exhausted
    apply-held_rows rows (saves fate now m) quiet later h =
        save-held_rows fate now m rows (ground (arith, quiet)) h
    apply-held_rows rows (claims fate held now limit reclaim max_attempts) quiet later h =
        settle-held_rows fate rows _ h (lock-held_rows since now _ rows lasting later h)
    apply-held_rows rows (processes fate now target) quiet later h =
        settle-held_rows fate rows _ h
          (update-held_rows target _ rows (λ r. refl) (lasting.retires now) h)
    apply-held_rows rows (fails fate now target reason retry_after) quiet later h =
        settle-held_rows fate rows _ h
          (other-held_rows target _ rows (ground (arith, quiet)) (λ r. refl) h)
    apply-held_rows rows (exhausts fate now target reason) quiet later h =
        settle-held_rows fate rows _ h
          (update-held_rows target _ rows (λ r. refl) (lasting.gives_up now reason) h)

    pub replay-held_rows :
        (rows : List Row) (ops : List Op)
        → all (is_quiet id) ops ≡ true
        → all (is_after since) ops ≡ true
        → held_rows rows ≡ true
        → held_rows (replay e rows ops) ≡ true
    unfolding replay
    replay-held_rows rows [] quiet later h = h
    replay-held_rows rows (op ∷ ops) quiet later h =
        replay-held_rows (apply e rows op) ops (ground (arith, quiet)) (ground (arith, later))
          (apply-held_rows rows op (ground (arith, quiet)) (ground (arith, later)) h)

  -- If no row that passes the test may be claimed, a claim returns no message with the id.
  pub held_rows-unclaimed :
      (e : Engine) (lawful : IsEngine e) (fate : Fate) (held : List ℕ)
      (now limit reclaim max_attempts : ℕ) (rows : List Row) {ms : _}
      → ((r : Row) → q r ≡ true → claimable now reclaim max_attempts r ≡ false)
      → held_rows rows ≡ true
      → (claim_batch e fate held now limit reclaim max_attempts rows).1 ≡ ok ms
      → all (λ m. not (m.id == id)) ms ≡ true
  held_rows-unclaimed e lawful fate held now limit reclaim max_attempts rows {ms} refuses h c =
      let (_, same) = claim_ok e lawful fate held now limit reclaim max_attempts rows ms c in
      rw (← same) (
        all-claimed e lawful (λ i. not (i == id)) held now limit reclaim max_attempts rows
          (all-select (λ r. not (r.id == id)) (λ r. not (r.id == id) || q r) _ _
            (λ r k d. ground (arith, k, d, refuses r)) h))

any_time : (op : Op) → is_after 0 op ≡ true
any_time (saves fate now m) = refl
any_time (claims fate held now limit reclaim max_attempts) = le→leb 0 now (omega arith)
any_time (processes fate now id) = refl
any_time (fails fate now id reason retry_after) = refl
any_time (exhausts fate now id reason) = refl

pub all-is_after : (ops : List Op) → all (is_after 0) ops ≡ true
all-is_after [] = refl
all-is_after (op ∷ ops) = ground (arith, any_time op, all-is_after ops)
