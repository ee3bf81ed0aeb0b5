-- ===== src/Process/Announced.antt =====
-- What the outbox, the poller and the event handler make of a message that a command of internal/customer/service.go
-- announced.
use go_blueprint.Prelude.{
  ℕ, ◌≤◌, ◌<◌, ◌≡◌, refl, sym, ap, ◌∙◌, Bool, true, false, not, ◌&&◌, ◌||◌, List, [], ◌∷◌, ◌++◌,
  arith, ◌==◌, ==_iff, any, Text, codes, text_eq, is_empty, select, contains, or_true,
}
use go_blueprint.Prelude.Every.{all, all-Perm, all-select, all-map}
use go_blueprint.Errors.{ok, done}
use go_blueprint.Customer.World.{Call}
use go_blueprint.Customer.Atomicity.{Announces}
use go_blueprint.Outbox.{Message, Row}
use go_blueprint.Outbox.Store.{Engine, IsEngine, claimable, lock, chosen_ids, claim_batch}
use go_blueprint.Outbox.Claims.{has_row, claimed}
use go_blueprint.Outbox.Poller.{Poller, poll, reclaim_after}
use go_blueprint.Worker.{Pool}
use go_blueprint.Kafka.{answers}
use go_blueprint.Kafka.Producer.{
  Producer, Handled, registered, handle_event, received, to_record, registered_arrives,
}

-- The message with an id has the content that a test asks for.
abbrev pub has_content : ℕ → (Message → Bool) → Message → Bool
has_content i test m = not (m.id == i) || test m

module _ (i : ℕ) (test : Message → Bool) where
  pub appended_content :
      (before : List Row) (row : Row)
      → any (λ r. r.id == i) before ≡ false
      → test row.message ≡ true
      → all (λ r. has_content i test r.message) (before ++ row ∷ []) ≡ true
  appended_content [] row h k = ground arith
  appended_content (r ∷ before) row h k = ground (arith, appended_content before row)

  lock_content :
      (now : ℕ) (chosen : List ℕ) (rows : List Row)
      → all (λ r. has_content i test r.message) rows ≡ true
      → all (λ r. has_content i test r.message) (lock now chosen rows) ≡ true
  unfolding lock
  lock_content now chosen [] h = refl
  lock_content now chosen (r ∷ rows) h = ground (arith, lock_content now chosen rows)

  pub claimed_content :
      (e : Engine) (lawful : IsEngine e) (now : ℕ) (chosen : List ℕ) (rows : List Row)
      → all (λ r. has_content i test r.message) rows ≡ true
      → all (has_content i test) (claimed e lawful chosen now rows) ≡ true
  claimed_content e lawful now chosen rows h =
      let kept = select (λ (r : Row). contains r.id chosen) (lock now chosen rows) in
      all-map (has_content i test) (λ (r : Row). r.message) (e.returning kept)
      ∙ sym (all-Perm (λ r. has_content i test r.message) (lawful.returning_perm kept))
      ∙ all-select (λ r. has_content i test r.message) (λ r. has_content i test r.message)
          (λ r. contains r.id chosen) (lock now chosen rows) (λ r h k. h)
          (lock_content now chosen rows h)

pub appended_has_row :
    (test : Row → Bool) (before : List Row) (row : Row)
    → test row ≡ true
    → has_row test (before ++ row ∷ []) row.id ≡ true
appended_has_row test [] row h = ground (arith, (==_iff row.id row.id).1 refl)
appended_has_row test (r ∷ before) row h =
    or_true (r.id == row.id && test r) (appended_has_row test before row h)

-- A message that a command announced is due from the time of the database on.
pub announced_claimable :
    (call : Call) (event_type : Text) (aggregate now max_attempts : ℕ) (before after : List Row)
    (a : Announces call event_type aggregate before after)
    → call.database_now ≤ now
    → 0 < max_attempts
    → (claimable now reclaim_after max_attempts a.row && not (contains a.row.id [])) ≡ true
unfolding claimable
announced_claimable call event_type aggregate now max_attempts before after a late some_allowed =
    ground (arith, a.pending, a.untried, a.unlocked, a.due)

pub announced_content :
    (call : Call) (aggregate : ℕ) (before after : List Row)
    (a : Announces call (codes "CustomerRegistered") aggregate before after)
    → (text_eq a.row.event_type (codes "CustomerRegistered") && a.row.aggregate == aggregate) ≡ true
unfolding text_eq
announced_content call aggregate before after a =
    ap (λ t. text_eq t (codes "CustomerRegistered") && a.row.aggregate == aggregate) a.typed
    ∙ (==_iff a.row.aggregate aggregate).1 a.about

pub poll_claims :
    (e : Engine) (lawful : IsEngine e) (p : Poller) (now : ℕ) (rows : List Row)
    (pool : Pool Message)
    → (poll e p done [] now rows pool).claimed
      ≡ claimed e lawful
          (chosen_ids e [] now p.batch_size reclaim_after p.max_attempts rows)
          now
          rows
unfolding poll claim_batch
poll_claims e lawful p now rows pool = refl

pub arrives :
    (p : Producer) (offset i : ℕ) (msg : Message) (seen : List Text) (log : List Handled)
    → msg.id ≡ i
    → msg.event_type ≡ codes "CustomerRegistered"
    → is_empty (p.uuid_text i) ≡ false
    → any (λ t. text_eq t (p.uuid_text i)) seen ≡ false
    → handle_event (seen, log) (received p offset (to_record p msg))
      ≡ ((p.uuid_text i ∷ seen, registered msg.payload ∷ log), answers (ok tt))
arrives p offset i msg seen log same typed named new =
    registered_arrives p offset msg seen log typed (ap (λ j. is_empty (p.uuid_text j)) same ∙ named)
      (ap (λ j. any (λ t. text_eq t (p.uuid_text j)) seen) same ∙ new)
    ∙ ap (λ j. ((p.uuid_text j ∷ seen, registered msg.payload ∷ log), answers (ok tt))) same
