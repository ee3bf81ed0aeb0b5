-- ===== src/Outbox/Tests.antt =====
-- Concrete runs of the store, the poller and the delivery.
use mathlib.Core.List.Perm
use go_blueprint.Outbox.{Message, Row}
use go_blueprint.Outbox.Store.{
  mark_processed, Engine, IsEngine, fresh_row, claim_batch, claimable, update_row, chosen_ids, lock,
  message_ids, mark_failed,
}
use go_blueprint.Outbox.Claims.{claim_disjoint}
use go_blueprint.Outbox.Backoff.{backoff, backoff-eq-min, max_backoff}
use go_blueprint.Outbox.Poller.{Poller, poll, deliver}
use go_blueprint.Outbox.Backpressure.{Gains, left_not_reclaimed}
use go_blueprint.Outbox.History.{Op, replay, apply, retired_never_claimed}
use go_blueprint.Outbox.Delivery.{failed_waits}
use go_blueprint.Worker.{new, submit}
use go_blueprint.Prelude.Every.{all}
use go_blueprint.Prelude.{
  ℕ, ◌*◌, ◌^◌, min, ◌≡◌, refl, true, not, none, some, List, [], ◌∷◌, ◌++◌, arith, ◌==◌, contains,
  Text, codes,
}
use go_blueprint.Errors.{refused, done, Error}

abbrev pub order : Message
order = record {
  id = 1;
  aggregate = 9;
  event_type = codes "CustomerRegistered";
  payload = codes "{}";
  created_at = 5;
  processed_at = none;
  attempts = 0;
  last_error = none;
}

abbrev pub rows : List Row
rows = fresh_row 10 order ∷ []

abbrev second : Message
second = record order { id = 2 }

abbrev both : List Row
both = fresh_row 10 order ∷ fresh_row 11 second ∷ []

abbrev pub engine : Engine
engine = record { by_created = λ rs. rs; returning = λ rs. rs }

pub engine-IsEngine : IsEngine engine
engine-IsEngine = record {
  by_created_perm = λ rs. Perm.refl rs;
  returning_perm = λ rs. Perm.refl rs;
}

abbrev pub poller : Poller
poller = record { interval = 5_000_000_000; batch_size = 1; max_attempts = 5 }

abbrev broker_down : Error
broker_down = Error.opaque (codes "broker down")

claim_disjoint_example :
    all (λ (m : Message). not (contains m.id (message_ids (order ∷ [])))) (second ∷ []) ≡ true
unfolding claim_batch chosen_ids claimable lock
claim_disjoint_example =
    claim_disjoint engine engine-IsEngine done done [] [] 20 30 1 50 100 5 both (order ∷ [])
      (second ∷ []) (omega arith) refl refl

backoff-eq-min_example : backoff 5 3 ≡ min (5 * 2 ^ 3) max_backoff
backoff-eq-min_example = backoff-eq-min 5 3

left_not_reclaimed_example :
    ((sent : List Message) × (sent ++ (poll engine poller done [] 20 both (new 1 0)).left
        ≡ (poll engine poller done [] 20 both (new 1 0)).claimed)
      × Gains (new 1 0) (poll engine poller done [] 20 both (new 1 0)).pool sent)
    × (all
          (λ (m : Message).
            not (contains m.id (message_ids (poll engine poller done [] 20 both (new 1 0)).left)))
          (second ∷ [])
        ≡ true)
unfolding poll claim_batch chosen_ids claimable lock replay apply mark_processed update_row submit
    new
left_not_reclaimed_example =
    left_not_reclaimed engine engine-IsEngine poller done done [] [] 20 30 50 both (new 1 0)
      (Op.claims (refused broker_down) [] 25 50 100 5 ∷ Op.processes done 26 7 ∷ []) (second ∷ [])
      (omega arith) refl refl refl

abbrev retired_rows : List Row
retired_rows =
    record (fresh_row 10 order) { message = record order { processed_at = some 15 } }
    ∷ fresh_row 11 second
    ∷ []

retired_never_claimed_example : all (λ (m : Message). not (m.id == 1)) (second ∷ []) ≡ true
unfolding replay apply mark_failed update_row claim_batch chosen_ids claimable lock
retired_never_claimed_example =
    retired_never_claimed engine engine-IsEngine 1 retired_rows
      (Op.fails done 18 1 (codes "late") 1 ∷ []) done [] 20 50 100 5 (second ∷ []) refl refl

abbrev uuid_text : ℕ → Text
uuid_text id = id ∷ []

failed_waits_example :
    all
      (λ (m : Message). not (m.id == 1))
      (record second { attempts = 1; last_error = some (codes "late") } ∷ [])
    ≡ true
unfolding deliver mark_failed update_row claim_batch chosen_ids claimable lock backoff replay apply
failed_waits_example =
    failed_waits uuid_text engine engine-IsEngine poller 20 broker_down done both order
      (Op.claims done [] 25 50 100 5 ∷ Op.fails done 26 2 (codes "late") 0 ∷ []) done [] 30 50 100
      (record second { attempts = 1; last_error = some (codes "late") } ∷ []) refl (omega arith)
      refl (omega arith) refl
