-- ===== src/Customer/Races.antt =====
-- What two requests of internal/customer/service.go at the same time may do.
use go_blueprint.Prelude.{ℕ, ◌≡◌, refl, ap, inl, inr, false, none, [], ◌∷◌, ◌==◌}
use go_blueprint.Errors.{ok}
use go_blueprint.Customer.World.{World, Call, Host}
use go_blueprint.Customer.Repository.{find_by_id, find_by_email}
use go_blueprint.Customer.Service.{check_email, register_new, update_found, remove_found}
use go_blueprint.Customer.Service
use go_blueprint.Customer.AllOrNothing.{remove_found-AllOrNothing}
use go_blueprint.Customer.Repository
use go_blueprint.Outbox.Store
use go_blueprint.Customer.Atomicity.{Announces}
use go_blueprint.Customer.Service.{transact}
use go_blueprint.Errors.{done, is_ok}
use go_blueprint.Prelude.{any, Text, codes}

-- A Remove that is past its find, and whose calls succeed, is answered without an error and announces the removal
-- of the customer, whatever the table holds by then: also if another Remove has deleted the row.
pub late_remove-Announces :
    (host : Host) (call : Call) (w : World) (id : ℕ) (text : Text)
    → call.begin_failure ≡ none
    → call.write_fate ≡ done
    → call.outbox_fate ≡ done
    → call.commit_fate ≡ done
    → host.to_json ((codes "id", host.uuid_text id) ∷ []) ≡ ok text
    → any (λ r. r.id == call.message_id) w.database.outbox ≡ false
    → ((remove_found host call w id).1 ≡ ok tt)
      × Announces call
          (codes "CustomerRemoved")
          id
          w.database.outbox
          (remove_found host call w id).0.database.outbox
unfolding remove_found Repository.delete_tx Store.save_tx
late_remove-Announces host call w id text begun written queued committed made new =
    let answered : (remove_found host call w id).1 ≡ ok tt =
      rw
        (
          remove_found, transact, begun, Service.remove_body, Repository.delete_tx, written,
          Service.append_outbox, made, Store.save_tx, new, queued, committed,
        )
        refl in
    (
      answered,
      elim (remove_found-AllOrNothing host call w id) [
        | inl (same, failed) ↦ cc (ap is_ok answered)
        | inr change ↦ change.announced
      ],
    )
