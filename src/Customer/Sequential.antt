-- ===== src/Customer/Sequential.antt =====
-- A request of internal/customer/service.go that runs alone does in steps what the methods of the service do at once.
use go_blueprint.Prelude.{◌≡◌, refl, sym, ap, ◌∙◌, inl, inr, [], ◌∷◌, Bool-cases}
use go_blueprint.Errors.{Result-cases, is, customer_not_found}
use go_blueprint.Customer.World.{World, Host}
use go_blueprint.Customer.Repository.{find_by_id, find_by_email}
use go_blueprint.Customer.Service.{check_email, register_new, update_found, remove_found}
use go_blueprint.Customer.Service
use go_blueprint.Customer.Commands.{Command, apply, registers, updates, removes}
use go_blueprint.Worker.{pick}
use go_blueprint.Customer.Service.{transact}
use go_blueprint.Customer.Interleaving.{
  Server, arrive, arrives, checking, play, proceed, proceeds, registering, removing, step, waits,
}

module _ (host : Host) where
  abbrev idle : World → Server
  idle w = record { world = w; waiting = [] }

  -- From where a request stands after it arrived, two steps more.
  goes_on : Server → World
  unfolding step
  goes_on s = (step host (step host s (proceeds 0)) (proceeds 0)).world

  after_arrival :
      (w w' : World) (c : Command) (s : Server)
      → arrive host (idle w) c ≡ s
      → goes_on s ≡ w'
      → apply host w c ≡ w'
      → (play host (idle w) (arrives c ∷ proceeds 0 ∷ proceeds 0 ∷ [])).world ≡ apply host w c
  unfolding play step goes_on
  after_arrival w w' c s arrived went applied = ap goes_on arrived ∙ went ∙ sym applied

  -- A request that runs alone does what the method of the service does.
  alone :
      (w : World) (c : Command)
      → (play host (idle w) (arrives c ∷ proceeds 0 ∷ proceeds 0 ∷ [])).world ≡ apply host w c
  unfolding goes_on pick proceed apply Service.register Service.update Service.remove remove_found
  alone w (registers call cmd) =
      elim (Result-cases (find_by_email call.email_failure w.database.customers cmd.email)) [
        | inl (c, taken) ↦
            after_arrival w w _ (idle w) (rw (taken, arrive) refl) refl
              (rw (apply, taken, Service.register) refl)
        | inr (e, missing) ↦ elim (Bool-cases (is e customer_not_found)) [
          | inl free ↦
              after_arrival w _ _ (waits (idle w) (registering call cmd))
                (rw (missing, free, arrive) refl) refl
                (rw (apply, missing, free, Service.register) refl)
          | inr failed ↦
              after_arrival w w _ (idle w) (rw (missing, failed, arrive) refl) refl
                (rw (apply, missing, failed, Service.register) refl)
        ]
      ]
  alone w (updates call cmd) =
      elim (Result-cases (find_by_id call.find_failure w.database.customers cmd.id)) [
        | inr (e, missing) ↦
            after_arrival w w _ (idle w) (rw (missing, arrive) refl) refl
              (rw (apply, missing, Service.update) refl)
        | inl (found, there) ↦ elim (Result-cases (check_email host call w cmd found)) [
          | inr (e, taken) ↦
              after_arrival w w _ (waits (idle w) (checking call cmd found))
                (rw (there, arrive) refl) (rw (goes_on, taken, proceed) refl)
                (rw (apply, there, taken, Service.update) refl)
          | inl (u, free) ↦
              after_arrival w (update_found host call w cmd found).0 _
                (waits (idle w) (checking call cmd found)) (rw (there, arrive) refl)
                (rw (goes_on, free, proceed) refl) (rw (apply, there, free, Service.update) refl)
        ]
      ]
  alone w (removes call id) =
      elim (Result-cases (find_by_id call.find_failure w.database.customers id)) [
        | inr (e, missing) ↦
            after_arrival w w _ (idle w) (rw (missing, arrive) refl) refl
              (rw (apply, missing, Service.remove) refl)
        | inl (found, there) ↦
            after_arrival w _ _ (waits (idle w) (removing call id)) (rw (there, arrive) refl) refl
              (rw (apply, there, Service.remove) refl)
      ]
