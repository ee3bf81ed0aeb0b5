-- ===== src/Customer/Commands.antt =====
-- Sequences of commands of internal/customer/service.go.
use go_blueprint.Prelude.{Bool, ℕ, ◌≡◌, inl, inr, true, not, List, [], ◌∷◌, arith, ◌==◌, Text}
use go_blueprint.Prelude.{trim_space, is_empty-to_lower}
use go_blueprint.Customer.{Customer}
use go_blueprint.Customer.Domain
use go_blueprint.Customer.Repository.{to_row}
use go_blueprint.Customer.Atomicity.{AllOrNothing, Registers, Updates, Removes}
use go_blueprint.Customer.World.{Database, World, Call, Host, RegisterCmd, UpdateCmd}
use go_blueprint.Customer.Service
use go_blueprint.Customer.AllOrNothing.{
  register-AllOrNothing, update-AllOrNothing, remove-AllOrNothing,
}
use go_blueprint.Customer.Registry.{
  IsRegistry, is_named, append-IsRegistry, set-IsRegistry, select-IsRegistry,
}
use go_blueprint.Errors.{ok}

-- A command with what its calls meet.
pub data Command : Type 0 where
  registers : Call → RegisterCmd → Command
  updates : Call → UpdateCmd → Command
  removes : Call → ℕ → Command

module _ (host : Host) where
  unfoldable pub apply : World → Command → World
  apply w (registers call cmd) = (Service.register host call w cmd).0
  apply w (updates call cmd) = (Service.update host call w cmd).0
  apply w (removes call id) = (Service.remove host call w id).0

  unfoldable pub run : World → List Command → World
  unfolding apply
  run w [] = w
  run w (c ∷ cs) = run (apply w c) cs

module _ (fold : ℕ → ℕ) where
  new_named :
      (checked_at now id : ℕ) (name email : Text) (birth_date : ℕ) (c : Customer)
      → Domain.new fold checked_at now id name email birth_date ≡ ok c
      → is_named (to_row c) ≡ true
  unfolding Domain.new
  new_named checked_at now id name email birth_date c h =
      ground (arith, is_empty-to_lower fold (trim_space email))

  update_named :
      (checked_at now : ℕ) (found : Customer) (name email : Text) (birth_date : ℕ) (c : Customer)
      → Domain.update fold checked_at now found name email birth_date ≡ ok c
      → is_named (to_row c) ≡ true
  unfolding Domain.update
  update_named checked_at now found name email birth_date c h =
      ground (arith, is_empty-to_lower fold (trim_space email))

-- Each of the three changes keeps the table.
module _ (host : Host) (call : Call) (before after : Database) (succeeded : Bool) where
  pub Registers-IsRegistry :
      (cmd : RegisterCmd)
      → AllOrNothing before after succeeded (Registers host call cmd before after)
      → IsRegistry before.customers
      → IsRegistry after.customers
  Registers-IsRegistry cmd change v = elim change [
    | inl (same, failed) ↦ rw same v
    | inr made ↦ rw made.written (
        append-IsRegistry before.customers (to_row made.customer) v
          (new_named host.lower call.checked_at call.stamped_at call.customer_id cmd.name cmd.email
            cmd.birth_date made.customer made.made)
          made.new)
  ]

  pub Updates-IsRegistry :
      (cmd : UpdateCmd)
      → AllOrNothing before after succeeded (Updates host call cmd before after)
      → IsRegistry before.customers
      → IsRegistry after.customers
  Updates-IsRegistry cmd change v = elim change [
    | inl (same, failed) ↦ rw same v
    | inr made ↦ rw made.written (
        set-IsRegistry made.customer before.customers v
          (update_named host.lower call.checked_at call.stamped_at made.found cmd.name cmd.email
            cmd.birth_date made.customer made.made)
          made.apart)
  ]

  pub Removes-IsRegistry :
      (id : ℕ)
      → AllOrNothing before after succeeded (Removes call id before after)
      → IsRegistry before.customers
      → IsRegistry after.customers
  Removes-IsRegistry id change v = elim change [
    | inl (same, failed) ↦ rw same v
    | inr made ↦ rw made.written (select-IsRegistry (λ r. not (r.id == id)) before.customers v)
  ]

module _ (host : Host) where
  apply-IsRegistry :
      (w : World) (c : Command)
      → IsRegistry w.database.customers
      → IsRegistry (apply host w c).database.customers
  unfolding apply
  apply-IsRegistry w (registers call cmd) v =
      Registers-IsRegistry host call w.database _ _ cmd (register-AllOrNothing host call w cmd) v
  apply-IsRegistry w (updates call cmd) v =
      Updates-IsRegistry host call w.database _ _ cmd (update-AllOrNothing host call w cmd) v
  apply-IsRegistry w (removes call id) v =
      Removes-IsRegistry host call w.database _ _ id
        (elim (remove-AllOrNothing host call w id) [
          | inl same ↦ inl same
          | inr made ↦ inr made.removed
        ])
        v

  -- Whatever commands run on a table in which every customer has a name and an e-mail and no two have one
  -- id or one e-mail, and whatever fails in them: the table stays so.
  pub run-IsRegistry :
      (w : World) (cs : List Command)
      → IsRegistry w.database.customers
      → IsRegistry (run host w cs).database.customers
  unfolding run
  run-IsRegistry w [] v = v
  run-IsRegistry w (c ∷ cs) v = run-IsRegistry (apply host w c) cs (apply-IsRegistry w c v)
