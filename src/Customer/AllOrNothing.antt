-- ===== src/Customer/AllOrNothing.antt =====
-- Register, Update and Remove of internal/customer/service.go: both tables change, or neither does.
use go_blueprint.Customer.{Customer}
use go_blueprint.Customer.Domain
use go_blueprint.Customer.Repository
use go_blueprint.Customer.World.{UpdateCmd, Database, World, Call, Host, RegisterCmd}
use go_blueprint.Prelude.{Bool, ℕ, ◌≡◌, refl, sym, ◌∙◌, inl, inr, false, Bool-cases, Text, codes}
use go_blueprint.Customer.Repository.{set_rows, to_row}
use go_blueprint.Customer.Service.{
  remove_found, check_email, update_found, remove, register_new, remove_body, register, update_body,
  register_body, transact,
}
use go_blueprint.Errors.{err, Error, customer_not_found, is, Result-cases, ok, is_ok, Result}
use go_blueprint.Customer.Tables.{find_by_id_ok, find_by_id_has}
use go_blueprint.Prelude.{subst}
use go_blueprint.Customer.Atomicity.{
  append_invalidate-database, Registers, Updates, Removes, RemovesKnown, AllOrNothing,
  transact_cases, append_event-database, register_body_writes, update_body_writes,
  remove_body_writes,
}
use go_blueprint.Customer.Service.{update, remove, register}

-- From what the transaction did to what the command did, when the command follows the transaction.
follows_transaction :
    (op : Text) (call : Call) (db after : Database) (succeeded : Bool)
    (body : Database → Result Database) (Made : Database → Type 0)
    → after ≡ (transact op call db body).0
    → succeeded ≡ is_ok (transact op call db body).1
    → ((work : Database) → body db ≡ ok work → Made work)
    → AllOrNothing db after succeeded (Made after)
follows_transaction op call db after succeeded body Made same_tables same_answer make =
    elim (transact_cases op call db body) [
      | inl (unchanged, failed) ↦ inl (same_tables ∙ unchanged, same_answer ∙ failed)
      | inr (work, made, applied) ↦ inr (subst Made (sym (same_tables ∙ applied)) (make work made))
    ]

module _ (host : Host) (call : Call) where
  register_refuses :
      (w : World) (cmd : RegisterCmd) (e : Error)
      → Domain.new host.lower call.checked_at call.stamped_at call.customer_id cmd.name cmd.email
          cmd.birth_date
        ≡ err e
      → ((register_new host call w cmd).0.database ≡ w.database)
        × (is_ok (register_new host call w cmd).1 ≡ false)
  unfolding register_new
  register_refuses w cmd e invalid = rw (invalid, register_new) (refl, refl)

  update_refuses :
      (w : World) (cmd : UpdateCmd) (found : Customer) (e : Error)
      → Domain.update host.lower call.checked_at call.stamped_at found cmd.name cmd.email
          cmd.birth_date
        ≡ err e
      → ((update_found host call w cmd found).0.database ≡ w.database)
        × (is_ok (update_found host call w cmd found).1 ≡ false)
  unfolding update_found
  update_refuses w cmd found e invalid = rw (invalid, update_found) (refl, refl)

  remove_refuses :
      (w : World) (id : ℕ) (e : Error)
      → Repository.find_by_id call.find_failure w.database.customers id ≡ err e
      → ((remove host call w id).0.database ≡ w.database)
        × (is_ok (remove host call w id).1 ≡ false)
  unfolding remove
  remove_refuses w id e missing = rw (missing, remove) (refl, refl)

  register_follows :
      (w : World) (cmd : RegisterCmd) (c : Customer)
      → Domain.new host.lower call.checked_at call.stamped_at call.customer_id cmd.name cmd.email
          cmd.birth_date
        ≡ ok c
      → let t =
          transact
            (codes "customer.Service.Register")
            call
            w.database
            (register_body host call c) in
        ((register_new host call w cmd).0.database ≡ t.0)
        × (is_ok (register_new host call w cmd).1 ≡ is_ok t.1)
  unfolding register_new
  register_follows w cmd c valid =
      elim (Result-cases
        (transact (codes "customer.Service.Register") call w.database
          (register_body host call c)).1) [
            | inl (u, committed) ↦
                rw (valid, committed, register_new) (append_event-database host call _ _ _ _, refl)
            | inr (e, failed) ↦ rw (valid, failed, register_new) (refl, refl)
          ]

  pub register_new-AllOrNothing :
      (w : World) (cmd : RegisterCmd)
      → let after = (register_new host call w cmd).0.database in
        AllOrNothing w.database after
          (is_ok (register_new host call w cmd).1)
          (Registers host call cmd w.database after)
  register_new-AllOrNothing w cmd =
      elim (Result-cases (
        Domain.new host.lower call.checked_at call.stamped_at call.customer_id cmd.name cmd.email
          cmd.birth_date)) [
            | inr (e, invalid) ↦ inl (register_refuses w cmd e invalid)
            | inl (c, valid) ↦
                let (same_tables, same_answer) = register_follows w cmd c valid in
                follows_transaction (codes "customer.Service.Register") call w.database _ _
                  (register_body host call c) (Registers host call cmd w.database) same_tables
                  same_answer
                  (λ work h.
                    let (written, new, announced) =
                      register_body_writes host call c w.database work h in
                    record {
                      customer = c;
                      made = valid;
                      new = new;
                      written = written;
                      announced = announced;
                    })
          ]

  -- Register adds one customer, made by New, and one undelivered CustomerRegistered message for it; or
  -- both tables are as they were and it returns an error. So whatever fails: a query, the validation,
  -- Begin, a statement, the commit, or the answer to the commit.
  pub register-AllOrNothing :
      (w : World) (cmd : RegisterCmd)
      → let after = (register host call w cmd).0.database in
        AllOrNothing w.database after
          (is_ok (register host call w cmd).1)
          (Registers host call cmd w.database after)
  unfolding register
  register-AllOrNothing w cmd =
      elim (Result-cases
        (Repository.find_by_email call.email_failure w.database.customers cmd.email)) [
          | inl (c, found) ↦ rw (found, register) (inl (refl, refl))
          | inr (e, missing) ↦ elim (Bool-cases (is e customer_not_found)) [
            | inl free ↦ rw (missing, register, free) (register_new-AllOrNothing w cmd)
            | inr failed ↦ rw (missing, register, failed) (inl (refl, refl))
          ]
        ]

  update_follows :
      (w : World) (cmd : UpdateCmd) (found c : Customer)
      → Domain.update host.lower call.checked_at call.stamped_at found cmd.name cmd.email
          cmd.birth_date
        ≡ ok c
      → let t =
          transact (codes "customer.Service.Update") call w.database (update_body host call c) in
        ((update_found host call w cmd found).0.database ≡ t.0)
        × (is_ok (update_found host call w cmd found).1 ≡ is_ok t.1)
  unfolding update_found
  update_follows w cmd found c valid =
      elim (Result-cases
        (transact (codes "customer.Service.Update") call w.database (update_body host call c)).1) [
          | inl (u, committed) ↦
              rw (valid, committed, update_found)
                (append_invalidate-database host call _ _ _ _ _, refl)
          | inr (e, failed) ↦ rw (valid, failed, update_found) (refl, refl)
        ]

  pub update_found-AllOrNothing :
      (w : World) (cmd : UpdateCmd) (found : Customer)
      → found.id ≡ cmd.id
      → let after = (update_found host call w cmd found).0.database in
        AllOrNothing w.database after
          (is_ok (update_found host call w cmd found).1)
          (Updates host call cmd w.database after)
  update_found-AllOrNothing w cmd found same_id =
      elim (Result-cases (
        Domain.update host.lower call.checked_at call.stamped_at found cmd.name cmd.email
          cmd.birth_date)) [
            | inr (e, invalid) ↦ inl (update_refuses w cmd found e invalid)
            | inl (c, valid) ↦
                let (same_tables, same_answer) = update_follows w cmd found c valid in
                follows_transaction (codes "customer.Service.Update") call w.database _ _
                  (update_body host call c) (Updates host call cmd w.database) same_tables
                  same_answer
                  (λ work h.
                    let (written, apart, announced) =
                      update_body_writes host call c w.database work h in
                    record {
                      found = found;
                      customer = c;
                      same_id = same_id;
                      made = valid;
                      apart = apart;
                      written = written;
                      announced = announced;
                    })
          ]

  -- Update changes the row of the named customer as Customer.Update does, and adds one undelivered
  -- CustomerUpdated message; or both tables are as they were and it returns an error.
  pub update-AllOrNothing :
      (w : World) (cmd : UpdateCmd)
      → let after = (update host call w cmd).0.database in
        AllOrNothing w.database after
          (is_ok (update host call w cmd).1)
          (Updates host call cmd w.database after)
  unfolding update
  update-AllOrNothing w cmd =
      elim (Result-cases (Repository.find_by_id call.find_failure w.database.customers cmd.id)) [
        | inr (e, missing) ↦ rw (missing, update) (inl (refl, refl))
        | inl (found, there) ↦ elim (Result-cases (check_email host call w cmd found)) [
          | inr (e, taken) ↦ rw (there, taken, update) (inl (refl, refl))
          | inl (u, free) ↦
              rw (there, free, update)
                (update_found-AllOrNothing w cmd found
                  (find_by_id_ok call.find_failure w.database.customers cmd.id there))
        ]
      ]

  remove_follows :
      (w : World) (id : ℕ)
      → let t =
          transact (codes "customer.Service.Remove") call w.database (remove_body host call id) in
        ((remove_found host call w id).0.database ≡ t.0)
        × (is_ok (remove_found host call w id).1 ≡ is_ok t.1)
  unfolding remove_found
  remove_follows w id =
      elim (Result-cases
        (transact (codes "customer.Service.Remove") call w.database (remove_body host call id)).1) [
          | inl (u, committed) ↦
              rw (committed, remove_found) (append_invalidate-database host call _ _ _ _ _, refl)
          | inr (e, failed) ↦ rw (failed, remove_found) (refl, refl)
        ]

  pub remove_found-AllOrNothing :
      (w : World) (id : ℕ)
      → let after = (remove_found host call w id).0.database in
        AllOrNothing w.database after
          (is_ok (remove_found host call w id).1)
          (Removes call id w.database after)
  remove_found-AllOrNothing w id =
      let (same_tables, same_answer) = remove_follows w id in
      follows_transaction (codes "customer.Service.Remove") call w.database _ _
        (remove_body host call id) (Removes call id w.database) same_tables same_answer
        (remove_body_writes host call id w.database)

  -- Remove deletes the row of the named customer, which was there, and adds one undelivered CustomerRemoved
  -- message; or both tables are as they were and it returns an error.
  pub remove-AllOrNothing :
      (w : World) (id : ℕ)
      → let after = (remove host call w id).0.database in
        AllOrNothing w.database after
          (is_ok (remove host call w id).1)
          (RemovesKnown call id w.database after)
  unfolding remove
  remove-AllOrNothing w id =
      elim (Result-cases (Repository.find_by_id call.find_failure w.database.customers id)) [
        | inr (e, missing) ↦ inl (remove_refuses w id e missing)
        | inl (c, there) ↦
            let known = find_by_id_has call.find_failure w.database.customers id there in
            rw (there, remove)
              (elim (remove_found-AllOrNothing w id) [
                | inl same ↦ inl same
                | inr made ↦ inr (record { known = known; removed = made })
              ])
      ]
