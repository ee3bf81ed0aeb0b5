-- ===== src/Customer/Gaps.antt =====
-- Two requests that the client got wrong and that the handler answers with an internal error.
use go_blueprint.Customer.{Customer}
use go_blueprint.Customer.World.{Host, Call, World, RegisterCmd}
use go_blueprint.Customer.Service
use go_blueprint.Customer.Domain
use go_blueprint.Customer.Repository
use go_blueprint.Prelude.{
  trim_space, is_empty, ℕ, ◌≡◌, refl, ap, ◌∙◌, inl, inr, true, false, none, ltb, Bool-cases, Text,
  codes,
}
use go_blueprint.Errors.{
  customer_not_found, customer_name_required, sentinel, Error, wrap, is, done, err, ok,
}
use go_blueprint.Customer.Http.{
  replied, http_error, map_domain_error, read_request, http_register, Request, Parsers,
}

module _ (host : Host) (call : Call) (w : World) (cmd : RegisterCmd) where
  -- The error that Register ends with once New refuses.
  refused_new :
      (e : Error)
      → Repository.find_by_email call.email_failure w.database.customers cmd.email
        ≡ err (sentinel customer_not_found)
      → Domain.new host.lower call.checked_at call.stamped_at call.customer_id cmd.name cmd.email
          cmd.birth_date
        ≡ err e
      → Service.register host call w cmd ≡ (w, err (wrap (codes "customer.Service.Register") e))
  unfolding Service.register Service.register_new is
  refused_new e missing invalid = rw (missing, invalid, Service.register, Service.register_new) refl

  blank_name :
      is_empty (trim_space cmd.name) ≡ true
      → Domain.new host.lower call.checked_at call.stamped_at call.customer_id cmd.name cmd.email
          cmd.birth_date
        ≡ err (wrap (codes "customer.validateName") (sentinel customer_name_required))
  unfolding Domain.new Domain.validate_name
  blank_name blank = rw (blank, Domain.new, Domain.validate_name) refl

  valid_new :
      is_empty (trim_space cmd.name) ≡ false
      → is_empty (trim_space cmd.email) ≡ false
      → ltb call.checked_at cmd.birth_date ≡ false
      → (c : Customer) × (Domain.new host.lower call.checked_at call.stamped_at call.customer_id
            cmd.name cmd.email cmd.birth_date
          ≡ ok c)
        × (c.email ≡ Domain.normal_email host.lower cmd.email)
  unfolding Domain.new Domain.validate_name Domain.validate_email Domain.validate_birth_date
  valid_new named mailed born = (
    record {
      id = call.customer_id;
      name = trim_space cmd.name;
      email = Domain.normal_email host.lower cmd.email;
      birth_date = cmd.birth_date;
      created_at = call.stamped_at;
      updated_at = call.stamped_at;
    },
    rw
        (
          named, mailed, born, Domain.new, Domain.validate_name, Domain.validate_email,
          Domain.validate_birth_date,
        )
        refl,
    refl,
  )

  -- The transaction of a customer whose e-mail is in the table.
  taken_transaction :
      (c : Customer)
      → call.begin_failure ≡ none
      → call.write_fate ≡ done
      → Repository.has_email c.email w.database.customers ≡ true
      → (op : Text)
      → Service.transact op call w.database (Service.register_body host call c) ≡ (
        w.database,
        err (
            wrap
              (codes "customer.Service.Register: save")
              (wrap (codes "postgres.CustomerRepository.SaveTx") Repository.unique_violation)),
      )
  unfolding Service.transact Service.register_body Repository.save_tx Repository.create_customer
  taken_transaction c begun written taken op =
      elim (Bool-cases (Repository.has_id c.id w.database.customers)) [
        | inl known ↦
            rw
              (
                begun, written, known, Service.transact, Service.register_body, Repository.save_tx,
                Repository.create_customer,
              )
              refl
        | inr fresh ↦
            rw
              (
                begun, written, fresh, taken, Service.transact, Service.register_body,
                Repository.save_tx, Repository.create_customer,
              )
              refl
      ]

  fails_with_transaction :
      (c : Customer) (e : Error)
      → Domain.new host.lower call.checked_at call.stamped_at call.customer_id cmd.name cmd.email
          cmd.birth_date
        ≡ ok c
      → Service.transact
          (codes "customer.Service.Register")
          call
          w.database
          (Service.register_body host call c)
        ≡ (w.database, err e)
      → Service.register_new host call w cmd ≡ (w, err e)
  unfolding Service.register_new
  fails_with_transaction c e made ends =
      let same_tables : (Service.transact (codes "customer.Service.Register") call w.database
            (Service.register_body host call c)).0
          ≡ w.database =
        ap (λ t. t.0) ends in
      let answer : (Service.transact (codes "customer.Service.Register") call w.database
            (Service.register_body host call c)).1
          ≡ err e =
        ap (λ t. t.1) ends in
      rw (made, answer, same_tables, Service.register_new) refl

  refused_save :
      Repository.find_by_email call.email_failure w.database.customers cmd.email
        ≡ err (sentinel customer_not_found)
      → is_empty (trim_space cmd.name) ≡ false
      → is_empty (trim_space cmd.email) ≡ false
      → ltb call.checked_at cmd.birth_date ≡ false
      → call.begin_failure ≡ none
      → call.write_fate ≡ done
      → Repository.has_email (Domain.normal_email host.lower cmd.email) w.database.customers ≡ true
      → Service.register host call w cmd ≡ (
        w,
        err (
            wrap
              (codes "customer.Service.Register: save")
              (wrap (codes "postgres.CustomerRepository.SaveTx") Repository.unique_violation)),
      )
  unfolding Service.register is
  refused_save missing named mailed born begun written taken =
      let (c, made, email_is) = valid_new named mailed born in
      let taken_c : Repository.has_email c.email w.database.customers ≡ true =
        ap (λ email. Repository.has_email email w.database.customers) email_is ∙ taken in
      rw (missing, Service.register)
        (fails_with_transaction c _ made
          (taken_transaction c begun written taken_c (codes "customer.Service.Register")))

module _ (host : Host) (parsers : Parsers) (call : Call) (w : World) (req : Request)
    (date : ℕ) where
  abbrev command : RegisterCmd
  command = record { name = req.name; email = req.email; birth_date = date }

  replies :
      (e : Error)
      → parsers.validate req ≡ ok tt
      → parsers.parse_date req.birth_date ≡ ok date
      → Service.register host call w command ≡ (w, err e)
      → map_domain_error {A = Text} e ≡ http_error 500 (codes "internal error")
      → http_register host parsers call w (ok req) ≡ (w, http_error 500 (codes "internal error"))
  unfolding http_register read_request
  replies e fit dated answer mapped =
      rw (fit, dated, http_register, read_request)
        (ap
            (λ t. elim t.1 [
              | ok id ↦ (t.0, replied 201 (host.uuid_text id))
              | err f ↦ (t.0, map_domain_error f)
            ])
            answer
          ∙ ap (λ r. (w, r)) mapped)

  -- A request that passes the validator, with a name that is nothing but white space and an e-mail that is
  -- not registered, is answered 500 by Register, and changes nothing.
  pub blank_name_internal :
      parsers.validate req ≡ ok tt
      → parsers.parse_date req.birth_date ≡ ok date
      → Repository.find_by_email call.email_failure w.database.customers req.email
        ≡ err (sentinel customer_not_found)
      → is_empty (trim_space req.name) ≡ true
      → http_register host parsers call w (ok req) ≡ (w, http_error 500 (codes "internal error"))
  unfolding map_domain_error is
  blank_name_internal fit dated missing blank =
      replies _ fit dated
        (refused_new host call w command _ missing (blank_name host call w command blank)) refl

  -- A valid request whose e-mail, trimmed and in lower case, is registered, but is not in the table as
  -- it was written, is answered 500 by Register and not 409, and nothing changes; so if Begin succeeds and
  -- the INSERT is executed.
  pub taken_email_internal :
      parsers.validate req ≡ ok tt
      → parsers.parse_date req.birth_date ≡ ok date
      → Repository.find_by_email call.email_failure w.database.customers req.email
        ≡ err (sentinel customer_not_found)
      → is_empty (trim_space req.name) ≡ false
      → is_empty (trim_space req.email) ≡ false
      → ltb call.checked_at date ≡ false
      → call.begin_failure ≡ none
      → call.write_fate ≡ done
      → Repository.has_email (Domain.normal_email host.lower req.email) w.database.customers ≡ true
      → http_register host parsers call w (ok req) ≡ (w, http_error 500 (codes "internal error"))
  unfolding map_domain_error is
  taken_email_internal fit dated missing named mailed born begun written taken =
      replies _ fit dated
        (refused_save host call w command missing named mailed born begun written taken) refl
