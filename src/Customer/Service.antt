-- ===== src/Customer/Service.antt =====
-- internal/customer/service.go: the command side. A transaction works on a copy of the two tables, which
-- replaces them when the commit takes effect.
use go_blueprint.Customer.{Customer}
use go_blueprint.Customer.Domain
use go_blueprint.Customer.Repository.{CustomerRow}
use go_blueprint.Customer.Repository
use go_blueprint.Outbox.{Message}
use go_blueprint.Outbox.Store
use go_blueprint.Cache.{delete}
use go_blueprint.Prelude.{
  text_eq, ℕ, ◌+◌, none, some, List, [], ◌∷◌, ◌++◌, ◌==◌, if◌then◌else◌, any, Text, codes,
}
use go_blueprint.Errors.{
  customer_not_found, is, customer_email_exists, reply, ◌>>◌, sentinel, settle, ◌>>=◌, wrap, ok,
  within, Result, err,
}
use go_blueprint.Customer.World.{RegisterCmd, UpdateCmd, Database, World, Host, Call}

abbrev pub cache_key_prefix : Text
cache_key_prefix = codes "customer:"

abbrev pub cache_key_list : Text
cache_key_list = codes "customer:list"

-- Begin, the statements, and Commit. A body that fails leaves through the deferred Rollback, and so
-- does a commit that had no effect.
unfoldable pub transact :
    Text → Call → Database → (Database → Result Database) → Database × Result (Unit {0})
transact op call db body = elim call.begin_failure [
  | some e ↦ (db, err (wrap (op ++ codes ": begin tx") e))
  | none ↦ elim (body db) [
    | err e ↦ (db, err e)
    | ok work ↦
        (settle call.commit_fate db work, within (op ++ codes ": commit") (reply call.commit_fate))
  ]
]

module _ (host : Host) where
  -- The message that appendOutbox writes.
  abbrev pub outbox_message : Call → Text → ℕ → Text → Message
  outbox_message call event_type aggregate payload = record {
    id = call.message_id;
    aggregate = aggregate;
    event_type = event_type;
    payload = payload;
    created_at = call.queued_at;
    processed_at = none;
    attempts = 0;
    last_error = none;
  }

  -- Service.appendOutbox, inside the transaction.
  unfoldable pub append_outbox : Call → Database → Text → ℕ → List (Text × Text) → Result Database
  append_outbox call db event_type aggregate payload = do
    text ← within (codes "marshal payload") (host.to_json payload)
    let message = outbox_message call event_type aggregate text
    let saved = Store.save_tx call.outbox_fate call.database_now db.outbox message
    saved.1
    ok (record db { outbox = saved.0 })

  -- Service.appendEvent: a failure is logged and nothing else. `id` is the primary key of the log.
  unfoldable pub append_event : Call → World → Text → ℕ → List (Text × Text) → World
  append_event call w event_type aggregate payload = elim (host.to_json payload) [
    | err e ↦ w
    | ok text ↦ if any (λ e. e.id == call.event_id) w.events then w else record w {
      events = settle call.log_fate w.events (
          record {
            id = call.event_id;
            aggregate = aggregate;
            event_type = event_type;
            payload = text;
            occurred_at = call.logged_at;
          }
          ∷ w.events);
    }
  ]

  -- Service.invalidate: a deletion that fails is logged, and the next one is tried.
  unfoldable pub invalidate : Call → World → ℕ → World
  invalidate call w id =
      let one = (delete call.evict_one (cache_key_prefix ++ host.uuid_text id) w.cache).0 in
      record w { cache = (delete call.evict_list cache_key_list one).0 }

  -- The body of Register's transaction.
  unfoldable pub register_body : Call → Customer → Database → Result Database
  unfolding append_outbox
  register_body call c db = do
    rows ←
        within (codes "customer.Service.Register: save")
          (Repository.save_tx call.write_fate db.customers c)
    within (codes "customer.Service.Register: outbox") (
        append_outbox call (record db { customers = rows }) (codes "CustomerRegistered") c.id
          ((codes "id", host.uuid_text c.id) ∷ (codes "email", c.email) ∷ []))

  unfoldable pub register_new : Call → World → RegisterCmd → World × Result ℕ
  unfolding register_body transact append_event
  register_new call w cmd =
      elim (within (codes "customer.Service.Register") (
        Domain.new host.lower call.checked_at call.stamped_at call.customer_id cmd.name cmd.email
          cmd.birth_date)) [
            | err e ↦ (w, err e)
            | ok c ↦
                let (db, committed) =
                  transact (codes "customer.Service.Register") call w.database
                    (register_body call c) in
                elim committed [
                  | err e ↦ (record w { database = db }, err e)
                  | ok _ ↦ (
                    append_event call
                        (record w { database = db; registrations = w.registrations + 1 })
                        (codes "CustomerRegistered") c.id
                        ((codes "name", c.name) ∷ (codes "email", c.email) ∷ []),
                    ok c.id,
                  )
                ]
          ]

  -- Service.Register.
  unfoldable pub register : Call → World → RegisterCmd → World × Result ℕ
  unfolding register_new
  register call w cmd =
      elim (Repository.find_by_email call.email_failure w.database.customers cmd.email) [
        | ok c ↦ (w, err (sentinel customer_email_exists))
        | err e ↦
            if is e customer_not_found
            then register_new call w cmd
            else (w, err (wrap (codes "customer.Service.Register: check email") e))
      ]

  -- The body of Update's transaction.
  unfoldable pub update_body : Call → Customer → Database → Result Database
  unfolding append_outbox
  update_body call c db = do
    rows ←
        within (codes "customer.Service.Update: save")
          (Repository.update_tx call.write_fate db.customers c)
    within (codes "customer.Service.Update: outbox") (
        append_outbox call (record db { customers = rows }) (codes "CustomerUpdated") c.id
          ((codes "id", host.uuid_text c.id) ∷ (codes "email", c.email) ∷ []))

  -- Update, from the change of the aggregate on.
  unfoldable pub update_found : Call → World → UpdateCmd → Customer → World × Result (Unit {0})
  unfolding update_body transact append_event invalidate
  update_found call w cmd found =
      elim (within (codes "customer.Service.Update") (
        Domain.update host.lower call.checked_at call.stamped_at found cmd.name cmd.email
          cmd.birth_date)) [
            | err e ↦ (w, err e)
            | ok c ↦
                let (db, committed) =
                  transact (codes "customer.Service.Update") call w.database (update_body call c) in
                elim committed [
                  | err e ↦ (record w { database = db }, err e)
                  | ok _ ↦ (
                    append_event call (invalidate call (record w { database = db }) c.id)
                        (codes "CustomerUpdated") c.id
                        ((codes "name", c.name) ∷ (codes "email", c.email) ∷ []),
                    ok tt,
                  )
                ]
          ]

  -- The check of a new e-mail: `if c.Email != cmd.Email`.
  unfoldable pub check_email : Call → World → UpdateCmd → Customer → Result (Unit {0})
  check_email call w cmd found =
      if text_eq found.email cmd.email
      then ok tt
      else elim (Repository.find_by_email call.email_failure w.database.customers cmd.email) [
        | ok c ↦ err (sentinel customer_email_exists)
        | err e ↦
            if is e customer_not_found
            then ok tt
            else err (wrap (codes "customer.Service.Update: check email") e)
      ]

  -- Service.Update.
  unfoldable pub update : Call → World → UpdateCmd → World × Result (Unit {0})
  unfolding update_found check_email
  update call w cmd =
      elim (within (codes "customer.Service.Update: find")
        (Repository.find_by_id call.find_failure w.database.customers cmd.id)) [
          | err e ↦ (w, err e)
          | ok found ↦ elim (check_email call w cmd found) [
            | err e ↦ (w, err e)
            | ok _ ↦ update_found call w cmd found
          ]
        ]

  -- The body of Remove's transaction.
  unfoldable pub remove_body : Call → ℕ → Database → Result Database
  unfolding append_outbox
  remove_body call id db = do
    rows ←
        within (codes "customer.Service.Remove: delete")
          (Repository.delete_tx call.write_fate db.customers id)
    within (codes "customer.Service.Remove: outbox") (
        append_outbox call (record db { customers = rows }) (codes "CustomerRemoved") id
          ((codes "id", host.uuid_text id) ∷ []))

  -- Remove, from the transaction on.
  unfoldable pub remove_found : Call → World → ℕ → World × Result (Unit {0})
  unfolding remove_body transact append_event invalidate
  remove_found call w id =
      let (db, committed) =
        transact (codes "customer.Service.Remove") call w.database (remove_body call id) in
      elim committed [
        | err e ↦ (record w { database = db }, err e)
        | ok _ ↦ (
          append_event call
              (invalidate call (record w { database = db; removals = w.removals + 1 }) id)
              (codes "CustomerRemoved") id ((codes "id", host.uuid_text id) ∷ []),
          ok tt,
        )
      ]

  -- Service.Remove.
  unfoldable pub remove : Call → World → ℕ → World × Result (Unit {0})
  unfolding remove_found
  remove call w id =
      elim (within (codes "customer.Service.Remove: find")
        (Repository.find_by_id call.find_failure w.database.customers id)) [
          | err e ↦ (w, err e)
          | ok found ↦ remove_found call w id
        ]
