-- ===== src/Customer/Atomicity.antt =====
-- The tables change together or not at all: each command of the service refines
-- one change of the pair of tables.
use go_blueprint.Customer.{Customer}
use go_blueprint.Outbox.Store
use go_blueprint.Customer.Domain
use go_blueprint.Customer.Repository
use go_blueprint.Customer.World.{UpdateCmd, Database, World, Call, Host, RegisterCmd}
use go_blueprint.Prelude.{
  true, ◌||◌, Bool, select, ℕ, ◌≡◌, refl, sym, ap, ◌∙◌, ◌⊎◌, inl, inr, false, not, none, List, [],
  ◌∷◌, ◌++◌, ◌==◌, Bool-cases, Option-cases, any, Text, codes,
}
use go_blueprint.Customer.Repository.{has_email, has_id, email_of_other, set_rows, to_row}
use go_blueprint.Outbox.{Message, Row}
use go_blueprint.Customer.Service.{
  invalidate, remove_body, append_event, update_body, register_body, outbox_message, append_outbox,
  transact,
}
use go_blueprint.Errors.{
  done, lost, refused, reply, settle, Fate, within, Result-cases, ok, is_ok, Result,
}
use go_blueprint.Outbox.Store.{fresh_row}
use go_blueprint.Customer.Tables.{save_tx_ok, update_tx_ok, delete_tx_ok, within_ok, bind_ok}

-- A new message of the outbox for an aggregate, not delivered yet and due at once.
pub record Announces (call : Call) (event_type : Text) (aggregate : ℕ) (before after : List Row)
    : Type 0 where
  pub row : Row
  pub appended : after ≡ before ++ row ∷ []
  pub new : any (λ r. r.id == call.message_id) before ≡ false
  pub identified : row.id ≡ call.message_id
  pub typed : row.event_type ≡ event_type
  pub about : row.aggregate ≡ aggregate
  pub pending : row.processed_at ≡ none
  pub untried : row.attempts ≡ 0
  pub unlocked : row.locked_at ≡ none
  pub due : row.next_attempt_at ≡ call.database_now

-- What Register may do to the two tables: one customer, made by New, and its message.
pub record Registers (host : Host) (call : Call) (cmd : RegisterCmd) (before after : Database)
    : Type 0 where
  pub customer : Customer
  pub made :
      Domain.new host.lower call.checked_at call.stamped_at call.customer_id cmd.name cmd.email
        cmd.birth_date
      ≡ ok customer
  pub new :
      (has_id customer.id before.customers || has_email customer.email before.customers) ≡ false
  pub written : after.customers ≡ before.customers ++ to_row customer ∷ []
  pub announced : Announces call (codes "CustomerRegistered") customer.id before.outbox after.outbox

-- What Update may do: the row of the found customer, changed by Customer.Update, and its message.
pub record Updates (host : Host) (call : Call) (cmd : UpdateCmd) (before after : Database)
    : Type 0 where
  pub found : Customer
  pub customer : Customer
  pub same_id : found.id ≡ cmd.id
  pub made :
      Domain.update host.lower call.checked_at call.stamped_at found cmd.name cmd.email
        cmd.birth_date
      ≡ ok customer
  pub apart : email_of_other customer.id customer.email before.customers ≡ false
  pub written : after.customers ≡ set_rows customer before.customers
  pub announced : Announces call (codes "CustomerUpdated") customer.id before.outbox after.outbox

-- What the transaction of Remove may do: no row has the id any more, and its message is there.
pub record Removes (call : Call) (id : ℕ) (before after : Database) : Type 0 where
  pub written : after.customers ≡ select (λ r. not (r.id == id)) before.customers
  pub announced : Announces call (codes "CustomerRemoved") id before.outbox after.outbox

-- What Remove may do: the customer had a row, which is gone, and its message is there.
pub record RemovesKnown (call : Call) (id : ℕ) (before after : Database) : Type 0 where
  pub known : has_id id before.customers ≡ true
  pub removed : Removes call id before after

-- Both tables are as they were and the command failed, or the whole change was made.
abbrev pub AllOrNothing : (before after : Database) → Bool → Type 0 → Type 0
AllOrNothing before after succeeded Made = ((after ≡ before) × (succeeded ≡ false)) ⊎ Made

commit_cases :
    (fate : Fate) (op : Text) (db work : Database)
    → ((settle fate db work ≡ db) × (is_ok (within op (reply fate)) ≡ false))
      ⊎ (settle fate db work ≡ work)
commit_cases done op db work = inr refl
commit_cases (refused e) op db work = inl (refl, refl)
commit_cases (lost e) op db work = inr refl

-- Whatever the fates of its statements, a transaction leaves the tables as they were or as its body
-- makes them; and it reports success only in the second case.
pub transact_cases :
    (op : Text) (call : Call) (db : Database) (body : Database → Result Database)
    → (((transact op call db body).0 ≡ db) × (is_ok (transact op call db body).1 ≡ false))
      ⊎ ((work : Database) × (body db ≡ ok work) × ((transact op call db body).0 ≡ work))
unfolding transact
transact_cases op call db body = elim (Option-cases call.begin_failure) [
  | inl begun ↦ elim (Result-cases (body db)) [
    | inl (work, made) ↦ elim (commit_cases call.commit_fate (op ++ codes ": commit") db work) [
      | inl aborted ↦ inl (rw (begun, made, transact) aborted)
      | inr applied ↦ inr (work, made, rw (begun, made, transact) applied)
    ]
    | inr (e, failed) ↦ inl (rw (begun, failed, transact) (refl, refl))
  ]
  | inr (e, failed) ↦ inl (rw (failed, transact) (refl, refl))
]

saved_row :
    (fate : Fate) (now : ℕ) (rows : List Row) (m : Message)
    → (Store.save_tx fate now rows m).1 ≡ ok tt
    → (Store.save_tx fate now rows m).0 ≡ rows ++ fresh_row now m ∷ []
unfolding Store.save_tx
saved_row fate now rows m h = elim (Bool-cases (any (λ r. r.id == m.id) rows)) [
  | inl dup ↦ cc (rw (dup, Store.save_tx) at h)
  | inr new ↦ rw (new, Store.save_tx) (settled fate (rw (new, Store.save_tx) at h))
]
  where
    settled :
        (fate : Fate)
        → within (codes "outbox.SaveTx") (reply fate) ≡ ok tt
        → settle fate rows (rows ++ fresh_row now m ∷ []) ≡ rows ++ fresh_row now m ∷ []
    settled done h = refl
    settled (refused e) h = cc
    settled (lost e) h = cc

saved_new :
    (fate : Fate) (now : ℕ) (rows : List Row) (m : Message)
    → (Store.save_tx fate now rows m).1 ≡ ok tt
    → any (λ r. r.id == m.id) rows ≡ false
unfolding Store.save_tx
saved_new fate now rows m h = elim (Bool-cases (any (λ r. r.id == m.id) rows)) [
  | inl dup ↦ cc (rw (dup, Store.save_tx) at h)
  | inr new ↦ new
]

module _ (host : Host) (call : Call) where
  -- What appendOutbox adds, if it succeeds.
  appended_outbox :
      (db work : Database) (event_type : Text) (aggregate : ℕ) (payload : List (Text × Text))
      → append_outbox host call db event_type aggregate payload ≡ ok work
      → (work.customers ≡ db.customers) × Announces call event_type aggregate db.outbox work.outbox
  unfolding append_outbox
  appended_outbox db work event_type aggregate payload h =
      let (text, _, h') = bind_ok (within (codes "marshal payload") (host.to_json payload)) _ h in
      let message = outbox_message host call event_type aggregate text in
      let (u, stored, h'') =
        bind_ok (Store.save_tx call.outbox_fate call.database_now db.outbox message).1 _ h' in
      let same : record db {
        outbox = (Store.save_tx call.outbox_fate call.database_now db.outbox message).0;
      }
          ≡ work =
        cc h'' in
      (
        ap (λ w. w.customers) (sym same),
        record {
          row = fresh_row call.database_now message;
          appended =
              ap (λ w. w.outbox) (sym same)
              ∙ saved_row call.outbox_fate call.database_now db.outbox message stored;
          new = saved_new call.outbox_fate call.database_now db.outbox message stored;
          identified = refl;
          typed = refl;
          about = refl;
          pending = refl;
          untried = refl;
          unlocked = refl;
          due = refl;
        },
      )

  -- Each body writes its rows and its message, if it succeeds.
  pub register_body_writes :
      (c : Customer) (db work : Database)
      → register_body host call c db ≡ ok work
      → (work.customers ≡ db.customers ++ to_row c ∷ [])
        × ((has_id c.id db.customers || has_email c.email db.customers) ≡ false)
        × Announces call (codes "CustomerRegistered") c.id db.outbox work.outbox
  unfolding register_body
  register_body_writes c db work h =
      let (rows, written, h') =
        bind_ok (within _ (Repository.save_tx call.write_fate db.customers c)) _ h in
      let (same, announced) = appended_outbox _ work _ _ _ (within_ok _ _ h') in
      let (added, new) = save_tx_ok call.write_fate db.customers c (within_ok _ _ written) in
      (same ∙ added, new, announced)

  pub update_body_writes :
      (c : Customer) (db work : Database)
      → update_body host call c db ≡ ok work
      → (work.customers ≡ set_rows c db.customers)
        × (email_of_other c.id c.email db.customers ≡ false)
        × Announces call (codes "CustomerUpdated") c.id db.outbox work.outbox
  unfolding update_body
  update_body_writes c db work h =
      let (rows, written, h') =
        bind_ok (within _ (Repository.update_tx call.write_fate db.customers c)) _ h in
      let (same, announced) = appended_outbox _ work _ _ _ (within_ok _ _ h') in
      let (changed, known, apart) =
        update_tx_ok call.write_fate db.customers c (within_ok _ _ written) in
      (same ∙ changed, apart, announced)

  pub remove_body_writes :
      (id : ℕ) (db work : Database)
      → remove_body host call id db ≡ ok work
      → Removes call id db work
  unfolding remove_body
  remove_body_writes id db work h =
      let (rows, written, h') =
        bind_ok (within _ (Repository.delete_tx call.write_fate db.customers id)) _ h in
      let (same, announced) = appended_outbox _ work _ _ _ (within_ok _ _ h') in
      record {
        written = same ∙ delete_tx_ok call.write_fate db.customers id (within_ok _ _ written);
        announced = announced;
      }

  pub append_event-database :
      (w : World) (event_type : Text) (aggregate : ℕ) (payload : List (Text × Text))
      → (append_event host call w event_type aggregate payload).database ≡ w.database
  unfolding append_event
  append_event-database w event_type aggregate payload =
      elim (Result-cases (host.to_json payload)) [
        | inl (text, made) ↦ elim (Bool-cases (any (λ e. e.id == call.event_id) w.events)) [
          | inl dup ↦ rw (made, append_event, dup) refl
          | inr new ↦ rw (made, append_event, new) refl
        ]
        | inr (e, failed) ↦ rw (failed, append_event) refl
      ]

  pub append_invalidate-database :
      (w : World) (id : ℕ) (event_type : Text) (aggregate : ℕ) (payload : List (Text × Text))
      → (append_event host call (invalidate host call w id) event_type aggregate payload).database
        ≡ w.database
  unfolding invalidate
  append_invalidate-database w id event_type aggregate payload =
      append_event-database (invalidate host call w id) event_type aggregate payload
