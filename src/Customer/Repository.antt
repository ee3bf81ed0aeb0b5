-- ===== src/Customer/Repository.antt =====
-- internal/platform/database/postgres: customer_repo.go and the statements of customers.sql.go, over the
-- table `customers` of migrations/001_create_customers.sql.
use go_blueprint.Customer.{Customer}
use go_blueprint.Prelude.{
  find, text_eq, ◌/◌, select, ℕ, ◌*◌, Bool, not, ◌&&◌, ◌||◌, Option, none, some, List, [], ◌∷◌,
  ◌++◌, map, ◌==◌, if◌then◌else◌, any, Text, codes,
}
use go_blueprint.Errors.{
  customer_not_found, done, wrap, lost, sentinel, no_rows, within, err, ok, refused, Error, Result,
  Fate, is,
}

-- A column value of the driver: `none` is a value that is not valid.
pub record CustomerRow : Type 0 where
  pub id : ℕ
  pub name : Text
  pub email : Text
  pub birth_date : Option ℕ
  pub created_at : Option ℕ
  pub updated_at : Option ℕ

abbrev pub day : ℕ
day = 86_400_000_000_000

-- toPgDate and toPgTimestamptz. A DATE column keeps the day of a time.
abbrev pub to_pg_date : ℕ → Option ℕ
to_pg_date t = some (t / day * day)

abbrev pub to_pg_timestamptz : ℕ → Option ℕ
to_pg_timestamptz t = some t

-- fromPgDate and fromPgTimestamptz.
abbrev pub from_pg_date : Option ℕ → ℕ
from_pg_date none = 0
from_pg_date (some t) = t

abbrev pub from_pg_timestamptz : Option ℕ → ℕ
from_pg_timestamptz none = 0
from_pg_timestamptz (some t) = t

-- CreateCustomerParams of SaveTx.
abbrev pub to_row : Customer → CustomerRow
to_row c = record {
  id = c.id;
  name = c.name;
  email = c.email;
  birth_date = to_pg_date c.birth_date;
  created_at = to_pg_timestamptz c.created_at;
  updated_at = to_pg_timestamptz c.updated_at;
}

abbrev pub from_row : CustomerRow → Customer
from_row r = record {
  id = r.id;
  name = r.name;
  email = r.email;
  birth_date = from_pg_date r.birth_date;
  created_at = from_pg_timestamptz r.created_at;
  updated_at = from_pg_timestamptz r.updated_at;
}

abbrev pub has_id : ℕ → List CustomerRow → Bool
has_id id rows = any (λ r. r.id == id) rows

abbrev pub has_email : Text → List CustomerRow → Bool
has_email email rows = any (λ r. text_eq r.email email) rows

-- The e-mail belongs to another row.
abbrev pub email_of_other : ℕ → Text → List CustomerRow → Bool
email_of_other id email rows = any (λ r. text_eq r.email email && not (r.id == id)) rows

-- A unique index refuses the statement.
abbrev pub unique_violation : Error
unique_violation = Error.opaque (codes "duplicate key value violates unique constraint")

-- CreateCustomer: the primary key and UNIQUE (email).
unfoldable pub create_customer : List CustomerRow → CustomerRow → Result (List CustomerRow)
create_customer rows r =
    if has_id r.id rows || has_email r.email rows then err unique_violation else ok (rows ++ r ∷ [])

-- The SET list of UpdateCustomer.
abbrev pub set_row : Customer → CustomerRow → CustomerRow
set_row c r = record r {
  name = c.name;
  email = c.email;
  birth_date = to_pg_date c.birth_date;
  updated_at = to_pg_timestamptz c.updated_at;
}

unfoldable pub set_rows : Customer → List CustomerRow → List CustomerRow
set_rows c [] = []
set_rows c (r ∷ rows) = (if r.id == c.id then set_row c r else r) ∷ set_rows c rows

-- UpdateCustomer, a query for one row: with no such row the driver answers pgx.ErrNoRows.
unfoldable pub update_customer : List CustomerRow → Customer → Result (List CustomerRow)
unfolding set_rows
update_customer rows c =
    if has_id c.id rows
    then (if email_of_other c.id c.email rows then err unique_violation else ok (set_rows c rows))
    else err (sentinel no_rows)

-- DeleteCustomer.
unfoldable pub delete_customer : List CustomerRow → ℕ → List CustomerRow
delete_customer rows id = select (λ r. not (r.id == id)) rows

-- A statement inside the transaction: its own refusal, or one of the connection.
abbrev pub on_connection {ℓ} : {A : Type ℓ} → Fate → Result A → Result A
on_connection done r = r
on_connection (refused e) r = err e
on_connection (lost e) r = err e

-- CustomerRepository.SaveTx, UpdateTx and DeleteTx.
unfoldable pub save_tx : Fate → List CustomerRow → Customer → Result (List CustomerRow)
unfolding create_customer
save_tx fate rows c =
    within (codes "postgres.CustomerRepository.SaveTx")
      (on_connection fate (create_customer rows (to_row c)))

unfoldable pub update_tx : Fate → List CustomerRow → Customer → Result (List CustomerRow)
unfolding update_customer
update_tx fate rows c =
    within (codes "postgres.CustomerRepository.UpdateTx")
      (on_connection fate (update_customer rows c))

unfoldable pub delete_tx : Fate → List CustomerRow → ℕ → Result (List CustomerRow)
unfolding delete_customer
delete_tx fate rows id =
    within (codes "postgres.CustomerRepository.DeleteTx")
      (on_connection fate (ok (delete_customer rows id)))

-- A query for one row.
abbrev pub query_row : Option Error → Option CustomerRow → Result CustomerRow
query_row (some e) found = err e
query_row none none = err (sentinel no_rows)
query_row none (some r) = ok r

-- `if errors.Is(err, pgx.ErrNoRows) { return ErrNotFound }`, and the wrap of any other error.
abbrev pub found_or : Text → Result CustomerRow → Result Customer
found_or context (ok r) = ok (from_row r)
found_or context (err e) =
    if is e no_rows then err (sentinel customer_not_found) else err (wrap context e)

-- CustomerRepository.FindByID and FindByEmail; `failure` is an error of the connection.
unfoldable pub find_by_id : Option Error → List CustomerRow → ℕ → Result Customer
unfolding is
find_by_id failure rows id =
    found_or (codes "postgres.CustomerRepository.FindByID")
      (query_row failure (find (λ r. r.id == id) rows))

unfoldable pub find_by_email : Option Error → List CustomerRow → Text → Result Customer
unfolding is
find_by_email failure rows email =
    found_or (codes "postgres.CustomerRepository.FindByEmail")
      (query_row failure (find (λ r. text_eq r.email email) rows))

-- CustomerRepository.List; `newest_first` is ORDER BY created_at DESC.
unfoldable pub list :
    (List CustomerRow → List CustomerRow) → Option Error → List CustomerRow → Result (List Customer)
list newest_first none rows = ok (map from_row (newest_first rows))
list newest_first (some e) rows = err (wrap (codes "postgres.CustomerRepository.List") e)
