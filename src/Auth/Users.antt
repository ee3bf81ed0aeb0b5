-- ===== src/Auth/Users.antt =====
-- internal/platform/database/postgres: user_repo.go and the statements of users.sql.go, over the table
-- `users` of migrations/002_create_users.sql.
use go_blueprint.Auth.{User}
use go_blueprint.Customer.Repository.{to_pg_timestamptz, from_pg_timestamptz, unique_violation}
use go_blueprint.Prelude.{
  Bool, find, text_eq, ℕ, ◌||◌, Option, none, some, List, [], ◌∷◌, ◌++◌, ◌==◌, if◌then◌else◌, any,
  Text, codes,
}
use go_blueprint.Errors.{
  reply, within, user_not_found, settle, no_rows, wrap, sentinel, err, ok, Error, Fate, is, Result,
}

pub record UserRow : Type 0 where
  pub id : ℕ
  pub email : Text
  pub password_hash : Text
  pub name : Text
  pub created_at : Option ℕ

-- CreateUserParams of Save, and fromUserRow.
abbrev pub to_user_row : User → UserRow
to_user_row u = record {
  id = u.id;
  email = u.email;
  password_hash = u.password_hash;
  name = u.name;
  created_at = to_pg_timestamptz u.created_at;
}

abbrev pub from_user_row : UserRow → User
from_user_row r = record {
  id = r.id;
  email = r.email;
  password_hash = r.password_hash;
  name = r.name;
  created_at = from_pg_timestamptz r.created_at;
}

-- CreateUser: the primary key and UNIQUE (email) refuse a row.
abbrev pub taken : UserRow → List UserRow → Bool
taken r rows = any (λ s. s.id == r.id || text_eq s.email r.email) rows

-- UserRepository.Save. The statement is its own transaction.
unfoldable pub save : Fate → List UserRow → User → List UserRow × Result (Unit {0})
save fate rows u =
    if taken (to_user_row u) rows
    then (rows, err (wrap (codes "postgres.UserRepository.Save") unique_violation))
    else (
      settle fate rows (rows ++ to_user_row u ∷ []),
      within (codes "postgres.UserRepository.Save") (reply fate),
    )

abbrev pub query_user : Option Error → Option UserRow → Result UserRow
query_user (some e) found = err e
query_user none none = err (sentinel no_rows)
query_user none (some r) = ok r

abbrev pub user_found_or : Text → Result UserRow → Result User
user_found_or context (ok r) = ok (from_user_row r)
user_found_or context (err e) =
    if is e no_rows then err (sentinel user_not_found) else err (wrap context e)

-- UserRepository.FindByEmail and FindByID.
unfoldable pub find_user_by_email : Option Error → List UserRow → Text → Result User
unfolding is
find_user_by_email failure rows email =
    user_found_or (codes "postgres.UserRepository.FindByEmail")
      (query_user failure (find (λ r. text_eq r.email email) rows))

unfoldable pub find_user_by_id : Option Error → List UserRow → ℕ → Result User
unfolding is
find_user_by_id failure rows id =
    user_found_or (codes "postgres.UserRepository.FindByID")
      (query_user failure (find (λ r. r.id == id) rows))
