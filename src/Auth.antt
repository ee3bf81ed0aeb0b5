-- ===== src/Auth.antt =====
-- internal/auth: users, the service, the HTTP middleware and handler, and the interceptors of
-- internal/platform/grpc that call the service. This file has domain.go.
pub mod Users
pub mod Service
pub mod Access
pub mod Http
pub mod Interceptors
pub mod Sessions
pub mod Signup
pub mod Tests
use go_blueprint.Prelude.{ℕ, if◌then◌else◌, Text, is_empty, trim_space, to_lower}
use go_blueprint.Errors.{Result, ok, err, sentinel, user_email_required, user_name_required}

-- auth.User.
pub record User : Type 0 where
  pub id : ℕ
  pub email : Text
  pub password_hash : Text
  pub name : Text
  pub created_at : ℕ

-- NewUser; `fold` is the case table, and the id and the time are new.
unfoldable pub new_user : (ℕ → ℕ) → ℕ → ℕ → Text → Text → Text → Result User
new_user fold id now email name password_hash =
    if is_empty (trim_space email)
    then err (sentinel user_email_required)
    else if is_empty (trim_space name)
    then err (sentinel user_name_required)
    else ok (record {
      id = id;
      email = to_lower fold (trim_space email);
      password_hash = password_hash;
      name = trim_space name;
      created_at = now;
    })
