-- ===== src/Auth/Http.antt =====
-- internal/auth/handler.go. What echo's Bind and the validator answer is an argument.
use go_blueprint.Prelude.{ℕ, List, [], Text}
use go_blueprint.Auth.Access.{map_auth_error}
use go_blueprint.Auth.Service
use go_blueprint.Auth.Service.{Call, Crypto, Config, RegisterCmd, LoginCmd, TokenResponse}
use go_blueprint.Auth.Users.{UserRow}
use go_blueprint.Customer.Http.{Response, replied, http_error}
use go_blueprint.Errors.{Result, ok, err, text}

-- registerRequest and loginRequest have the fields of the commands that they are converted to.
module _ (fold : ℕ → ℕ) (uuid_text : ℕ → Text) (crypto : Crypto) where
  -- Handler.Register.
  unfoldable pub http_register :
      (RegisterCmd → Result (Unit {0}))
      → Call
      → List UserRow
      → Result RegisterCmd
      → List UserRow × Response Text
  unfolding map_auth_error
  http_register validate call users (err e) = (users, http_error 400 (text e))
  http_register validate call users (ok req) = elim (validate req) [
    | err e ↦ (users, http_error 422 (text e))
    | ok _ ↦
        let (after, answer) = Service.register fold crypto call users req in
        elim answer [
          | err e ↦ (after, map_auth_error e)
          | ok id ↦ (after, replied 201 (uuid_text id))
        ]
  ]

  -- Handler.Login, with what the service compared.
  unfoldable pub http_login :
      (LoginCmd → Result (Unit {0}))
      → Config
      → Call
      → List UserRow
      → Result LoginCmd
      → List (Text × Text) × Response TokenResponse
  unfolding map_auth_error
  http_login validate config call users (err e) = ([], http_error 400 (text e))
  http_login validate config call users (ok req) = elim (validate req) [
    | err e ↦ ([], http_error 422 (text e))
    | ok _ ↦
        let (compared, answer) = Service.login uuid_text crypto config call users req in
        elim answer [
          | err e ↦ (compared, map_auth_error e)
          | ok token ↦ (compared, replied 200 token)
        ]
  ]
