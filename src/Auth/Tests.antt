-- ===== src/Auth/Tests.antt =====
-- Concrete sessions.
use go_blueprint.Auth.{new_user}
use go_blueprint.Auth.Users.{save, find_user_by_email}
use go_blueprint.Auth.Sessions.{login_compares_once, access_agrees}
use go_blueprint.Auth.Signup.{JwtRoundTrips, login-after-register, raw_login_refused}
use go_blueprint.Customer.Http.{replied}
use go_blueprint.Prelude.Pairs.{write_two, read_two, read-write_two}
use go_blueprint.Prelude.{
  text_eq_iff, trim_left, trim_right, cons_unless_blank, lower_rune, cut_prefix, has_prefix,
}
use go_blueprint.Prelude.{
  ℕ, ◌+◌, ◌/◌, ◌≡◌, refl, ◌⊎◌, ◌↔◌, true, false, Option, none, some, [], ◌∷◌, ◌++◌, ltb,
  if◌then◌else◌, Text, codes, text_eq, trim_space, to_lower, is_empty,
}
use go_blueprint.Auth.Service.{
  validate_token, TokenResponse, byte_len, second, register_user, register, login, Config, LoginCmd,
  Call, RegisterCmd, Crypto, Claims,
}
use go_blueprint.Errors.{is_ok, invalid_password, sentinel, is, err, done, Error, ok}
use go_blueprint.Auth.Access.{admitted, auth_interceptor, jwt_middleware, is_public_method}

-- The hash of a password is the password, and a token is the list of its claims.
abbrev write_claims : Claims → Text
write_claims c = c.exp ∷ c.iat ∷ write_two c.sub c.email

abbrev read_claims : Text → Option Claims
read_claims (exp ∷ iat ∷ rest) =
    some (record { sub = (read_two rest).0; email = (read_two rest).1; exp = exp; iat = iat })
read_claims _ = none

abbrev alive : ℕ → Claims → Option Claims
alive now c = if ltb (now / second) c.exp then some c else none

abbrev parse_claims : ℕ → Text → Option Claims
parse_claims now token = elim (read_claims token) [ none ↦ none | some c ↦ alive now c ]

abbrev crypto : Crypto
crypto = record {
  hash = λ salt password. ok password;
  compare = λ hash password. text_eq hash password;
  sign = λ secret claims. ok (write_claims claims);
  parse = λ secret now token. parse_claims now token;
}

abbrev config : Config
config = record { jwt_secret = codes "s"; jwt_expiry = 3_600_000_000_000; dummy_hash = codes "d" }

read_write : (c : Claims) → read_claims (write_claims c) ≡ some c
read_write c = rw (read-write_two c.sub c.email) refl

jwt_round_trips : JwtRoundTrips crypto config.jwt_secret
jwt_round_trips claims =
    (write_claims claims, refl, λ now on_time. rw (read_write claims, on_time) refl)

bcrypt_accepts :
    (salt : ℕ) (password hash : Text)
    → crypto.hash salt password ≡ ok hash
    → crypto.compare hash password ≡ true
bcrypt_accepts salt password hash h = (text_eq_iff hash password).1 (cc h)

abbrev fold : ℕ → ℕ
fold r = r

abbrev uuid_text : ℕ → Text
uuid_text id = id ∷ []

abbrev call : Call
call = record {
  find_failure = none;
  save_fate = done;
  salt = 1;
  user_id = 4;
  now = 100;
  issued_at = 101;
}

abbrev eve : RegisterCmd
eve = record { email = codes "Eve@x.io"; name = codes "Eve"; password = codes "longenough" }

login-after-register_example :
    (t : TokenResponse) × ((login uuid_text crypto config call
        (register fold crypto call [] eve).0
        (record { email = to_lower fold (trim_space eve.email); password = eve.password })).1
      ≡ ok t)
    × (t.expires_at ≡ call.now + config.jwt_expiry)
    × ((claims : Claims) × (validate_token crypto config 200 t.token ≡ ok claims)
        × (claims.sub ≡ uuid_text 4))
unfolding register register_user byte_len find_user_by_email is new_user save trim_space trim_left
    trim_right cons_unless_blank to_lower lower_rune text_eq
login-after-register_example =
    login-after-register fold uuid_text crypto config call call [] eve 4 bcrypt_accepts
      jwt_round_trips refl refl 200 refl

raw_login_refused_example :
    (login uuid_text crypto config call
      (register fold crypto call [] eve).0
      (record { email = eve.email; password = eve.password })).1
    ≡ err (sentinel invalid_password)
unfolding register register_user byte_len find_user_by_email is new_user save trim_space trim_left
    trim_right cons_unless_blank to_lower lower_rune text_eq
raw_login_refused_example =
    raw_login_refused fold uuid_text crypto config call call [] eve 4 refl refl refl refl

abbrev unknown : LoginCmd
unknown = record { email = codes "nobody@x.io"; password = codes "guess" }

login_compares_once_example :
    ((hash : Text) × ((login uuid_text crypto config call [] unknown).0
        ≡ (hash, unknown.password) ∷ [])
      × ((crypto.compare hash unknown.password ≡ true)
          ⊎ (is_ok (login uuid_text crypto config call [] unknown).1 ≡ false)))
    ⊎ ((e : Error) × (f : Error) × (call.find_failure ≡ some f)
        × (login uuid_text crypto config call [] unknown ≡ ([], err e)))
login_compares_once_example = login_compares_once uuid_text crypto config call [] unknown

abbrev header : Text
header =
    codes "Bearer "
    ++ write_claims (record { sub = codes "4"; email = codes "eve@x.io"; exp = 9; iat = 0 })

access_agrees_example :
    (jwt_middleware crypto config.jwt_secret 200 header ≡ replied 200 (codes "4")) ↔ (
      (claims : Claims) × (auth_interceptor crypto config 200
          (codes "/customer.v1.CustomerService/GetCustomer")
          (some (header ∷ []))
        ≡ admitted claims)
      × (claims.sub ≡ codes "4")
      × (is_empty (codes "4") ≡ false))
unfolding is_public_method has_prefix cut_prefix
access_agrees_example =
    access_agrees crypto config 200 (codes "/customer.v1.CustomerService/GetCustomer") header
      (codes "4") refl refl
