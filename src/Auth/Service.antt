-- ===== src/Auth/Service.antt =====
-- internal/auth/service.go. bcrypt and the JWT library are parameters. Login promises the same work for every
-- e-mail, so it runs in a monad whose one operation, the comparison of bcrypt, records what it compared.
use go_blueprint.Auth.{User, new_user}
use go_blueprint.Auth.Users.{UserRow, save, find_user_by_email}
use go_blueprint.Prelude.{
  ◌++◌, Bool, ◌/◌, ℕ, ◌+◌, Option, none, some, List, [], ◌∷◌, ltb, if◌then◌else◌, Text, codes,
}
use go_blueprint.Errors.{
  user_email_exists, invalid_token, invalid_password, password_too_short, wrap, sentinel,
  user_not_found, err, Fate, ok, Error, is, Result,
}

-- The bytes that a rune takes in a Go string, and len(s).
abbrev pub rune_len : ℕ → ℕ
rune_len r = if ltb r 0x80 then 1 else if ltb r 0x800 then 2 else if ltb r 0x10000 then 3 else 4

unfoldable pub byte_len : Text → ℕ
byte_len [] = 0
byte_len (r ∷ s) = rune_len r + byte_len s

abbrev pub min_password_len : ℕ
min_password_len = 8

-- The claims of a token, as Login writes them; times are in seconds.
pub record Claims : Type 0 where
  pub sub : Text
  pub email : Text
  pub exp : ℕ
  pub iat : ℕ

-- bcrypt.GenerateFromPassword with its salt, bcrypt.CompareHashAndPassword, SignedString with HS256, and
-- jwt.ParseWithClaims at a time: `none` is an error, or a token that is not valid.
pub record Crypto : Type 0 where
  pub hash : ℕ → Text → Result Text
  pub compare : Text → Text → Bool
  pub sign : Text → Claims → Result Text
  pub parse : Text → ℕ → Text → Option Claims

-- Service: the secret, and the expiry in nanoseconds; the hash of the placeholder made at start.
pub record Config : Type 0 where
  pub jwt_secret : Text
  pub jwt_expiry : ℕ
  pub dummy_hash : Text

pub record RegisterCmd : Type 0 where
  pub email : Text
  pub name : Text
  pub password : Text

pub record LoginCmd : Type 0 where
  pub email : Text
  pub password : Text

pub record TokenResponse : Type 0 where
  pub token : Text
  pub expires_at : ℕ

-- What the calls of one command meet.
pub record Call : Type 0 where
  pub find_failure : Option Error
  pub save_fate : Fate
  pub salt : ℕ
  pub user_id : ℕ
  pub now : ℕ
  pub issued_at : ℕ

abbrev pub second : ℕ
second = 1_000_000_000

module _ (fold : ℕ → ℕ) (crypto : Crypto) where
  -- Register, once the e-mail is free: hash, NewUser and Save.
  unfoldable pub register_user : Call → List UserRow → RegisterCmd → List UserRow × Result ℕ
  unfolding new_user save
  register_user call users cmd = elim (crypto.hash call.salt cmd.password) [
    | err e ↦ (users, err (wrap (codes "auth.Service.Register: hash password") e))
    | ok hash ↦ elim (new_user fold call.user_id call.now cmd.email cmd.name hash) [
      | err e ↦ (users, err (wrap (codes "auth.Service.Register: new user") e))
      | ok u ↦
          let (after, saved) = save call.save_fate users u in
          elim saved [
            | err e ↦ (after, err (wrap (codes "auth.Service.Register: save") e))
            | ok _ ↦ (after, ok u.id)
          ]
    ]
  ]

  -- Service.Register.
  unfoldable pub register : Call → List UserRow → RegisterCmd → List UserRow × Result ℕ
  unfolding byte_len find_user_by_email is register_user
  register call users cmd =
      if ltb (byte_len cmd.password) min_password_len
      then (users, err (sentinel password_too_short))
      else elim (find_user_by_email call.find_failure users cmd.email) [
        | ok u ↦ (users, err (sentinel user_email_exists))
        | err e ↦
            if is e user_not_found
            then register_user call users cmd
            else (users, err (wrap (codes "auth.Service.Register: check email") e))
      ]

-- What a computation compared, each time a hash and a password, and its value.
abbrev pub Compared : Type 0 → Type 0
Compared A = List (Text × Text) × A

abbrev pub pure : {A : Type 0} → A → Compared A
pure a = ([], a)

infixl 5 ◌>>=◌ ◌>>◌
abbrev pub ◌>>=◌ : {A B : Type 0} → Compared A → (A → Compared B) → Compared B
◌>>=◌ m f = let (first, a) = m in let (rest, b) = f a in (first ++ rest, b)

abbrev pub ◌>>◌ : {A B : Type 0} → Compared A → Compared B → Compared B
m >> k = m >>= λ _. k

-- bcrypt.CompareHashAndPassword.
unfoldable pub compare_password : Crypto → Text → Text → Compared Bool
compare_password crypto hash password = ((hash, password) ∷ [], crypto.compare hash password)

module _ (crypto : Crypto) (config : Config) where
  -- Service.ValidateToken.
  unfoldable pub validate_token : ℕ → Text → Result Claims
  validate_token now token = elim (crypto.parse config.jwt_secret now token) [
    | none ↦ err (sentinel invalid_token)
    | some claims ↦ ok claims
  ]

module _ (uuid_text : ℕ → Text) (crypto : Crypto) (config : Config) where
  abbrev pub login_claims : Call → User → Claims
  login_claims call u = record {
    sub = uuid_text u.id;
    email = u.email;
    exp = (call.now + config.jwt_expiry) / second;
    iat = call.issued_at / second;
  }

  -- Login, once the user is found.
  unfoldable pub login_user : Call → User → LoginCmd → Compared (Result TokenResponse)
  unfolding compare_password
  login_user call u cmd = do
    matches ← compare_password crypto u.password_hash cmd.password
    pure (
        if matches
        then elim (crypto.sign config.jwt_secret (login_claims call u)) [
          | err e ↦ err (wrap (codes "auth.Service.Login: sign token") e)
          | ok signed ↦ ok (record { token = signed; expires_at = call.now + config.jwt_expiry })
        ]
        else err (sentinel invalid_password))

  -- Service.Login.
  unfoldable pub login : Call → List UserRow → LoginCmd → Compared (Result TokenResponse)
  unfolding find_user_by_email is login_user compare_password
  login call users cmd = elim (find_user_by_email call.find_failure users cmd.email) [
    | ok u ↦ login_user call u cmd
    | err e ↦
        if is e user_not_found
        then (do
          compare_password crypto config.dummy_hash cmd.password
          pure (err (sentinel invalid_password)))
        else pure (err (wrap (codes "auth.Service.Login: find user") e))
  ]
