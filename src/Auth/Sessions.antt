-- ===== src/Auth/Sessions.antt =====
-- From Register to Login to a request that gets through.
use go_blueprint.Auth.Users.{UserRow, find_user_by_email}
use go_blueprint.Customer.Http.{replied}
use go_blueprint.Prelude.{
  true, text_eq, find, cut_prefix, is_empty, ℕ, ◌≡◌, refl, sym, ap, ◌∙◌, ◌⊎◌, ◌↔◌, inl, inr, false,
  Option, none, some, List, [], ◌∷◌, Bool-cases, Option-cases, Text, codes,
}
use go_blueprint.Auth.Service.{
  compare_password, login_user, Claims, LoginCmd, validate_token, Call, Config, Crypto, login,
}
use go_blueprint.Auth.Access.{
  admitted, is_public_method, extract_token, extract_bearer_token, auth_interceptor, jwt_middleware,
}
use go_blueprint.Errors.{is_ok, wrap, is_self, user_not_found, is, Result-cases, err, Error}

failed_query :
    (failure : Option Error) (users : List UserRow) (email : Text) (e : Error)
    → find_user_by_email failure users email ≡ err e
    → is e user_not_found ≡ false
    → (f : Error) × (failure ≡ some f)
unfolding find_user_by_email is
failed_query (some f) users email e missing failed = (f, refl)
failed_query none users email e missing failed =
    elim (Option-cases (find (λ r. text_eq r.email email) users)) [
      | inl absent ↦ cc (rw (absent, find_user_by_email) at missing, failed, is_self user_not_found)
      | inr (r, found) ↦ cc (rw (found, find_user_by_email) at missing)
    ]

-- Whoever logs in, known or not: Login compares the given password exactly once, and gives a token only if that
-- comparison succeeded; unless the query failed, and then it compares nothing and gives no token.
pub login_compares_once :
    (uuid_text : ℕ → Text) (crypto : Crypto) (config : Config) (call : Call) (users : List UserRow)
    (cmd : LoginCmd)
    → ((hash : Text) × ((login uuid_text crypto config call users cmd).0
          ≡ (hash, cmd.password) ∷ [])
        × ((crypto.compare hash cmd.password ≡ true)
            ⊎ (is_ok (login uuid_text crypto config call users cmd).1 ≡ false)))
      ⊎ ((e : Error) × (f : Error) × (call.find_failure ≡ some f)
          × (login uuid_text crypto config call users cmd ≡ ([], err e)))
unfolding login login_user compare_password
login_compares_once uuid_text crypto config call users cmd =
    elim (Result-cases (find_user_by_email call.find_failure users cmd.email)) [
      | inl (u, found) ↦ inl (
        u.password_hash,
        rw (found, login) refl,
        elim (Bool-cases (crypto.compare u.password_hash cmd.password)) [
          | inl same ↦ inl same
          | inr differ ↦ inr (rw (found, login, login_user, differ) refl)
        ],
      )
      | inr (e, missing) ↦ elim (Bool-cases (is e user_not_found)) [
        | inl unknown ↦ inl (
          config.dummy_hash,
          rw (missing, unknown, login) refl,
          inr (rw (missing, unknown, login) refl),
        )
        | inr failed ↦
            let (f, failure) = failed_query call.find_failure users cmd.email e missing failed in
            inr (
              wrap (codes "auth.Service.Login: find user") e,
              f,
              failure,
              rw (missing, failed, login) refl,
            )
      ]
    ]

-- If no empty token is valid: for a method that is not public and one value of the Authorization header, HTTP
-- hands on a subject exactly if gRPC admits claims with that subject, and it is not empty.
pub access_agrees :
    (crypto : Crypto) (config : Config) (now : ℕ) (method header sub : Text)
    → crypto.parse config.jwt_secret now [] ≡ none
    → is_public_method method ≡ false
    → (jwt_middleware crypto config.jwt_secret now header ≡ replied 200 sub) ↔ (
        (claims : Claims) × (auth_interceptor crypto config now method (some (header ∷ []))
          ≡ admitted claims)
        × (claims.sub ≡ sub)
        × (is_empty sub ≡ false))
unfolding jwt_middleware auth_interceptor extract_bearer_token extract_token validate_token
access_agrees crypto config now method header sub no_empty guarded =
    elim (Option-cases (cut_prefix header (codes "Bearer "))) [
      | inl other ↦
          rw (guarded, other, jwt_middleware, auth_interceptor, extract_bearer_token, extract_token)
            (λ h. cc h, λ (_, h, _, _). cc h)
      | inr ([], bare) ↦
          rw
            (
              guarded, bare, no_empty, jwt_middleware, auth_interceptor, extract_bearer_token,
              extract_token, validate_token,
            )
            (λ h. cc h, λ (_, h, _, _). cc h)
      | inr (r ∷ token, bearer) ↦
          elim (Option-cases (crypto.parse config.jwt_secret now (r ∷ token))) [
            | inl invalid ↦
                rw
                  (
                    guarded, bearer, invalid, jwt_middleware, auth_interceptor,
                    extract_bearer_token, extract_token, validate_token,
                  )
                  (λ h. cc h, λ (_, h, _, _). cc h)
            | inr (claims, valid) ↦ elim (Bool-cases (is_empty claims.sub)) [
              | inl anonymous ↦
                  rw
                    (
                      guarded, bearer, valid, anonymous, jwt_middleware, auth_interceptor,
                      extract_bearer_token, extract_token, validate_token,
                    )
                    (λ h. cc h, λ (other, h, same, named). cc (h, same, named, anonymous))
              | inr named ↦
                  rw
                    (
                      guarded, bearer, valid, named, jwt_middleware, auth_interceptor,
                      extract_bearer_token, extract_token, validate_token,
                    )
                    (
                      λ h. (claims, refl, cc h, ap is_empty (cc (sym h)) ∙ named),
                      λ (other, h, same, _). cc (h, same),
                    )
            ]
          ]
    ]
