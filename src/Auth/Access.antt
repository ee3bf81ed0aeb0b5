-- ===== src/Auth/Access.antt =====
-- Who gets through: internal/auth/middleware.go for HTTP, internal/platform/grpc/interceptors.go for gRPC,
-- and mapAuthError of internal/auth/handler.go.
use go_blueprint.Auth.Service.{Claims, Crypto, Config, validate_token}
use go_blueprint.Customer.Http.{Response, http_error, replied}
use go_blueprint.Prelude.{
  inl, inr, Bool, ◌⊎◌, cut_prefix, has_prefix, is_empty, ℕ, Option, none, some, List, [], ◌∷◌,
  if◌then◌else◌, Text, codes,
}
use go_blueprint.Errors.{
  password_too_short, user_not_found, invalid_password, text, ok, err, user_email_exists, Error, is,
}

-- extractBearerToken of the value of the Authorization header, which is "" when there is none.
unfoldable pub extract_bearer_token : Text → Text
unfolding cut_prefix
extract_bearer_token header = elim (cut_prefix header (codes "Bearer ")) [
  | none ↦ []
  | some token ↦ token
]

-- JWTMiddleware: the subject that it hands to the next handler, or the error that it answers.
unfoldable pub jwt_middleware : Crypto → Text → ℕ → Text → Response Text
unfolding extract_bearer_token
jwt_middleware crypto key now header =
    let token = extract_bearer_token header in
    if is_empty token
    then http_error 401 (codes "missing authorization header")
    else elim (crypto.parse key now token) [
      | none ↦ http_error 401 (codes "invalid or expired token")
      | some claims ↦
          if is_empty claims.sub
          then http_error 401 (codes "invalid token claims")
          else replied 200 claims.sub
    ]

-- isPublicMethod.
unfoldable pub is_public_method : Text → Bool
unfolding has_prefix
is_public_method full_method = has_prefix full_method (codes "/grpc.reflection.")

-- extractToken; `none` is a context with no metadata, and the error is the message of Unauthenticated.
unfoldable pub extract_token : Option (List Text) → Text ⊎ Text
unfolding cut_prefix
extract_token none = inr (codes "missing metadata")
extract_token (some []) = inr (codes "missing authorization")
extract_token (some (value ∷ values)) = elim (cut_prefix value (codes "Bearer ")) [
  | none ↦ inr (codes "missing authorization")
  | some token ↦ inl token
]

-- authInterceptor and streamAuthInterceptor: the handler runs with no claims, with the claims of the
-- token, or not at all.
pub data Admission : Type 0 where
  open_door : Admission
  admitted : Claims → Admission
  unauthenticated : Text → Admission

unfoldable pub auth_interceptor : Crypto → Config → ℕ → Text → Option (List Text) → Admission
unfolding is_public_method extract_token validate_token
auth_interceptor crypto config now full_method metadata =
    if is_public_method full_method then open_door else elim (extract_token metadata) [
      | inr message ↦ unauthenticated message
      | inl token ↦ elim (validate_token crypto config now token) [
        | err e ↦ unauthenticated (codes "invalid token")
        | ok claims ↦ admitted claims
      ]
    ]

-- mapAuthError.
unfoldable pub map_auth_error : {A : Type 0} → Error → Response A
unfolding is
map_auth_error e =
    if is e user_email_exists
    then http_error 409 (text e)
    else if is e invalid_password
    then http_error 401 (text e)
    else if is e user_not_found
    then http_error 401 (codes "invalid credentials")
    else if is e password_too_short
    then http_error 422 (text e)
    else http_error 500 (codes "internal error")
