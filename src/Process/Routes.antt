-- ===== src/Process/Routes.antt =====
-- The routes that Start of internal/platform/server/server.go registers, behind the middleware of
-- internal/auth/middleware.go. The middleware that stands before every route is in Middleware. Echo's router, its
-- answer to a path with no route and the handlers are parameters; the routes for unknown paths that Echo itself
-- adds to a group with middleware are left out.
use go_blueprint.Prelude.{
  arith, not, refl, Option-cases, inr, inl, Bool-cases, ◌⊎◌, is_empty, none, if◌then◌else◌, ℕ, some,
  ◌≡◌, Option, true, ◌++◌, ◌∷◌, false, List, Text, [], codes, Bool,
}
use go_blueprint.Customer.Http.{replied, http_error, Response}
use go_blueprint.Auth.Service.{Claims, Crypto}
use go_blueprint.Prelude.Every.{all}
use go_blueprint.Auth.Access.{extract_bearer_token, jwt_middleware}

-- An endpoint of the API.
pub data Endpoint : Type 0 where
  auth_register auth_login : Endpoint
  customer_register customer_update customer_remove customer_get customer_list : Endpoint
  preferences_get preferences_upsert : Endpoint
  product_get product_list product_create product_update product_archive : Endpoint
  health swagger : Endpoint

-- echo.Group: its prefix, and whether JWTMiddleware stands before its handlers.
pub record Group : Type 0 where
  pub prefix : Text
  pub guarded : Bool

pub record Route : Type 0 where
  pub group : Group
  pub method : Text
  pub path : Text
  pub endpoint : Endpoint

abbrev route : Group → Text → Text → Endpoint → Route
route g method path endpoint = record {
  group = g;
  method = method;
  path = path;
  endpoint = endpoint;
}

-- The functions RegisterRoutes of auth, customer and product, and RegisterPreferencesRoutes.
abbrev auth_routes : Group → List Route
auth_routes g =
    route g (codes "POST") (codes "/auth/register") auth_register
    ∷ route g (codes "POST") (codes "/auth/login") auth_login
    ∷ []

abbrev customer_routes : Group → List Route
customer_routes g =
    route g (codes "POST") (codes "/customers") customer_register
    ∷ route g (codes "PUT") (codes "/customers/:id") customer_update
    ∷ route g (codes "DELETE") (codes "/customers/:id") customer_remove
    ∷ route g (codes "GET") (codes "/customers/:id") customer_get
    ∷ route g (codes "GET") (codes "/customers") customer_list
    ∷ []

abbrev preferences_routes : Group → List Route
preferences_routes g =
    route g (codes "GET") (codes "/customers/:id/preferences") preferences_get
    ∷ route g (codes "PUT") (codes "/customers/:id/preferences") preferences_upsert
    ∷ []

abbrev product_routes : Group → List Route
product_routes g =
    route g (codes "GET") (codes "/products/:id") product_get
    ∷ route g (codes "GET") (codes "/products") product_list
    ∷ route g (codes "POST") (codes "/products") product_create
    ∷ route g (codes "PUT") (codes "/products/:id") product_update
    ∷ route g (codes "DELETE") (codes "/products/:id") product_archive
    ∷ []

-- The groups and the routes of Start.
abbrev root : Group
root = record { prefix = []; guarded = false }

abbrev api : Group
api = record { prefix = codes "/api/v1"; guarded = false }

abbrev protected : Group
protected = record { prefix = codes "/api/v1"; guarded = true }

unfoldable pub server_routes : List Route
server_routes =
    auth_routes api
    ++ customer_routes protected
    ++ preferences_routes protected
    ++ product_routes protected
    ++ route root (codes "GET") (codes "/health") health
      ∷ route root (codes "GET") (codes "/swagger/*") swagger
      ∷ []

-- What Echo's router answers is a route that it was given.
abbrev pub IsRouter : (List Route → Text → Text → Option Route) → Type 0
IsRouter find =
    (routes : List Route) (method path : Text) (r : Route) (p : Route → Bool)
    → find routes method path ≡ some r
    → all p routes ≡ true
    → p r ≡ true

-- Needs no token.
abbrev pub is_open : Endpoint → Bool
is_open auth_register = true
is_open auth_login = true
is_open health = true
is_open swagger = true
is_open _ = false

-- Guarded, or open to all.
abbrev is_settled : Route → Bool
is_settled r = if r.group.guarded then not (is_open r.endpoint) else is_open r.endpoint

settled : all is_settled server_routes ≡ true
unfolding server_routes
settled = refl

module _ {S R : Type 0} (find : List Route → Text → Text → Option Route)
    (handle : Endpoint → Option Text → S → S × Response R) (unmatched : Response R)
    (crypto : Crypto) (key : Text) where
  -- What the routed handler does behind the middleware of its group; a handler finds the subject in its context.
  unfoldable pub serve_route : ℕ → Text → Route → S → S × Response R
  serve_route now header r w =
      if r.group.guarded
      then elim (jwt_middleware crypto key now header) [
        | http_error code message ↦ (w, http_error code message)
        | replied code subject ↦ handle r.endpoint (some subject) w
      ]
      else handle r.endpoint none w

  unfoldable pub serve_request : ℕ → Text → Text → Text → S → S × Response R
  unfolding serve_route
  serve_request now method path header w = elim (find server_routes method path) [
    | none ↦ (w, unmatched)
    | some r ↦ serve_route now header r w
  ]

  -- How a request may end.
  pub data Served (now : ℕ) (header : Text) (w : S) : S × Response R → Type 0 where
    missing : Served now header w (w, unmatched)
    unauthorized : (message : Text) → Served now header w (w, http_error 401 message)
    unguarded : (e : Endpoint) → is_open e ≡ true → Served now header w (handle e none w)
    authenticated :
        (e : Endpoint) (claims : Claims)
        → is_open e ≡ false
        → crypto.parse key now (extract_bearer_token header) ≡ some claims
        → is_empty claims.sub ≡ false
        → Served now header w (handle e (some claims.sub) w)

  jwt_refuses :
      (now : ℕ) (header : Text)
      → ((message : Text) × (jwt_middleware crypto key now header ≡ http_error 401 message))
        ⊎ ((claims : Claims) × (crypto.parse key now (extract_bearer_token header) ≡ some claims)
            × (is_empty claims.sub ≡ false)
            × (jwt_middleware crypto key now header ≡ replied 200 claims.sub))
  unfolding jwt_middleware
  jwt_refuses now header = elim (Bool-cases (is_empty (extract_bearer_token header))) [
    | inl h ↦ inl (codes "missing authorization header", rw h refl)
    | inr h ↦ elim (Option-cases (crypto.parse key now (extract_bearer_token header))) [
      | inl none_read ↦ inl (codes "invalid or expired token", rw (h, none_read) refl)
      | inr (claims, read) ↦ elim (Bool-cases (is_empty claims.sub)) [
        | inl e ↦ inl (codes "invalid token claims", rw (h, read, e) refl)
        | inr e ↦ inr (claims, read, e, rw (h, read, e) refl)
      ]
    ]
  ]

  serve_route-Served :
      (now : ℕ) (header : Text) (r : Route) (w : S)
      → is_settled r ≡ true
      → Served now header w (serve_route now header r w)
  unfolding serve_route
  serve_route-Served now header r w h = elim (Bool-cases r.group.guarded) [
    | inr g ↦ rw (g) (unguarded r.endpoint (ground (arith, h, g)))
    | inl g ↦ elim (jwt_refuses now header) [
      | inl (message, refused) ↦ rw (g, refused) (unauthorized message)
      | inr (claims, read, named, passed) ↦
          rw (g, passed) (authenticated r.endpoint claims (ground (arith, h, g)) read named)
    ]
  ]

  -- If the router answers with a route that was registered: every request meets no handler, changes nothing
  -- and is answered 401 or as a path with no route; or it meets one handler: Register or Login of auth, the
  -- health check or the documentation, or, only if the JWT library accepts the bearer token and its subject
  -- is not empty, another one, which finds that subject.
  pub serve_request-Served :
      IsRouter find
      → (now : ℕ) (method path header : Text) (w : S)
      → Served now header w (serve_request now method path header w)
  unfolding serve_request
  serve_request-Served router now method path header w =
      elim (Option-cases (find server_routes method path)) [
        | inl h ↦ rw (serve_request, h) missing
        | inr (r, h) ↦
            rw (serve_request, h)
              (serve_route-Served now header r w
                (router server_routes method path r is_settled h settled))
      ]
