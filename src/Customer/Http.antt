-- ===== src/Customer/Http.antt =====
-- internal/customer/handler.go: the HTTP side. What echo's Bind, the validator, time.Parse and uuid.Parse
-- answer is an argument, in the order in which the handler asks for it.
use go_blueprint.Customer.{Customer}
use go_blueprint.Customer.World.{Host, Call, World}
use go_blueprint.Customer.Service
use go_blueprint.Prelude.{ℕ, ◌⊎◌, inl, inr, List, map, if◌then◌else◌, Text, codes}
use go_blueprint.Errors.{
  invalid_birth_date, customer_email_exists, message, customer_not_found, Error, text, ok, err,
  Result, is,
}

-- What a handler gives back to echo: a response, or an echo.HTTPError with its message.
pub data Response (A : Type 0) : Type 0 where
  replied : ℕ → A → Response A
  http_error : ℕ → Text → Response A

abbrev pub status : {A : Type 0} → Response A → ℕ
status (replied code a) = code
status (http_error code message) = code

-- registerRequest and updateRequest.
pub record Request : Type 0 where
  pub name : Text
  pub email : Text
  pub birth_date : Text

pub record CustomerResponse : Type 0 where
  pub id : Text
  pub name : Text
  pub email : Text
  pub birth_date : Text
  pub created_at : Text
  pub updated_at : Text

-- The read side that the handlers use, over the state that it keeps.
pub record Querier (S : Type 0) : Type 0 where
  pub get_by_id : ℕ → S → S × Result Customer
  pub list : S → S × Result (List Customer)

-- The libraries that a request passes through.
pub record Parsers : Type 0 where
  pub validate : Request → Result (Unit {0})
  pub parse_date : Text → Result ℕ
  pub parse_uuid : Text → Result ℕ
  pub format_date : ℕ → Text
  pub format_time : ℕ → Text

-- mapDomainError.
unfoldable pub map_domain_error : {A : Type 0} → Error → Response A
unfolding is
map_domain_error e =
    if is e customer_not_found
    then http_error 404 (message customer_not_found)
    else if is e customer_email_exists
    then http_error 409 (message customer_email_exists)
    else if is e invalid_birth_date
    then http_error 422 (message invalid_birth_date)
    else http_error 500 (codes "internal error")

-- toResponse.
abbrev pub to_response : (ℕ → Text) → Parsers → Customer → CustomerResponse
to_response uuid_text parsers c = record {
  id = uuid_text c.id;
  name = c.name;
  email = c.email;
  birth_date = parsers.format_date c.birth_date;
  created_at = parsers.format_time c.created_at;
  updated_at = parsers.format_time c.updated_at;
}

-- The checks that Register and Update begin with: Bind, the validator, and the date.
unfoldable pub read_request : Parsers → Result Request → (Request × ℕ) ⊎ (ℕ × Text)
read_request parsers (err e) = inr (400, text e)
read_request parsers (ok req) = elim (parsers.validate req) [
  | err e ↦ inr (422, text e)
  | ok _ ↦ elim (parsers.parse_date req.birth_date) [
    | err e ↦ inr (400, codes "birth_date must be in YYYY-MM-DD format")
    | ok date ↦ inl (req, date)
  ]
]

module _ (host : Host) (parsers : Parsers) where
  -- Handler.Register.
  unfoldable pub http_register : Call → World → Result Request → World × Response Text
  unfolding read_request
  http_register call w bound = elim (read_request parsers bound) [
    | inr (code, message) ↦ (w, http_error code message)
    | inl (req, date) ↦
        let (after, answer) =
          Service.register host call w
            (record { name = req.name; email = req.email; birth_date = date }) in
        elim answer [
          | err e ↦ (after, map_domain_error e)
          | ok id ↦ (after, replied 201 (host.uuid_text id))
        ]
  ]

  -- Handler.Update.
  unfoldable pub http_update : Call → World → Text → Result Request → World × Response (Unit {0})
  unfolding read_request
  http_update call w param bound = elim (parsers.parse_uuid param) [
    | err e ↦ (w, http_error 400 (codes "invalid customer ID"))
    | ok id ↦ elim (read_request parsers bound) [
      | inr (code, message) ↦ (w, http_error code message)
      | inl (req, date) ↦
          let (after, answer) =
            Service.update host call w
              (record { id = id; name = req.name; email = req.email; birth_date = date }) in
          elim answer [ err e ↦ (after, map_domain_error e) | ok _ ↦ (after, replied 204 tt) ]
    ]
  ]

  -- Handler.Remove.
  unfoldable pub http_remove : Call → World → Text → World × Response (Unit {0})
  unfolding map_domain_error
  http_remove call w param = elim (parsers.parse_uuid param) [
    | err e ↦ (w, http_error 400 (codes "invalid customer ID"))
    | ok id ↦
        let (after, answer) = Service.remove host call w id in
        elim answer [ err e ↦ (after, map_domain_error e) | ok _ ↦ (after, replied 204 tt) ]
  ]

  -- Handler.GetByID and Handler.List.
  unfoldable pub http_get : {S : Type 0} → Querier S → S → Text → S × Response CustomerResponse
  unfolding map_domain_error
  http_get query s param = elim (parsers.parse_uuid param) [
    | err e ↦ (s, http_error 400 (codes "invalid customer ID"))
    | ok id ↦
        let (after, answer) = query.get_by_id id s in
        elim answer [
          | err e ↦ (after, map_domain_error e)
          | ok c ↦ (after, replied 200 (to_response host.uuid_text parsers c))
        ]
  ]

  unfoldable pub http_list : {S : Type 0} → Querier S → S → S × Response (List CustomerResponse)
  http_list query s =
      let (after, answer) = query.list s in
      elim answer [
        | err e ↦ (after, http_error 500 (codes "internal error"))
        | ok cs ↦ (after, replied 200 (map (to_response host.uuid_text parsers) cs))
      ]
