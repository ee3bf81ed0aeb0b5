-- ===== src/Customer/Replies.antt =====
-- What the HTTP and gRPC handlers reply, against what the commands did and against each other.
use go_blueprint.Customer.World.{Host, Call, World, RegisterCmd, Database}
use go_blueprint.Customer.Atomicity.{Registers, AllOrNothing}
use go_blueprint.Customer.AllOrNothing.{register-AllOrNothing}
use go_blueprint.Customer.Service
use go_blueprint.Prelude.{
  ℕ, ◌≡◌, refl, sym, ap, ◌∙◌, ◌⊎◌, inl, inr, Bool, true, false, ◌&&◌, ◌||◌, arith, ltb, leb, ◌==◌,
  Bool-cases, Text, codes,
}
use go_blueprint.Customer.Grpc.{
  grpc_remove, internal, invalid_argument, already_exists, not_found, failed, answered,
  map_domain_error_to_grpc, Answer,
}
use go_blueprint.Customer.Http.{
  Request, read_request, http_remove, http_register, Parsers, http_error, status, map_domain_error,
}
use go_blueprint.Errors.{
  err, Result-cases, is_ok, ok, Result, invalid_birth_date, customer_email_exists,
  customer_not_found, text, customer_email_required, customer_name_required, is, Error,
}

-- The HTTP statuses that correspond to an answer of gRPC.
abbrev pub matches : {A : Type 0} → Answer A → ℕ → Bool
matches (answered a) code = leb 200 code && ltb code 300
matches (failed not_found message) code = code == 404
matches (failed already_exists message) code = code == 409
matches (failed invalid_argument message) code = code == 400 || code == 422
matches (failed internal message) code = code == 500

-- Both sides reply to an error of the domain in the same way, unless it is a missing name or e-mail: then
-- gRPC says InvalidArgument and HTTP says 500.
pub domain_errors_match :
    {A B : Type 0} (e : Error)
    → (matches (map_domain_error_to_grpc {A = A} e) (status (map_domain_error {A = B} e)) ≡ true)
      ⊎ (((is e customer_name_required || is e customer_email_required) ≡ true)
          × (map_domain_error_to_grpc {A = A} e ≡ failed invalid_argument (text e))
          × (map_domain_error {A = B} e ≡ http_error 500 (codes "internal error")))
unfolding map_domain_error_to_grpc map_domain_error
domain_errors_match e = elim (Bool-cases (is e customer_not_found)) [
  | inl a ↦ inl (rw (a, map_domain_error_to_grpc, map_domain_error) refl)
  | inr a ↦ elim (Bool-cases (is e customer_email_exists)) [
    | inl b ↦ inl (rw (a, b, map_domain_error_to_grpc, map_domain_error) refl)
    | inr b ↦ elim (Bool-cases (is e invalid_birth_date)) [
      | inl c ↦ inl (rw (a, b, c, map_domain_error_to_grpc, map_domain_error) refl)
      | inr c ↦ elim (Bool-cases (is e customer_name_required)) [
        | inl d ↦
            inr (rw (a, b, c, d, map_domain_error_to_grpc, map_domain_error) (refl, refl, refl))
        | inr d ↦ elim (Bool-cases (is e customer_email_required)) [
          | inl f ↦
              inr
                (rw (a, b, c, d, f, map_domain_error_to_grpc, map_domain_error) (refl, refl, refl))
          | inr f ↦ inl (rw (a, b, c, d, f, map_domain_error_to_grpc, map_domain_error) refl)
        ]
      ]
    ]
  ]
]

-- No error of the domain is a success.
error_status : (A : Type 0) (e : Error) → ltb (status (map_domain_error {A = A} e)) 400 ≡ false
unfolding map_domain_error
error_status A e = elim (Bool-cases (is e customer_not_found)) [
  | inl a ↦ rw (a, map_domain_error) refl
  | inr a ↦ elim (Bool-cases (is e customer_email_exists)) [
    | inl b ↦ rw (a, b, map_domain_error) refl
    | inr b ↦ elim (Bool-cases (is e invalid_birth_date)) [
      | inl c ↦ rw (a, b, c, map_domain_error) refl
      | inr c ↦ rw (a, b, c, map_domain_error) refl
    ]
  ]
]

succeeded :
    {before after : Database} {A : Type 0} {a : A} {r : Result A} {Made : Type 0}
    → r ≡ ok a
    → AllOrNothing before after (is_ok r) Made
    → Made
succeeded h (inl (same, refuted)) = cc (ap is_ok (sym h) ∙ refuted)
succeeded h (inr made) = made

not_created : {A : Type 0} (code : ℕ) → ltb code 400 ≡ false → code ≡ 201 → A
not_created code high created = cc (sym high ∙ ap (λ n. ltb n 400) created)

module _ (host : Host) (parsers : Parsers) where
  -- HTTP answers 201 to Register only for a request that it could read, and only if the customer and
  -- its message are in the tables.
  pub http_register_created :
      (call : Call) (w : World) (bound : Result Request)
      → status (http_register host parsers call w bound).1 ≡ 201
      → (req : Request) × (date : ℕ) × (bound ≡ ok req)
        × (parsers.parse_date req.birth_date ≡ ok date)
        × Registers host call
            (record { name = req.name; email = req.email; birth_date = date })
            w.database
            (http_register host parsers call w bound).0.database
  unfolding http_register read_request
  http_register_created call w (err e) h = ground arith
  http_register_created call w (ok req) h = elim (Result-cases (parsers.validate req)) [
    | inr (e, unfit) ↦ not_created _ refl (rw (unfit, http_register, read_request) at h)
    | inl (u, fit) ↦ elim (Result-cases (parsers.parse_date req.birth_date)) [
      | inr (e, undated) ↦ not_created _ refl (rw (fit, undated, http_register, read_request) at h)
      | inl (date, dated) ↦
          let cmd : RegisterCmd = record {
            name = req.name;
            email = req.email;
            birth_date = date;
          } in
          elim (Result-cases (Service.register host call w cmd).1) [
            | inr (e, failed_with) ↦
                not_created _ (error_status Text e)
                  (rw (fit, dated, failed_with, http_register, read_request) at h)
            | inl (id, made) ↦ (
              req,
              date,
              refl,
              dated,
              rw (fit, dated, made, http_register, read_request)
                  (succeeded made (register-AllOrNothing host call w cmd)),
            )
          ]
    ]
  ]

  weaken : {M N P Q : Type 0} → M ⊎ (N × P × Q) → M ⊎ Q
  weaken (inl m) = inl m
  weaken (inr (n, p, q)) = inr q

  -- HTTP and gRPC remove the same customer with the same effect on everything, and reply in the same way.
  pub remove_replies_match :
      (call : Call) (w : World) (param : Text)
      → ((http_remove host parsers call w param).0 ≡ (grpc_remove host parsers call w param).0)
        × ((matches
                (grpc_remove host parsers call w param).1
                (status (http_remove host parsers call w param).1)
              ≡ true)
            ⊎ ((http_remove host parsers call w param).1 ≡ http_error 500 (codes "internal error")))
  unfolding http_remove grpc_remove
  remove_replies_match call w param = elim (Result-cases (parsers.parse_uuid param)) [
    | inr (e, bad) ↦ rw (bad, http_remove, grpc_remove) (refl, inl refl)
    | inl (id, good) ↦ elim (Result-cases (Service.remove host call w id).1) [
      | inl (u, removed) ↦ rw (good, removed, http_remove, grpc_remove) (refl, inl refl)
      | inr (e, refused_by) ↦
          rw (good, refused_by, http_remove, grpc_remove)
            (refl, weaken (domain_errors_match {A = Unit {0}} {B = Unit {0}} e))
    ]
  ]
