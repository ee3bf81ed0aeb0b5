-- ===== src/Customer/Grpc.antt =====
-- internal/customer/grpc.go: the gRPC side of the customer service. What time.Parse and uuid.Parse answer
-- comes from the same parsers as on the HTTP side.
use go_blueprint.Customer.{Customer}
use go_blueprint.Customer.World.{Host, Call, World}
use go_blueprint.Customer.Service
use go_blueprint.Customer.Http.{Request, Querier, Parsers}
use go_blueprint.Prelude.{ℕ, List, ◌++◌, map, if◌then◌else◌, Text, codes}
use go_blueprint.Errors.{
  customer_email_required, customer_name_required, invalid_birth_date, customer_email_exists, text,
  customer_not_found, ok, err, is, Error,
}

-- The status codes that the handlers give.
pub data Code : Type 0 where
  not_found already_exists invalid_argument internal : Code

-- A response, or an error made by status.Error.
pub data Answer (A : Type 0) : Type 0 where
  answered : A → Answer A
  failed : Code → Text → Answer A

-- customerv1.Customer; timestamps stay numbers.
pub record ProtoCustomer : Type 0 where
  pub id : Text
  pub name : Text
  pub email : Text
  pub birth_date : Text
  pub created_at : ℕ
  pub updated_at : ℕ

-- mapDomainErrorToGRPC.
unfoldable pub map_domain_error_to_grpc : {A : Type 0} → Error → Answer A
unfolding is
map_domain_error_to_grpc e =
    if is e customer_not_found
    then failed not_found (text e)
    else if is e customer_email_exists
    then failed already_exists (text e)
    else if is e invalid_birth_date
    then failed invalid_argument (text e)
    else if is e customer_name_required
    then failed invalid_argument (text e)
    else if is e customer_email_required
    then failed invalid_argument (text e)
    else failed internal (codes "internal error")

-- toProto.
abbrev pub to_proto : (ℕ → Text) → Parsers → Customer → ProtoCustomer
to_proto uuid_text parsers c = record {
  id = uuid_text c.id;
  name = c.name;
  email = c.email;
  birth_date = parsers.format_date c.birth_date;
  created_at = c.created_at;
  updated_at = c.updated_at;
}

-- status.Errorf(codes.InvalidArgument, "...: %v", err).
abbrev pub invalid : {A : Type 0} → Text → Error → Answer A
invalid what e = failed invalid_argument (what ++ codes ": " ++ text e)

module _ (host : Host) (parsers : Parsers) where
  -- GRPCHandler.RegisterCustomer.
  unfoldable pub grpc_register : Call → World → Request → World × Answer Text
  unfolding map_domain_error_to_grpc
  grpc_register call w req = elim (parsers.parse_date req.birth_date) [
    | err e ↦ (w, invalid (codes "invalid birth_date format") e)
    | ok date ↦
        let (after, answer) =
          Service.register host call w
            (record { name = req.name; email = req.email; birth_date = date }) in
        elim answer [
          | err e ↦ (after, map_domain_error_to_grpc e)
          | ok id ↦ (after, answered (host.uuid_text id))
        ]
  ]

  -- GRPCHandler.UpdateCustomer.
  unfoldable pub grpc_update : Call → World → Text → Request → World × Answer (Unit {0})
  unfolding map_domain_error_to_grpc
  grpc_update call w req_id req = elim (parsers.parse_uuid req_id) [
    | err e ↦ (w, invalid (codes "invalid customer id") e)
    | ok id ↦ elim (parsers.parse_date req.birth_date) [
      | err e ↦ (w, invalid (codes "invalid birth_date format") e)
      | ok date ↦
          let (after, answer) =
            Service.update host call w
              (record { id = id; name = req.name; email = req.email; birth_date = date }) in
          elim answer [ err e ↦ (after, map_domain_error_to_grpc e) | ok _ ↦ (after, answered tt) ]
    ]
  ]

  -- GRPCHandler.RemoveCustomer.
  unfoldable pub grpc_remove : Call → World → Text → World × Answer (Unit {0})
  unfolding map_domain_error_to_grpc
  grpc_remove call w req_id = elim (parsers.parse_uuid req_id) [
    | err e ↦ (w, invalid (codes "invalid customer id") e)
    | ok id ↦
        let (after, answer) = Service.remove host call w id in
        elim answer [ err e ↦ (after, map_domain_error_to_grpc e) | ok _ ↦ (after, answered tt) ]
  ]

  -- GRPCHandler.GetCustomer and GRPCHandler.ListCustomers.
  unfoldable pub grpc_get : {S : Type 0} → Querier S → S → Text → S × Answer ProtoCustomer
  unfolding map_domain_error_to_grpc
  grpc_get query s req_id = elim (parsers.parse_uuid req_id) [
    | err e ↦ (s, invalid (codes "invalid customer id") e)
    | ok id ↦
        let (after, answer) = query.get_by_id id s in
        elim answer [
          | err e ↦ (after, map_domain_error_to_grpc e)
          | ok c ↦ (after, answered (to_proto host.uuid_text parsers c))
        ]
  ]

  unfoldable pub grpc_list : {S : Type 0} → Querier S → S → S × Answer (List ProtoCustomer)
  unfolding map_domain_error_to_grpc
  grpc_list query s =
      let (after, answer) = query.list s in
      elim answer [
        | err e ↦ (after, map_domain_error_to_grpc e)
        | ok cs ↦ (after, answered (map (to_proto host.uuid_text parsers) cs))
      ]
