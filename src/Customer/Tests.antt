-- ===== src/Customer/Tests.antt =====
-- Concrete commands and queries.
use go_blueprint.Customer.{Customer}
use go_blueprint.Customer.Repository.{CustomerRow, find_by_email}
use go_blueprint.Customer.World.{Host, Call, World, RegisterCmd, UpdateCmd}
use go_blueprint.Customer.Atomicity.{AllOrNothing, Registers, Updates, RemovesKnown}
use go_blueprint.Customer.AllOrNothing.{
  register-AllOrNothing, update-AllOrNothing, remove-AllOrNothing,
}
use go_blueprint.Errors.{text, Result, is, ok, is_ok, done}
use go_blueprint.Customer.Domain
use go_blueprint.Customer.Repository
use go_blueprint.Customer.Service
use go_blueprint.Customer.Caching.{
  CoherentTable, cached_get_fresh, invalidate_refreshes, list_expires,
}
use go_blueprint.Customer.Coherence.{RoundTrips}
use go_blueprint.Customer.Query.{CacheCall, base_get, base_list, cached_get, cached_list}
use go_blueprint.Customer.Http.{
  Parsers, Request, status, http_register, http_remove, http_error, read_request,
}
use go_blueprint.Customer.Grpc.{grpc_remove}
use go_blueprint.Customer.Replies.{matches, http_register_created, remove_replies_match}
use go_blueprint.Customer.Gaps.{taken_email_internal}
use go_blueprint.Prelude.Pairs.{write_two, read_two, read-write_two}
use go_blueprint.Outbox.Store
use go_blueprint.Prelude.{
  ℕ, ◌≡◌, refl, sym, ap, ◌∙◌, ◌⊎◌, true, Option, none, some, List, [], ◌∷◌, arith, Text, codes,
  text_eq, trim_space, to_lower, trim_left, trim_right, cons_unless_blank, lower_rune,
}
use go_blueprint.Cache.{lookup}

abbrev pub host : Host
host = record { lower = λ r. r; uuid_text = λ id. id ∷ []; to_json = λ fields. ok (codes "{}") }

abbrev pub call : Call
call = record {
  find_failure = none;
  email_failure = none;
  begin_failure = none;
  write_fate = done;
  outbox_fate = done;
  commit_fate = done;
  evict_one = done;
  evict_list = done;
  log_fate = done;
  checked_at = 1_000;
  stamped_at = 1_001;
  queued_at = 1_002;
  database_now = 1_003;
  logged_at = 1_004;
  customer_id = 7;
  message_id = 70;
  event_id = 700;
}

abbrev ann : Customer
ann = record {
  id = 3;
  name = codes "Ann";
  email = codes "ann@x.io";
  birth_date = 0;
  created_at = 10;
  updated_at = 10;
}

abbrev pub world : World
world = record {
  database = record { customers = Repository.to_row ann ∷ []; outbox = [] };
  cache = [];
  events = [];
  registrations = 0;
  removals = 0;
}

abbrev pub bob : RegisterCmd
bob = record { name = codes "Bob"; email = codes "Bob@x.io"; birth_date = 0 }

register-AllOrNothing_example :
    AllOrNothing world.database
      (Service.register host call world bob).0.database
      (is_ok (Service.register host call world bob).1)
      (Registers host call bob world.database (Service.register host call world bob).0.database)
register-AllOrNothing_example = register-AllOrNothing host call world bob

abbrev renamed : UpdateCmd
renamed = record { id = 3; name = codes "Anna"; email = codes "ann@x.io"; birth_date = 0 }

update-AllOrNothing_example :
    AllOrNothing world.database
      (Service.update host call world renamed).0.database
      (is_ok (Service.update host call world renamed).1)
      (Updates host call renamed world.database (Service.update host call world renamed).0.database)
update-AllOrNothing_example = update-AllOrNothing host call world renamed

remove-AllOrNothing_example :
    AllOrNothing world.database
      (Service.remove host call world 3).0.database
      (is_ok (Service.remove host call world 3).1)
      (RemovesKnown call 3 world.database (Service.remove host call world 3).0.database)
remove-AllOrNothing_example = remove-AllOrNothing host call world 3

-- A codec of customers, and one of lists that reads nothing back.
abbrev encode : Customer → Option Text
encode c = some (c.id ∷ c.birth_date ∷ c.created_at ∷ c.updated_at ∷ write_two c.name c.email)

abbrev decode : Text → Option Customer
decode (id ∷ birth_date ∷ created_at ∷ updated_at ∷ rest) = some (record {
  id = id;
  name = (read_two rest).0;
  email = (read_two rest).1;
  birth_date = birth_date;
  created_at = created_at;
  updated_at = updated_at;
})
decode _ = none

abbrev encode_list : List Customer → Option Text
encode_list cs = some []

abbrev decode_list : Text → Option (List Customer)
decode_list text = none

round_trip : RoundTrips encode decode
round_trip c written h =
    let same : (c.id ∷ c.birth_date ∷ c.created_at ∷ c.updated_at ∷ write_two c.name c.email)
        ≡ written =
      cc h in
    ap decode (sym same) ∙ rw (read-write_two c.name c.email) refl

abbrev reading : CacheCall
reading = record { get_failure = none; evict_fate = done; set_fate = done; now = 50 }

no_entries : CoherentTable decode host.uuid_text world.database.customers 50 []
unfolding lookup
no_entries i value c h read = cc h

cached_get_fresh_example :
    (((cached_get encode decode host.uuid_text 300 reading none world.database.customers 3 []).1
        ≡ base_get none world.database.customers 3)
      ⊎ ((cached_get encode decode host.uuid_text 300 reading none world.database.customers 3 []).1
          ≡ base_get none world.database.customers 3))
    × CoherentTable decode host.uuid_text world.database.customers 60
        (cached_get encode decode host.uuid_text 300 reading none world.database.customers 3 []).0
cached_get_fresh_example =
    cached_get_fresh encode decode host.uuid_text round_trip (λ i j h. cc h) 300 reading none
      world.database.customers 3 [] no_entries 60 (omega arith)

abbrev stale_world : World
stale_world = record world {
  cache = (codes "customer:list", record { value = codes "[]"; expires_at = none }) ∷ [];
}

invalidate_refreshes_example :
    ((cached_get encode decode host.uuid_text 300 reading none [] 3
        (Service.invalidate host call stale_world 3).cache).1
      ≡ base_get none [] 3)
    × ((cached_list encode_list decode_list
          (λ rs. rs)
          300
          reading
          none
          []
          (Service.invalidate host call stale_world 3).cache).1
        ≡ base_list (λ rs. rs) none [])
invalidate_refreshes_example =
    invalidate_refreshes encode decode encode_list decode_list (λ rs. rs) host call stale_world 3
      refl refl 300 reading none []

list_expires_example :
    lookup 70_000_000_000
      (codes "customer:list")
      (cached_list encode_list decode_list
        (λ rs. rs)
        300
        reading
        none
        world.database.customers
        []).0
    ≡ none
unfolding lookup
list_expires_example =
    list_expires encode_list decode_list (λ rs. rs) 300 reading none world.database.customers []
      refl 70_000_000_000 (omega arith) (omega arith)

abbrev parsers : Parsers
parsers = record {
  validate = λ req. ok tt;
  parse_date = λ text. ok 0;
  parse_uuid = λ text. ok 3;
  format_date = λ t. t ∷ [];
  format_time = λ t. t ∷ [];
}

abbrev request : Request
request = record { name = codes "Bob"; email = codes "Bob@x.io"; birth_date = codes "1990-01-01" }

http_register_created_example :
    (req : Request) × (date : ℕ) × (◌≡◌ {A = Result Request} (ok request) (ok req))
    × (parsers.parse_date req.birth_date ≡ ok date)
    × Registers host call
        (record { name = req.name; email = req.email; birth_date = date })
        world.database
        (http_register host parsers call world (ok request)).0.database
unfolding http_register read_request Service.register Service.register_new Service.register_body
    Service.transact Service.append_outbox Repository.find_by_email Repository.save_tx
    Repository.create_customer Domain.new Domain.validate_name Domain.validate_email
    Domain.validate_birth_date is trim_space trim_left trim_right cons_unless_blank to_lower
    lower_rune text_eq Service.append_event Store.save_tx
http_register_created_example = http_register_created host parsers call world (ok request) refl

remove_replies_match_example :
    ((http_remove host parsers call world (codes "3")).0
      ≡ (grpc_remove host parsers call world (codes "3")).0)
    × ((matches
            (grpc_remove host parsers call world (codes "3")).1
            (status (http_remove host parsers call world (codes "3")).1)
          ≡ true)
        ⊎ ((http_remove host parsers call world (codes "3")).1
            ≡ http_error 500 (codes "internal error")))
remove_replies_match_example = remove_replies_match host parsers call world (codes "3")

abbrev loud : Request
loud = record { name = codes "Ann"; email = codes "ANN@x.io"; birth_date = codes "1990-01-01" }

taken_email_internal_example :
    http_register host parsers call world (ok loud)
    ≡ (world, http_error 500 (codes "internal error"))
unfolding Repository.find_by_email is trim_space trim_left trim_right cons_unless_blank to_lower
    lower_rune text_eq
taken_email_internal_example =
    taken_email_internal host parsers call world loud 0 refl refl refl refl refl refl refl refl refl
