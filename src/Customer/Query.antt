-- ===== src/Customer/Query.antt =====
-- internal/customer/query.go: the query side, plain and behind the cache. `encode` and `decode` are
-- json.Marshal and json.Unmarshal at the type of the answer.
use go_blueprint.Customer.{Customer}
use go_blueprint.Customer.Repository.{CustomerRow}
use go_blueprint.Customer.Repository
use go_blueprint.Customer.Service.{cache_key_prefix, cache_key_list}
use go_blueprint.Cache.{Redis, delete, get, set}
use go_blueprint.Prelude.{◌/◌, ℕ, Option, none, some, List, ◌++◌, leb, if◌then◌else◌, Text, codes}
use go_blueprint.Errors.{ok, within, err, Fate, Result, Error}

-- QueryService.GetByID and QueryService.List.
unfoldable pub base_get : Option Error → List CustomerRow → ℕ → Result Customer
base_get failure rows id =
    within (codes "customer.QueryService.GetByID") (Repository.find_by_id failure rows id)

unfoldable pub base_list :
    (List CustomerRow → List CustomerRow) → Option Error → List CustomerRow → Result (List Customer)
base_list newest_first failure rows =
    within (codes "customer.QueryService.List") (Repository.list newest_first failure rows)

-- What the calls of the cache meet, and its clock.
pub record CacheCall : Type 0 where
  pub get_failure : Option Error
  pub evict_fate : Fate
  pub set_fate : Fate
  pub now : ℕ

-- NewCachedQueryService: the lifetime of the list is a fifth of that of a customer, a minute at least.
-- A lifetime is in nanoseconds.
abbrev pub minute : ℕ
minute = 60_000_000_000

abbrev pub list_ttl : ℕ → ℕ
list_ttl ttl = if leb minute (ttl / 5) then ttl / 5 else minute

module _ {A : Type 0} (encode : A → Option Text) (decode : Text → Option A) where
  -- After a miss: the answer of the database, written to the cache if it is one.
  unfoldable pub fill : CacheCall → Text → ℕ → Result A → Redis → Redis × Result A
  fill call key ttl (err e) cache = (cache, err e)
  fill call key ttl (ok a) cache = elim (encode a) [
    | none ↦ (cache, ok a)
    | some value ↦ ((set call.set_fate call.now key value ttl cache).0, ok a)
  ]

  -- The steps that GetByID and List share: an entry that decodes is the answer, one that does not is
  -- evicted, and a failure of the cache is a miss.
  unfoldable pub cache_aside : CacheCall → Text → ℕ → Result A → Redis → Redis × Result A
  unfolding fill
  cache_aside call key ttl base cache = elim (get call.get_failure call.now key cache) [
    | err e ↦ fill call key ttl base cache
    | ok value ↦ elim (decode value) [
      | some a ↦ (cache, ok a)
      | none ↦ fill call key ttl base (delete call.evict_fate key cache).0
    ]
  ]

-- CachedQueryService.GetByID and CachedQueryService.List.
unfoldable pub cached_get :
    (Customer → Option Text)
    → (Text → Option Customer)
    → (ℕ → Text)
    → ℕ
    → CacheCall
    → Option Error
    → List CustomerRow
    → ℕ
    → Redis
    → Redis × Result Customer
unfolding base_get cache_aside
cached_get encode decode uuid_text ttl call failure rows id cache =
    cache_aside encode decode call (cache_key_prefix ++ uuid_text id) ttl (base_get failure rows id)
      cache

unfoldable pub cached_list :
    (List Customer → Option Text)
    → (Text → Option (List Customer))
    → (List CustomerRow → List CustomerRow)
    → ℕ
    → CacheCall
    → Option Error
    → List CustomerRow
    → Redis
    → Redis × Result (List Customer)
unfolding base_list cache_aside
cached_list encode decode newest_first ttl call failure rows cache =
    cache_aside encode decode call cache_key_list (list_ttl ttl)
      (base_list newest_first failure rows) cache
