-- ===== src/Cache.antt =====
-- internal/platform/cache: the Cache interface, NoopCache and RedisCache.
-- Redis is an association list from keys to entries; `now` is its clock, and a call may fail.
use go_blueprint.Prelude.{
  is_empty, text_eq, ℕ, ◌+◌, Bool, true, Option, none, some, List, [], ◌∷◌, ltb, ◌==◌,
  if◌then◌else◌, Text, codes,
}
use go_blueprint.Errors.{
  wrap, reply, cache_miss, redis_nil, sentinel, within, settle, ok, err, Error, Result, is, Fate,
}

-- An entry with TTL zero never expires.
pub record Entry : Type 0 where
  pub value : Text
  pub expires_at : Option ℕ

abbrev pub Redis : Type 0
Redis = List (Text × Entry)

abbrev pub is_live : ℕ → Entry → Bool
is_live now entry = elim entry.expires_at [ none ↦ true | some at ↦ ltb now at ]

-- GET: the entry of a key that has not expired.
unfoldable pub lookup : ℕ → Text → Redis → Option Text
lookup now key [] = none
lookup now key ((k, entry) ∷ rest) =
    if text_eq k key
    then (if is_live now entry then some entry.value else none)
    else lookup now key rest

-- DEL.
unfoldable pub erase : Text → Redis → Redis
erase key [] = []
erase key ((k, entry) ∷ rest) =
    if text_eq k key then erase key rest else (k, entry) ∷ erase key rest

-- SET with a TTL.
abbrev pub put : ℕ → Text → Text → ℕ → Redis → Redis
put now key value ttl store =
    (key, record { value = value; expires_at = if ttl == 0 then none else some (now + ttl) })
    ∷ erase key store

-- What the driver answers to GET: redis.Nil for a key that is not there.
abbrev pub driver_get : Option Error → Option Text → Result Text
driver_get (some e) found = err e
driver_get none none = err (sentinel redis_nil)
driver_get none (some v) = ok v

-- RedisCache.Get.
unfoldable pub get : Option Error → ℕ → Text → Redis → Result Text
unfolding is lookup
get failure now key store = elim (driver_get failure (lookup now key store)) [
  | ok v ↦ ok v
  | err e ↦ if is e redis_nil then err (sentinel cache_miss) else err (wrap (codes "cache.Get") e)
]

-- RedisCache.Set.
unfoldable pub set : Fate → ℕ → Text → Text → ℕ → Redis → Redis × Result (Unit {0})
unfolding erase
set fate now key value ttl store =
    (settle fate store (put now key value ttl store), within (codes "cache.Set") (reply fate))

-- RedisCache.Delete.
unfoldable pub delete : Fate → Text → Redis → Redis × Result (Unit {0})
unfolding erase
delete fate key store =
    (settle fate store (erase key store), within (codes "cache.Delete") (reply fate))

-- NoopCache: Get always misses.
pub noop_get : Text → Result Text
noop_get key = err (sentinel cache_miss)

-- NoopCache: Set, Delete and Ping do nothing.
abbrev pub noop_set : Text → Text → ℕ → Result (Unit {0})
noop_set key value ttl = ok tt

abbrev pub noop_delete : Text → Result (Unit {0})
noop_delete key = ok tt

abbrev pub noop_ping : Result (Unit {0})
noop_ping = ok tt

-- RedisCache.Ping, by what the driver answers, and the ping of NewRedisCache.
abbrev pub ping : Result (Unit {0}) → Result (Unit {0})
ping answer = within (codes "cache.Ping") answer

abbrev pub new_redis_cache : Result (Unit {0}) → Result (Unit {0})
new_redis_cache answer = within (codes "cache.NewRedisCache: ping failed") answer

-- Which cache main takes: Redis, if there is an address and it answers.
pub data Backend : Type 0 where
  noop redis : Backend

abbrev pub choose_cache : Text → Result (Unit {0}) → Backend
choose_cache addr answer =
    if is_empty addr then noop else elim (new_redis_cache answer) [ ok _ ↦ redis | err e ↦ noop ]
