-- ===== src/Customer/Caching.antt =====
-- The cached query service against the plain one.
use go_blueprint.Customer.{Customer}
use go_blueprint.Customer.Repository.{CustomerRow}
use go_blueprint.Customer.Repository
use go_blueprint.Customer.World.{Host, Call, World}
use go_blueprint.Customer.Service.{cache_key_prefix, cache_key_list, invalidate}
use go_blueprint.Cache.{Redis, lookup, delete, get, set, erase, put, is_live}
use go_blueprint.Prelude.{
  ◌/◌, text_eq_refl, ℕ, ◌+◌, ◌≤◌, ◌<◌, ◌≡◌, refl, sym, ap, ◌∙◌, ◌⊎◌, inl, inr, Option, none, some,
  List, ◌++◌, arith, ◌==◌, if◌then◌else◌, Bool-cases, Option-cases, Text,
}
use go_blueprint.Customer.Query.{
  cache_aside, fill, list_ttl, base_list, CacheCall, cached_list, cached_get, base_get,
}
use go_blueprint.Customer.Coherence.{
  get_hit, lookup_later, lookup-erase, erase-Coherent, cache_aside-Coherent, Coherent-later,
  cache_aside_answers, RoundTrips, Coherent,
}
use go_blueprint.Errors.{
  lost, refused, Result-cases, settle, err, Fate, Result, no_rows, is, ok, done, Error,
}

-- Every live entry of a customer decodes to what the table holds.
abbrev pub CoherentTable :
    (Text → Option Customer) → (ℕ → Text) → List CustomerRow → ℕ → Redis → Type 0
CoherentTable decode uuid_text rows now cache =
    (i : ℕ) → Coherent decode (base_get none rows i) now (cache_key_prefix ++ uuid_text i) cache

-- An answer of the database is the same with and without failures.
base_get_agrees :
    (failure : Option Error) (rows : List CustomerRow) (id : ℕ) (c : Customer)
    → base_get failure rows id ≡ ok c
    → base_get none rows id ≡ ok c
unfolding base_get Repository.find_by_id
base_get_agrees none rows id c h = h
base_get_agrees (some e) rows id c h = elim (Bool-cases (is e no_rows)) [
  | inl gone ↦ cc (rw (gone, base_get) at h)
  | inr failed ↦ cc (rw (failed, base_get) at h)
]

module _ (encode : Customer → Option Text) (decode : Text → Option Customer)
    (uuid_text : ℕ → Text) where
  -- With a codec that reads what it wrote and ids that print apart, on a cache that is coherent with the
  -- table: whatever fails, GetByID answers what the database answers, or would have answered without
  -- its failure; and the cache stays coherent, for every customer and at every later time.
  pub cached_get_fresh :
      RoundTrips encode decode
      → ((i j : ℕ) → uuid_text i ≡ uuid_text j → i ≡ j)
      → (ttl : ℕ) (call : CacheCall) (failure : Option Error) (rows : List CustomerRow) (id : ℕ)
        (cache : Redis)
      → CoherentTable decode uuid_text rows call.now cache
      → (later : ℕ) → call.now ≤ later
      → (((cached_get encode decode uuid_text ttl call failure rows id cache).1
            ≡ base_get failure rows id)
          ⊎ ((cached_get encode decode uuid_text ttl call failure rows id cache).1
              ≡ base_get none rows id))
        × CoherentTable decode uuid_text rows later
            (cached_get encode decode uuid_text ttl call failure rows id cache).0
  unfolding cached_get
  cached_get_fresh round_trip uuid_inj ttl call failure rows id cache coherent later passed = (
    cache_aside_answers encode decode call (cache_key_prefix ++ uuid_text id) ttl
        (base_get failure rows id) (base_get none rows id) cache (coherent id),
    λ i.
        Coherent-later decode (base_get none rows i) call.now later
          (cache_key_prefix ++ uuid_text i) _ passed
          (cache_aside-Coherent encode decode round_trip call (cache_key_prefix ++ uuid_text id) ttl
            (base_get failure rows id) (base_get none rows i) (cache_key_prefix ++ uuid_text i)
            cache
            (λ a same h.
              base_get_agrees failure rows i a
                (ap (base_get failure rows) (sym (uuid_inj id i (cc same))) ∙ h))
            (coherent i)),
  )

invalidated :
    (host : Host) (call : Call) (w : World) (id : ℕ)
    → call.evict_one ≡ done
    → call.evict_list ≡ done
    → (invalidate host call w id).cache
      ≡ erase cache_key_list (erase (cache_key_prefix ++ host.uuid_text id) w.cache)
unfolding invalidate delete
invalidated host call w id one_done list_done = rw (one_done, list_done) refl

missed_twice {ℓ} : {A : Type ℓ} {a b : A} → (a ≡ b) ⊎ (a ≡ b) → a ≡ b
missed_twice (inl h) = h
missed_twice (inr h) = h

-- A key that is not in the cache is coherent with anything.
erased-Coherent :
    {A : Type 0} (decode : Text → Option A) (base : Result A) (now : ℕ) (key : Text) (cache : Redis)
    → Coherent decode base now key (erase key cache)
erased-Coherent decode base now key cache value a h read = cc (sym (lookup-erase now key cache) ∙ h)

-- After an invalidation whose two deletions took effect, GetByID of that customer and List answer what the
-- database answers now, whatever the cache held and whatever fails in it.
pub invalidate_refreshes :
    (encode : Customer → Option Text) (decode : Text → Option Customer)
    → (encode_list : List Customer → Option Text) (decode_list : Text → Option (List Customer))
    → (newest_first : List CustomerRow → List CustomerRow)
    → (host : Host) (call : Call) (w : World) (id : ℕ) → call.evict_one ≡ done
    → call.evict_list ≡ done
    → (ttl : ℕ) (reading : CacheCall) (failure : Option Error) (rows : List CustomerRow)
    → ((cached_get encode decode host.uuid_text ttl reading failure rows id
          (invalidate host call w id).cache).1
        ≡ base_get failure rows id)
      × ((cached_list encode_list decode_list newest_first ttl reading failure rows
            (invalidate host call w id).cache).1
          ≡ base_list newest_first failure rows)
unfolding cached_get cached_list
invalidate_refreshes encode decode encode_list decode_list newest_first host call w id one_done
      list_done ttl reading failure rows =
    let key = cache_key_prefix ++ host.uuid_text id in
    rw (invalidated host call w id one_done list_done) (
      missed_twice (
          cache_aside_answers encode decode reading key ttl (base_get failure rows id)
            (base_get failure rows id) _
            (erase-Coherent decode (base_get failure rows id) reading.now cache_key_list key _
              (erased-Coherent decode (base_get failure rows id) reading.now key w.cache))),
      missed_twice (
          cache_aside_answers encode_list decode_list reading cache_key_list (list_ttl ttl)
            (base_list newest_first failure rows) (base_list newest_first failure rows) _
            (erased-Coherent decode_list (base_list newest_first failure rows) reading.now
              cache_key_list _)),
    )

list_ttl_pos : (ttl : ℕ) → 0 < list_ttl ttl
list_ttl_pos ttl = ground arith

dead :
    (now later t : ℕ) (value : Text)
    → 0 < t
    → now + t ≤ later
    → (if is_live later
          (record { value = value; expires_at = if t == 0 then none else some (now + t) })
        then some value
        else none)
      ≡ none
dead now later t value positive passed = ground arith

still_missing :
    (now later : ℕ) (key : Text) (cache : Redis)
    → now ≤ later
    → lookup now key cache ≡ none
    → lookup later key cache ≡ none
still_missing now later key cache passed empty = elim (Option-cases (lookup later key cache)) [
  | inl missing ↦ missing
  | inr (value, found) ↦ cc (sym empty ∙ lookup_later now later key value cache passed found)
]

expired :
    (fate : Fate) (now later ttl : ℕ) (cache : Redis) (value : Text)
    → lookup now cache_key_list cache ≡ none
    → now + list_ttl ttl ≤ later
    → lookup later cache_key_list
        (settle fate cache (put now cache_key_list value (list_ttl ttl) cache))
      ≡ none
unfolding lookup
expired done now later ttl cache value empty passed =
    rw (text_eq_refl cache_key_list, lookup)
      (dead now later (list_ttl ttl) value (list_ttl_pos ttl) passed)
expired (refused e) now later ttl cache value empty passed =
    still_missing now later cache_key_list cache (omega arith) empty
expired (lost e) now later ttl cache value empty passed =
    rw (text_eq_refl cache_key_list, lookup)
      (dead now later (list_ttl ttl) value (list_ttl_pos ttl) passed)

fill_expires :
    {A : Type 0} (encode : A → Option Text) (decode : Text → Option A)
    → (call : CacheCall) (ttl : ℕ) (base : Result A) (cache : Redis) (later : ℕ)
    → lookup call.now cache_key_list cache ≡ none
    → call.now + list_ttl ttl ≤ later
    → lookup later cache_key_list
        (fill encode decode call cache_key_list (list_ttl ttl) base cache).0
      ≡ none
unfolding fill set
fill_expires encode decode call ttl (err e) cache later empty passed =
    still_missing call.now later cache_key_list cache (omega arith) empty
fill_expires encode decode call ttl (ok a) cache later empty passed =
    elim (Option-cases (encode a)) [
      | inl unprintable ↦
          rw (unprintable, fill)
            (still_missing call.now later cache_key_list cache (omega arith) empty)
      | inr (value, made) ↦
          rw (made, fill) (expired call.set_fate call.now later ttl cache value empty passed)
    ]

list_ttl_bound :
    (ttl now later : ℕ)
    → now + ttl / 5 ≤ later
    → now + 60_000_000_000 ≤ later
    → now + list_ttl ttl ≤ later
list_ttl_bound ttl now later fifth a_minute = ground (arith, fifth, a_minute)

-- If the cache has no live list: whatever fails, the list that List may put there is not served once its
-- lifetime has passed, a fifth of that of a customer, or a minute if that is longer.
pub list_expires :
    (encode : List Customer → Option Text) (decode : Text → Option (List Customer))
    → (newest_first : List CustomerRow → List CustomerRow)
    → (ttl : ℕ) (call : CacheCall) (failure : Option Error) (rows : List CustomerRow)
      (cache : Redis)
    → lookup call.now cache_key_list cache ≡ none
    → (later : ℕ) → call.now + ttl / 5 ≤ later
    → call.now + 60_000_000_000 ≤ later
    → lookup later cache_key_list
        (cached_list encode decode newest_first ttl call failure rows cache).0
      ≡ none
unfolding cached_list cache_aside
list_expires encode decode newest_first ttl call failure rows cache empty later fifth a_minute =
    elim (Result-cases (get call.get_failure call.now cache_key_list cache)) [
      | inl (value, hit) ↦
          cc (sym empty ∙ get_hit call.get_failure call.now cache_key_list value cache hit)
      | inr (e, missed) ↦
          rw (missed, cache_aside)
            (fill_expires encode decode call ttl (base_list newest_first failure rows) cache later
              empty (list_ttl_bound ttl call.now later fifth a_minute))
    ]
