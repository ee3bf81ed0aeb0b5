-- ===== src/Customer/Coherence.antt =====
-- The cache of customers against the table: coherent entries, the answers they give, and how they end.
use go_blueprint.Cache.{set, delete, is_live, put, Redis, lookup, get, erase}
use go_blueprint.Prelude.{
  ap, text_eq_refl, ◌+◌, ◌==◌, text_eq_iff, text_eq, ℕ, ◌≤◌, ◌≡◌, refl, sym, ◌∙◌, ◌⊎◌, inl, inr,
  Bool, true, false, Option, none, some, [], ◌∷◌, arith, ltb, if◌then◌else◌, Bool-cases,
  Option-cases, Text,
}
use go_blueprint.Errors.{done, lost, refused, settle, Fate, Error, err, Result-cases, ok, Result}
use go_blueprint.Customer.Query.{CacheCall, fill, cache_aside}

-- An entry of the key, live at that time, decodes to an answer that the database gives, or not at all.
abbrev pub Coherent : {A : Type 0} → (Text → Option A) → Result A → ℕ → Text → Redis → Type 0
Coherent {A} decode base now key cache =
    (value : Text) (a : A) → lookup now key cache ≡ some value → decode value ≡ some a → base ≡ ok a

pub lookup-erase : (now : ℕ) (key : Text) (cache : Redis) → lookup now key (erase key cache) ≡ none
unfolding lookup erase
lookup-erase now key [] = refl
lookup-erase now key ((k, entry) ∷ rest) = ground (arith, lookup-erase now key rest)

lookup-erase_other :
    (now : ℕ) (key other : Text) (cache : Redis)
    → text_eq key other ≡ false
    → lookup now other (erase key cache) ≡ lookup now other cache
unfolding lookup erase
lookup-erase_other now key other [] h = refl
lookup-erase_other now key other ((k, entry) ∷ rest) h = elim (Bool-cases (text_eq k key)) [
  | inl same ↦
      let k_is : k ≡ key = (text_eq_iff k key).0 same in
      let differ : text_eq k other ≡ false = rw k_is h in
      rw (same, differ, erase, lookup) (lookup-erase_other now key other rest h)
  | inr kept ↦ elim (Bool-cases (text_eq k other)) [
    | inl hit ↦ rw (kept, hit, erase, lookup) refl
    | inr miss ↦ rw (kept, miss, erase, lookup) (lookup-erase_other now key other rest h)
  ]
]

abbrev in_time : ℕ → Option ℕ → Bool
in_time now expires = elim expires [ none ↦ true | some at ↦ ltb now at ]

live_earlier :
    (now later : ℕ) (expires : Option ℕ) (entry_value value : Text)
    → now ≤ later
    → (if in_time later expires then some entry_value else none) ≡ some value
    → (if in_time now expires then some entry_value else none) ≡ some value
live_earlier now later none entry_value value passed h = h
live_earlier now later (some at) entry_value value passed h = ground arith

-- Time only takes entries away.
pub lookup_later :
    (now later : ℕ) (key value : Text) (cache : Redis)
    → now ≤ later
    → lookup later key cache ≡ some value
    → lookup now key cache ≡ some value
unfolding lookup
lookup_later now later key value [] passed h = h
lookup_later now later key value ((k, entry) ∷ rest) passed h = elim (Bool-cases (text_eq k key)) [
  | inl hit ↦
      rw (hit, lookup)
        (live_earlier now later entry.expires_at entry.value value passed (rw (hit, lookup) at h))
  | inr miss ↦
      rw (miss, lookup) (lookup_later now later key value rest passed (rw (miss, lookup) at h))
]

pub get_hit :
    (failure : Option Error) (now : ℕ) (key value : Text) (cache : Redis)
    → get failure now key cache ≡ ok value
    → lookup now key cache ≡ some value
unfolding get
get_hit (some e) now key value cache h = ground arith
get_hit none now key value cache h = elim (Option-cases (lookup now key cache)) [
  | inl missing ↦ cc (rw (missing, get) at h)
  | inr (v, found) ↦ found ∙ cc (rw (found, get) at h)
]

fill_answers :
    {A : Type 0} (encode : A → Option Text) (call : CacheCall) (key : Text) (ttl : ℕ)
    (base : Result A) (cache : Redis)
    → (decode : Text → Option A) → (fill encode decode call key ttl base cache).1 ≡ base
unfolding fill
fill_answers encode call key ttl (err e) cache decode = refl
fill_answers encode call key ttl (ok a) cache decode = elim (Option-cases (encode a)) [
  | inl unprintable ↦ rw (unprintable, fill) refl
  | inr (value, made) ↦ rw (made, fill) refl
]

module _ {A : Type 0} (encode : A → Option Text) (decode : Text → Option A) where
  -- The answer of the steps is the database's answer of this call, or the answer that the entry stood for.
  pub cache_aside_answers :
      (call : CacheCall) (key : Text) (ttl : ℕ) (base fresh : Result A) (cache : Redis)
      → Coherent decode fresh call.now key cache
      → ((cache_aside encode decode call key ttl base cache).1 ≡ base)
        ⊎ ((cache_aside encode decode call key ttl base cache).1 ≡ fresh)
  unfolding cache_aside
  cache_aside_answers call key ttl base fresh cache coherent =
      elim (Result-cases (get call.get_failure call.now key cache)) [
        | inr (e, missed) ↦
            inl (rw (missed, cache_aside) (fill_answers encode call key ttl base cache decode))
        | inl (value, hit) ↦ elim (Option-cases (decode value)) [
          | inl corrupted ↦
              inl
                (rw (hit, corrupted, cache_aside) (fill_answers encode call key ttl base _ decode))
          | inr (a, read) ↦ inr (
              rw (hit, read, cache_aside)
                (sym
                  (coherent value a (get_hit call.get_failure call.now key value cache hit) read)))
        ]
      ]

pub Coherent-later :
    {A : Type 0} (decode : Text → Option A) (base : Result A) (now later : ℕ) (key : Text)
    (cache : Redis)
    → now ≤ later
    → Coherent decode base now key cache
    → Coherent decode base later key cache
Coherent-later decode base now later key cache passed coherent value a h read =
    coherent value a (lookup_later now later key value cache passed h) read

lookup-put :
    (at now : ℕ) (key value : Text) (ttl : ℕ) (cache : Redis) {found : Text}
    → lookup at key (put now key value ttl cache) ≡ some found
    → value ≡ found
unfolding lookup
lookup-put at now key value ttl cache h =
    live_value
      (is_live at
        (record { value = value; expires_at = if ttl == 0 then none else some (now + ttl) }))
      (rw (text_eq_refl key, lookup) at h)
  where
    live_value : {v w : Text} (live : Bool) → (if live then some v else none) ≡ some w → v ≡ w
    live_value true h = cc h
    live_value false h = cc h

pub erase-Coherent :
    {A : Type 0} (decode : Text → Option A) (base : Result A) (now : ℕ) (key other : Text)
    (cache : Redis)
    → Coherent decode base now other cache
    → Coherent decode base now other (erase key cache)
erase-Coherent decode base now key other cache coherent value a h read =
    elim (Bool-cases (text_eq key other)) [
      | inl same ↦
          let key_is : key ≡ other = (text_eq_iff key other).0 same in
          let gone : lookup now other (erase key cache) ≡ none =
            ap (λ k. lookup now k (erase key cache)) (sym key_is) ∙ lookup-erase now key cache in
          cc (sym gone ∙ h)
      | inr differ ↦ coherent value a (sym (lookup-erase_other now key other cache differ) ∙ h) read
    ]

put-Coherent :
    {A : Type 0} (decode : Text → Option A) (base : Result A) (now : ℕ) (key other : Text)
    (text : Text) (ttl : ℕ) (cache : Redis)
    → ((a : A) → key ≡ other → decode text ≡ some a → base ≡ ok a)
    → Coherent decode base now other cache
    → Coherent decode base now other (put now key text ttl cache)
unfolding lookup
put-Coherent decode base now key other text ttl cache sound coherent value a h read =
    elim (Bool-cases (text_eq key other)) [
      | inl same ↦
          let key_is : key ≡ other = (text_eq_iff key other).0 same in
          let written =
            lookup-put now now key text ttl cache
              (ap (λ k. lookup now k (put now key text ttl cache)) key_is ∙ h) in
          sound a key_is (ap decode written ∙ read)
      | inr differ ↦
          erase-Coherent decode base now key other cache coherent value a (rw (differ, lookup) at h)
            read
    ]

settle-Coherent :
    {A : Type 0} (decode : Text → Option A) (base : Result A) (now : ℕ) (key : Text) (fate : Fate)
    (before after : Redis)
    → Coherent decode base now key before
    → Coherent decode base now key after
    → Coherent decode base now key (settle fate before after)
settle-Coherent decode base now key done before after old new = new
settle-Coherent decode base now key (refused e) before after old new = old
settle-Coherent decode base now key (lost e) before after old new = new

-- What json.Unmarshal does with what json.Marshal wrote.
abbrev pub RoundTrips : {A : Type 0} → (A → Option Text) → (Text → Option A) → Type 0
RoundTrips {A} encode decode = (a : A) (text : Text) → encode a ≡ some text → decode text ≡ some a

module _ {A : Type 0} (encode : A → Option Text) (decode : Text → Option A)
    (round_trip : RoundTrips encode decode) where
  fill-Coherent :
      (call : CacheCall) (key : Text) (ttl : ℕ) (base fresh : Result A) (other : Text)
      (cache : Redis)
      → ((a : A) → key ≡ other → base ≡ ok a → fresh ≡ ok a)
      → Coherent decode fresh call.now other cache
      → Coherent decode fresh call.now other (fill encode decode call key ttl base cache).0
  unfolding fill set
  fill-Coherent call key ttl (err e) fresh other cache agree coherent = coherent
  fill-Coherent call key ttl (ok b) fresh other cache agree coherent =
      elim (Option-cases (encode b)) [
        | inl unprintable ↦ rw (unprintable, fill) coherent
        | inr (text, made) ↦
            rw (made, fill)
              (settle-Coherent decode fresh call.now other call.set_fate cache _ coherent (
                put-Coherent decode fresh call.now key other text ttl cache
                  (λ a same read. agree a same (cc (round_trip b text made, read))) coherent))
      ]

  pub cache_aside-Coherent :
      (call : CacheCall) (key : Text) (ttl : ℕ) (base fresh : Result A) (other : Text)
      (cache : Redis)
      → ((a : A) → key ≡ other → base ≡ ok a → fresh ≡ ok a)
      → Coherent decode fresh call.now other cache
      → Coherent decode fresh call.now other (cache_aside encode decode call key ttl base cache).0
  unfolding cache_aside delete
  cache_aside-Coherent call key ttl base fresh other cache agree coherent =
      elim (Result-cases (get call.get_failure call.now key cache)) [
        | inr (e, missed) ↦
            rw (missed, cache_aside)
              (fill-Coherent call key ttl base fresh other cache agree coherent)
        | inl (value, hit) ↦ elim (Option-cases (decode value)) [
          | inl corrupted ↦
              rw (hit, corrupted, cache_aside)
                (fill-Coherent call key ttl base fresh other _ agree (
                  settle-Coherent decode fresh call.now other call.evict_fate cache _ coherent
                    (erase-Coherent decode fresh call.now key other cache coherent)))
          | inr (a, read) ↦ rw (hit, read, cache_aside) coherent
        ]
      ]
