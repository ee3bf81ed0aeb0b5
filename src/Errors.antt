-- ===== src/Errors.antt =====
-- Go errors as values: sentinels made by errors.New, wrapping by fmt.Errorf with %w, errors.Join and
-- errors.Is. The sentinels are those that the program declares, and those of the drivers that it tests
-- for. `Fate` is the answer of a call that leaves the process.
use go_blueprint.Prelude.{
  refl, inr, inl, ◌⊎◌, ℕ, ◌≡◌, Bool, true, false, ◌||◌, Option, none, some, ◌++◌, arith, ◌==◌, Text,
  codes,
}

pub data Sentinel : Type 0 where
  customer_not_found customer_email_exists invalid_birth_date : Sentinel
  customer_name_required customer_email_required preferences_not_found : Sentinel
  user_not_found user_email_exists invalid_password invalid_token : Sentinel
  user_email_required user_name_required password_too_short : Sentinel
  product_not_found sku_exists invalid_category no_variants : Sentinel
  product_name_required price_negative : Sentinel
  cache_miss pool_full : Sentinel
  no_rows redis_nil no_documents : Sentinel

-- A sentinel is a pointer: two are the same error only if they are the same variable.
abbrev pub tag : Sentinel → ℕ
tag customer_not_found = 0
tag customer_email_exists = 1
tag invalid_birth_date = 2
tag customer_name_required = 3
tag customer_email_required = 4
tag preferences_not_found = 5
tag user_not_found = 6
tag user_email_exists = 7
tag invalid_password = 8
tag invalid_token = 9
tag user_email_required = 10
tag user_name_required = 11
tag password_too_short = 12
tag product_not_found = 13
tag sku_exists = 14
tag invalid_category = 15
tag no_variants = 16
tag product_name_required = 17
tag price_negative = 18
tag cache_miss = 19
tag pool_full = 20
tag no_rows = 21
tag redis_nil = 22
tag no_documents = 23

-- The text given to errors.New. The drivers' own texts are never shown to a client.
abbrev pub message : Sentinel → Text
message customer_not_found = codes "customer not found"
message customer_email_exists = codes "email already registered"
message invalid_birth_date = codes "birth date cannot be in the future"
message customer_name_required = codes "name is required"
message customer_email_required = codes "email is required"
message preferences_not_found = codes "customer preferences not found"
message user_not_found = codes "user not found"
message user_email_exists = codes "email already registered"
message invalid_password = codes "invalid password"
message invalid_token = codes "invalid or expired token"
message user_email_required = codes "email is required"
message user_name_required = codes "name is required"
message password_too_short = codes "password must be at least 8 characters"
message product_not_found = codes "product not found"
message sku_exists = codes "SKU already registered"
message invalid_category = codes "invalid product category"
message no_variants = codes "product must have at least one variant"
message product_name_required = codes "product name is required"
message price_negative = codes "price cannot be negative"
message cache_miss = codes "cache miss"
message pool_full = codes "worker pool queue is full"
message no_rows = codes "no rows in result set"
message redis_nil = codes "redis: nil"
message no_documents = codes "mongo: no documents in result"

-- `opaque` is an error of another package, known by its text only.
pub data Error : Type 0 where
  sentinel : Sentinel → Error
  opaque : Text → Error
  wrap : Text → Error → Error
  join : Error → Error → Error

-- errors.Is.
unfoldable pub is : Error → Sentinel → Bool
is (sentinel t) s = tag t == tag s
is (opaque m) s = false
is (wrap context e) s = is e s
is (join e f) s = is e s || is f s

-- err.Error().
pub text : Error → Text
text (sentinel s) = message s
text (opaque m) = m
text (wrap context e) = context ++ codes ": " ++ text e
text (join e f) = text e ++ codes "\n" ++ text f

-- errors.Join(e, f), where e is not nil.
abbrev pub joined : Error → Option Error → Error
joined e none = e
joined e (some f) = join e f

pub data Result {ℓ} (A : Type ℓ) : Type ℓ where
  ok : A → Result A
  err : Error → Result A

-- The chain of calls that stops at the first error.
infixl 5 ◌>>=◌ ◌>>◌
abbrev pub ◌>>=◌ {ℓ κ} : {B : Type ℓ} {C : Type κ} → Result B → (B → Result C) → Result C
err failure >>= next = err failure
ok value >>= next = next value

-- The same, where the first call has no value.
abbrev pub ◌>>◌ {κ} : {C : Type κ} → Result (Unit {0}) → Result C → Result C
first >> after = first >>= λ nothing. after

-- `if err != nil { return fmt.Errorf("context: %w", err) }`.
abbrev pub within {ℓ} : {A : Type ℓ} → Text → Result A → Result A
within context (ok a) = ok a
within context (err e) = err (wrap context e)

abbrev pub error_of {ℓ} : {A : Type ℓ} → Result A → Option Error
error_of (ok a) = none
error_of (err e) = some e

abbrev pub is_ok {ℓ} : {A : Type ℓ} → Result A → Bool
is_ok (ok a) = true
is_ok (err e) = false

-- A call that leaves the process: it took effect and said so, it failed with no effect, or it took
-- effect and the answer was lost.
pub data Fate : Type 0 where
  done : Fate
  refused : Error → Fate
  lost : Error → Fate

-- The state after the call, from the one before and the one that the call aims at.
abbrev pub settle {ℓ} : {S : Type ℓ} → Fate → S → S → S
settle done before after = after
settle (refused e) before after = before
settle (lost e) before after = after

abbrev pub reply : Fate → Result (Unit {0})
reply done = ok tt
reply (refused e) = err e
reply (lost e) = err e

pub is_self : (s : Sentinel) → is (sentinel s) s ≡ true
unfolding is
is_self s = ground arith

-- Equal tags are equal sentinels.
pub tag_inj : (s t : Sentinel) → tag s ≡ tag t → s ≡ t
tag_inj s t h = grind arith

-- The call failed, and its error is the sentinel for errors.Is.
abbrev pub fails_as {ℓ} : {A : Type ℓ} → Result A → Sentinel → Bool
fails_as (ok a) s = false
fails_as (err e) s = is e s

pub Result-cases {ℓ} :
    {A : Type ℓ} (r : Result A) → ((a : A) × (r ≡ ok a)) ⊎ ((e : Error) × (r ≡ err e))
Result-cases (ok a) = inl (a, refl)
Result-cases (err e) = inr (e, refl)
