-- ===== src/Product/Filters.antt =====
-- Which attribute filters a query string makes.
use go_blueprint.Prelude.{
  ltb→lt, ℕ, zero, suc, ◌+◌, ◌-◌, ◌<◌, ◌≡◌, refl, sym, ap, ◌∙◌, ◌⊎◌, ◌↔◌, inl, inr, Bool, true,
  false, ◌&&◌, Option, none, some, List, [], ◌∷◌, ◌++◌, arith, ltb, if◌then◌else◌, Bool-cases,
  Option-cases, is_none, Text, codes, text_eq, length,
}
use go_blueprint.Prelude.{take, text_eq_iff, text_eq_refl}
use go_blueprint.Product.Collection.{skip}
use go_blueprint.Product.Parameters.{parse_attribute_filters, ends_with, attribute_key}

abbrev pub lookup : {A : Type 0} → Text → List (Text × A) → Option A
lookup key [] = none
lookup key ((k, a) ∷ entries) = if text_eq k key then some a else lookup key entries

abbrev pub keys_apart : {A : Type 0} → List (Text × A) → Bool
keys_apart [] = true
keys_apart ((k, a) ∷ entries) = is_none (lookup k entries) && keys_apart entries

abbrev pub first_value : Option (List Text) → Option Text
first_value none = none
first_value (some []) = none
first_value (some (v ∷ vs)) = some v

-- The key of the filter on an attribute.
abbrev pub filter_key : Text → Text
filter_key a = codes "attributes[" ++ a ++ b']' ∷ []

ends_with_snoc : (b : ℕ) (s : Text) → ends_with b (s ++ b ∷ []) ≡ true
ends_with_snoc b [] = ground arith
ends_with_snoc b (c ∷ []) = ends_with_snoc b []
ends_with_snoc b (c ∷ d ∷ s) = ends_with_snoc b (d ∷ s)

length-snoc : (b : ℕ) (s : Text) → length (s ++ b ∷ []) ≡ suc (length s)
length-snoc b [] = refl
length-snoc b (c ∷ s) = ap suc (length-snoc b s)

take-snoc : (b : ℕ) (s : Text) → take (length s) (s ++ b ∷ []) ≡ s
take-snoc b [] = refl
take-snoc b (c ∷ s) = ap (λ t. c ∷ t) (take-snoc b s)

unsnoc : (b n : ℕ) (s : Text) → length s ≡ suc n → ends_with b s ≡ true → s ≡ take n s ++ b ∷ []
unsnoc b n [] k h = cc h
unsnoc b zero (c ∷ []) k h = ground arith
unsnoc b (suc n) (c ∷ []) k h = absurd (omega (arith, k))
unsnoc b zero (c ∷ d ∷ s) k h = absurd (omega (arith, k))
unsnoc b (suc n) (c ∷ d ∷ s) k h = ap (λ t. c ∷ t) (unsnoc b n (d ∷ s) (omega (arith, k)) h)

ends_with-skip :
    (b n : ℕ) (s : Text) → n < length s → ends_with b s ≡ true → ends_with b (skip n s) ≡ true
ends_with-skip b zero s k h = h
ends_with-skip b (suc n) [] k h = h
ends_with-skip b (suc n) (c ∷ []) k h = absurd (omega (arith, k))
ends_with-skip b (suc n) (c ∷ d ∷ s) k h = ends_with-skip b n (d ∷ s) (omega (arith, k)) h

take-skip : (n : ℕ) (s : Text) → s ≡ take n s ++ skip n s
take-skip zero s = refl
take-skip (suc n) [] = refl
take-skip (suc n) (c ∷ s) = ap (λ t. c ∷ t) (take-skip n s)

length-skip : (n m : ℕ) (s : Text) → length s ≡ n + m → length (skip n s) ≡ m
length-skip zero m s h = omega (arith, h)
length-skip (suc n) m [] h = omega (arith, h)
length-skip (suc n) m (c ∷ s) h = length-skip n m s (omega (arith, h))

attribute_key_iff :
    (k a : Text)
    → (attribute_key k ≡ some a) ↔ (
        (ltb 12 (length k) ≡ true)
        × (text_eq (take 11 k) (codes "attributes[") ≡ true)
        × (ends_with b']' k ≡ true)
        × (take (length k - 12) (skip 11 k) ≡ a))
unfolding attribute_key
attribute_key_iff k a = ground arith

attribute_key-filter_key : (c : ℕ) (a : Text) → attribute_key (filter_key (c ∷ a)) ≡ some (c ∷ a)
attribute_key-filter_key c a =
    let k = filter_key (c ∷ a) in
    let n : length k ≡ 13 + length a = omega (arith, length-snoc b']' a) in
    let m : length k - 12 ≡ suc (length a) = omega (arith, n) in
    (attribute_key_iff k (c ∷ a)).1 (
      ground (arith, n),
      text_eq_refl (codes "attributes["),
      ends_with_snoc b']' (c ∷ a),
      ap (λ i. take i (c ∷ a ++ b']' ∷ [])) m ∙ take-snoc b']' (c ∷ a),
    )

-- The key of a filter names what stands between its brackets.
filter_key-attribute_key : (k a : Text) → attribute_key k ≡ some a → k ≡ filter_key a
filter_key-attribute_key k a h =
    let (long, prefix, ends, inner) = (attribute_key_iff k a).0 h in
    let more : 12 < length k = ltb→lt 12 (length k) long in
    let n : length (skip 11 k) ≡ suc (length k - 12) =
      length-skip 11 (suc (length k - 12)) k (omega (arith, more)) in
    let tail : skip 11 k ≡ take (length k - 12) (skip 11 k) ++ b']' ∷ [] =
      unsnoc b']' (length k - 12) (skip 11 k) n
        (ends_with-skip b']' 11 k (omega (arith, more)) ends) in
    take-skip 11 k
    ∙ ap (λ s. s ++ skip 11 k) ((text_eq_iff (take 11 k) (codes "attributes[")).0 prefix)
    ∙ ap (λ s. codes "attributes[" ++ s) (tail ∙ ap (λ s. s ++ b']' ∷ []) inner)

-- Another key makes no filter on the attribute.
other_key :
    (k : Text) (c : ℕ) (a : Text)
    → text_eq k (filter_key (c ∷ a)) ≡ false
    → (attribute_key k ≡ none)
      ⊎ ((b : Text) × (attribute_key k ≡ some b) × (text_eq b (c ∷ a) ≡ false))
other_key k c a h = elim (Option-cases (attribute_key k)) [
  | inl nothing ↦ inl nothing
  | inr (b, named) ↦ elim (Bool-cases (text_eq b (c ∷ a))) [
    | inl same ↦ cc (
        sym h
        ∙ (text_eq_iff k (filter_key (c ∷ a))).1
            (filter_key-attribute_key k b named ∙ ap filter_key ((text_eq_iff b (c ∷ a)).0 same)))
    | inr differ ↦ inr (b, named, differ)
  ]
]

apart_head :
    {A : Type 0} (k : Text) (entries : List (Text × A))
    → (is_none (lookup k entries) && keys_apart entries) ≡ true
    → lookup k entries ≡ none
apart_head k entries h = ground arith

apart_rest :
    {A : Type 0} (k : Text) (entries : List (Text × A))
    → (is_none (lookup k entries) && keys_apart entries) ≡ true
    → keys_apart entries ≡ true
apart_rest k entries h = ground arith

named_filter :
    (c : ℕ) (a : Text) (params : List (Text × List Text))
    → keys_apart params ≡ true
    → lookup (c ∷ a) (parse_attribute_filters params)
      ≡ first_value (lookup (filter_key (c ∷ a)) params)
unfolding parse_attribute_filters
named_filter c a [] h = refl
named_filter c a ((k, []) ∷ params) h = elim (Bool-cases (text_eq k (filter_key (c ∷ a)))) [
  | inl same ↦
      let key = (text_eq_iff k (filter_key (c ∷ a))).0 same in
      rw (same, parse_attribute_filters)
        (named_filter c a params (apart_rest k params h)
          ∙ ap first_value (ap (λ q. lookup q params) (sym key) ∙ apart_head k params h))
  | inr differ ↦
      rw (differ, parse_attribute_filters) (named_filter c a params (apart_rest k params h))
]
named_filter c a ((k, v ∷ vs) ∷ params) h = elim (Bool-cases (text_eq k (filter_key (c ∷ a)))) [
  | inl same ↦
      let named =
        ap attribute_key ((text_eq_iff k (filter_key (c ∷ a))).0 same)
        ∙ attribute_key-filter_key c a in
      rw (same, parse_attribute_filters, named, text_eq_refl (c ∷ a)) refl
  | inr differ ↦ elim (other_key k c a differ) [
    | inl nothing ↦
        rw (differ, parse_attribute_filters, nothing)
          (named_filter c a params (apart_rest k params h))
    | inr (b, named, apart) ↦
        rw (differ, parse_attribute_filters, named, apart)
          (named_filter c a params (apart_rest k params h))
  ]
]

-- The key attributes[] names nothing.
attribute_key-named : (k : Text) → ¬ (attribute_key k ≡ some [])
attribute_key-named k h =
    let (long, prefix, ends, inner) = (attribute_key_iff k []).0 h in
    let n : length k ≡ 12 = ap length (filter_key-attribute_key k [] h) in
    absurd (omega (arith, ltb→lt 12 (length k) long, n))

no_empty_filter :
    (params : List (Text × List Text)) → lookup [] (parse_attribute_filters params) ≡ none
unfolding parse_attribute_filters text_eq
no_empty_filter [] = refl
no_empty_filter ((k, []) ∷ params) = no_empty_filter params
no_empty_filter ((k, v ∷ vs) ∷ params) = elim (Option-cases (attribute_key k)) [
  | inl nothing ↦ rw (nothing, parse_attribute_filters) (no_empty_filter params)
  | inr ([], named) ↦ absurd (attribute_key-named k named)
  | inr (b ∷ bs, named) ↦ rw (named, parse_attribute_filters) (no_empty_filter params)
]

-- If no parameter is given twice, a query string makes a filter on a named attribute exactly from the first value of
-- the parameter attributes[name]; and none with an empty name, as attributes[] would be.
pub filters_exact :
    (params : List (Text × List Text))
    → keys_apart params ≡ true
    → ((c : ℕ) (a : Text)
        → lookup (c ∷ a) (parse_attribute_filters params)
          ≡ first_value (lookup (filter_key (c ∷ a)) params))
      × (lookup [] (parse_attribute_filters params) ≡ none)
filters_exact params apart = (λ c a. named_filter c a params apart, no_empty_filter params)
