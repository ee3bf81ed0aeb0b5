-- ===== src/Product/Parameters.antt =====
-- How ListOrSearch of internal/product/handler.go reads the query string. A text here is the list of its bytes.
use go_blueprint.Prelude.{
  ℕ, zero, suc, ◌+◌, ◌-◌, ◌*◌, Bool, false, ◌&&◌, Option, none, some, List, [], ◌∷◌, ltb, leb, ◌==◌,
  if◌then◌else◌, Text, codes, text_eq, length,
}
use go_blueprint.Product.{ℤ, pos, negsuc}
use go_blueprint.Prelude.{take}
use go_blueprint.Product.Collection.{skip}

-- The loop of strconv.ParseUint in base 10, which stops at the first byte that decides.
pub data Scan : Type 0 where
  value : ℕ → Scan
  out_of_range bad_syntax : Scan

unfoldable pub scan_digits : ℕ → Text → Scan
scan_digits n [] = value n
scan_digits n (c ∷ s) =
    let next = n * 10 + (c - b'0') in
    let rest = scan_digits (n * 10 + (c - b'0')) s in
    if leb b'0' c && leb c b'9'
    then if ltb next 18_446_744_073_709_551_616 then rest else out_of_range
    else bad_syntax

abbrev pub scan_uint : Text → Scan
scan_uint [] = bad_syntax
scan_uint (c ∷ s) = scan_digits 0 (c ∷ s)

-- The number that strconv.Atoi gives beside its error, which the handler drops: 0 where the text is no
-- number, and the end of the range of int64 where it is out of it.
abbrev pub to_int : Scan → ℤ
to_int (value n) = if ltb n 9_223_372_036_854_775_808 then pos n else pos 9_223_372_036_854_775_807
to_int out_of_range = pos 9_223_372_036_854_775_807
to_int bad_syntax = pos 0

abbrev pub negated : ℕ → ℤ
negated zero = pos 0
negated (suc n) = negsuc n

abbrev pub to_negative : Scan → ℤ
to_negative (value n) =
    if ltb 9_223_372_036_854_775_808 n then negsuc 9_223_372_036_854_775_807 else negated n
to_negative out_of_range = negsuc 9_223_372_036_854_775_807
to_negative bad_syntax = pos 0

unfoldable pub atoi : Text → ℤ
unfolding scan_digits
atoi [] = pos 0
atoi (c ∷ s) =
    if c == b'-'
    then to_negative (scan_uint s)
    else if c == b'+'
    then to_int (scan_uint s)
    else to_int (scan_uint (c ∷ s))

-- `k[len(k)-1] == ']'`.
abbrev pub ends_with : ℕ → Text → Bool
ends_with b [] = false
ends_with b (c ∷ []) = c == b
ends_with b (c ∷ d ∷ s) = ends_with b (d ∷ s)

-- The attribute that a key of the query string names.
unfoldable pub attribute_key : Text → Option Text
attribute_key k =
    if ltb 12 (length k) && text_eq (take 11 k) (codes "attributes[") && ends_with b']' k
    then some (take (length k - 12) (skip 11 k))
    else none

-- parseAttributeFilters; a Go map is an association list with no key twice.
unfoldable pub parse_attribute_filters : List (Text × List Text) → List (Text × Text)
parse_attribute_filters [] = []
parse_attribute_filters ((k, []) ∷ params) = parse_attribute_filters params
parse_attribute_filters ((k, v ∷ vs) ∷ params) =
    let rest = parse_attribute_filters params in
    elim (attribute_key k) [ none ↦ rest | some a ↦ (a, v) ∷ rest ]
