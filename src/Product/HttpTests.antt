-- ===== src/Product/HttpTests.antt =====
-- The product routes on concrete requests.
use go_blueprint.Prelude.{
  ℕ, ◌≤◌, ◌≡◌, refl, true, false, not, ◌&&◌, ◌||◌, none, some, List, [], ◌∷◌, arith, ◌==◌, Text,
  codes, text_eq, length, is_empty,
}
use mathlib.Core.List.Perm
use go_blueprint.Product.Service
use go_blueprint.Product.Parameters.{atoi, attribute_key, scan_digits, parse_attribute_filters}
use go_blueprint.Product.Filters.{lookup, first_value, filter_key, filters_exact}
use go_blueprint.Product.Pages.{http_list_sound}
use go_blueprint.Product.Shop.{create_then_get}
use go_blueprint.Product.Archived.{archived_hidden}
use go_blueprint.Product.Tests.{call, mongo, stored, blue}
use go_blueprint.Product.Http.{
  to_variants, Codec, Query, CreateRequest, ProductResponse, http_list, http_get, http_create,
  http_archive, to_product_response,
}
use go_blueprint.Product.Collection
use go_blueprint.Product.Listing.{IsMongo}
use go_blueprint.Prelude.Every.{all}
use go_blueprint.Customer.Http.{replied}
use go_blueprint.Errors.{ok, err, Error, Result}
use go_blueprint.Product.{negsuc, Product, pos}

abbrev params : List (Text × List Text)
params =
    (codes "attributes[color]", codes "red" ∷ codes "blue" ∷ [])
    ∷ (codes "attributes[]", codes "x" ∷ [])
    ∷ (codes "limit", codes "-3" ∷ [])
    ∷ []

filters_exact_example :
    ((c : ℕ) (a : Text)
      → lookup (c ∷ a) (parse_attribute_filters params)
        ≡ first_value (lookup (filter_key (c ∷ a)) params))
    × (lookup [] (parse_attribute_filters params) ≡ none)
unfolding text_eq
filters_exact_example = filters_exact params refl

filters_color : lookup (codes "color") (parse_attribute_filters params) ≡ some (codes "red")
unfolding text_eq
filters_color = (filters_exact params refl).0 b'c' (codes "olor")

atoi_clamps :
    (atoi (codes "99999999999999999999x") ≡ pos 9_223_372_036_854_775_807)
    × (atoi (codes "7x") ≡ pos 0)
    × (atoi (codes "-12") ≡ negsuc 11)
unfolding atoi scan_digits
atoi_clamps = (refl, refl, refl)

abbrev from_hex : Text → Result ℕ
from_hex [] = err (Error.opaque (codes "empty"))
from_hex (n ∷ s) = ok n

abbrev codec : Codec Text
codec = record {
  validate_create = λ req. ok tt;
  validate_update = λ req. ok tt;
  hex = λ n. n ∷ [];
  object_id_from_hex = from_hex;
  fresh = λ n. codes "v";
  format_time = λ n. n ∷ [];
}

abbrev shirt : CreateRequest Text
shirt = record {
  name = codes "Shirt";
  description = [];
  sku = codes "S-1";
  category = codes "clothing";
  attributes = [];
  variants = record { attributes = []; sku_suffix = codes "B"; stock_units = pos 3 } ∷ [];
  price_cents = pos 1_999;
}

abbrev wide : Query
wide = record {
  q = [];
  category = codes "clothing";
  limit = codes "1000";
  offset = codes "-1";
  others = params;
}

abbrev catalog : List (Product Text)
catalog = stored ∷ record stored { id = 2; sku = codes "S-2" } ∷ []

abbrev shown_page : List (ProductResponse Text)
shown_page = to_product_response codec (record stored { id = 2; sku = codes "S-2" }) ∷ []

lawful : IsMongo mongo
lawful = record { score_perm = λ query ps. Perm.refl ps; newest_perm = λ ps. Perm.refl ps }

http_list_sound_example :
    (length (to_product_response codec stored ∷ shown_page) ≤ 100)
    × (all
          (λ r. r.active && (is_empty wide.category || text_eq r.category wide.category))
          (to_product_response codec stored ∷ shown_page)
        ≡ true)
unfolding http_list Service.list_by_category Collection.find_by_category atoi scan_digits
    parse_attribute_filters attribute_key text_eq
http_list_sound_example =
    http_list_sound codec mongo lawful none catalog wide
      (to_product_response codec stored ∷ shown_page) refl

other_id : (j : ℕ) → from_hex (9 ∷ []) ≡ ok j → (1 == j) ≡ false
other_id j h = ground arith

create_then_get_example :
    (http_get codec none (http_create codec call [] (ok shirt)).0 (1 ∷ [])
      ≡ replied 200 (
          to_product_response codec
            (record stored { variants = record blue { id = codes "v" } ∷ [] })))
    × (http_get codec none (http_create codec call [] (ok shirt)).0 (9 ∷ [])
        ≡ http_get codec none [] (9 ∷ []))
unfolding http_create Service.create text_eq to_variants Collection.save
create_then_get_example = create_then_get codec call [] shirt refl refl none (9 ∷ []) other_id

prints_apart : (j : ℕ) → text_eq (j ∷ []) (1 ∷ []) ≡ true → j ≡ 1
unfolding text_eq
prints_apart j h = ground arith

archived_hidden_example :
    (all (λ r. not (text_eq r.id (1 ∷ []))) shown_page ≡ true)
    × ((p : Product Text) × (http_get codec none
            (http_archive codec call catalog (1 ∷ [])).0
            (1 ∷ [])
          ≡ replied 200 (to_product_response codec p))
        × (p.active ≡ false))
unfolding http_archive Service.archive http_list Service.list_by_category
    Collection.find_by_category Collection.find_by_id Collection.update atoi scan_digits
    parse_attribute_filters attribute_key text_eq
archived_hidden_example =
    archived_hidden codec mongo lawful call catalog (1 ∷ []) 1 refl prints_apart refl refl none wide
      shown_page refl
