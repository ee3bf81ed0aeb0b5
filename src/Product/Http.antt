-- ===== src/Product/Http.antt =====
-- internal/product/handler.go. What echo's Bind, the validator and bson.ObjectIDFromHex answer is an
-- argument; the query string is read as in Product/Parameters.
use go_blueprint.Prelude.{
  ℕ, suc, Bool, true, Option, List, [], ◌∷◌, map, if◌then◌else◌, Text, codes, is_empty,
}
use go_blueprint.Product.{Product, Variant, ℤ}
use go_blueprint.Product.Service
use go_blueprint.Product.Service.{CreateCmd, UpdateCmd, Call}
use go_blueprint.Product.Collection.{Mongo}
use go_blueprint.Product.Parameters.{atoi, parse_attribute_filters}
use go_blueprint.Customer.Http.{Response, replied, http_error}
use go_blueprint.Errors.{
  price_negative, product_name_required, no_variants, invalid_category, sku_exists,
  product_not_found, is, text, Error, Result, ok, err,
}

pub record VariantRequest : Type 0 where
  pub attributes : List (Text × Text)
  pub sku_suffix : Text
  pub stock_units : ℤ

pub record CreateRequest (V : Type 0) : Type 0 where
  pub name : Text
  pub description : Text
  pub sku : Text
  pub category : Text
  pub attributes : List (Text × V)
  pub variants : List VariantRequest
  pub price_cents : ℤ

pub record UpdateRequest (V : Type 0) : Type 0 where
  pub name : Text
  pub description : Text
  pub attributes : List (Text × V)
  pub price_cents : ℤ

pub record VariantResponse : Type 0 where
  pub id : Text
  pub attributes : List (Text × Text)
  pub sku_suffix : Text
  pub stock_units : ℤ
  pub active : Bool

pub record ProductResponse (V : Type 0) : Type 0 where
  pub id : Text
  pub sku : Text
  pub name : Text
  pub description : Text
  pub category : Text
  pub attributes : List (Text × V)
  pub variants : List VariantResponse
  pub price_cents : ℤ
  pub active : Bool
  pub created_at : Text
  pub updated_at : Text

-- The libraries of a request; `fresh n` is the hexadecimal form of the id made for the n-th variant.
pub record Codec (V : Type 0) : Type 0 where
  pub validate_create : CreateRequest V → Result (Unit {0})
  pub validate_update : UpdateRequest V → Result (Unit {0})
  pub hex : ℕ → Text
  pub object_id_from_hex : Text → Result ℕ
  pub fresh : ℕ → Text
  pub format_time : ℕ → Text

-- The parameters of ListOrSearch, `others` the whole of c.QueryParams().
pub record Query : Type 0 where
  pub q : Text
  pub category : Text
  pub limit : Text
  pub offset : Text
  pub others : List (Text × List Text)

-- toVariants, from the n-th variant on.
unfoldable pub to_variants : (ℕ → Text) → ℕ → List VariantRequest → List Variant
to_variants fresh n [] = []
to_variants fresh n (r ∷ rs) =
    record {
      id = fresh n;
      attributes = r.attributes;
      sku_suffix = r.sku_suffix;
      stock_units = r.stock_units;
      active = true;
    }
    ∷ to_variants fresh (suc n) rs

abbrev pub to_variant_response : Variant → VariantResponse
to_variant_response v = record {
  id = v.id;
  attributes = v.attributes;
  sku_suffix = v.sku_suffix;
  stock_units = v.stock_units;
  active = v.active;
}

-- mapDomainError.
unfoldable pub map_domain_error : {A : Type 0} → Error → Response A
unfolding is
map_domain_error e =
    if is e product_not_found
    then http_error 404 (text e)
    else if is e sku_exists
    then http_error 409 (text e)
    else if is e invalid_category
    then http_error 422 (text e)
    else if is e no_variants
    then http_error 422 (text e)
    else if is e product_name_required
    then http_error 422 (text e)
    else if is e price_negative
    then http_error 422 (text e)
    else http_error 500 (codes "internal error")

-- What parseObjectID says to a text that is no id.
abbrev pub invalid_id : {A : Type 0} → Response A
invalid_id = http_error 400 (codes "invalid product ID: must be a 24-character hex string")

module _ {V : Type 0} where
  -- What ListOrSearch asks the queries for.
  unfoldable pub list_or_search :
      Mongo V → Option Error → List (Product V) → Query → Result (List (Product V))
  list_or_search mongo failure products query =
      let limit = atoi query.limit in
      if is_empty query.q
      then Service.list_by_category mongo failure products query.category
          (parse_attribute_filters query.others) limit (atoi query.offset)
      else Service.search mongo failure products query.q query.category limit

module _ {V : Type 0} (codec : Codec V) where
  -- toProductResponse.
  abbrev pub to_product_response : Product V → ProductResponse V
  to_product_response p = record {
    id = codec.hex p.id;
    sku = p.sku;
    name = p.name;
    description = p.description;
    category = p.category;
    attributes = p.attributes;
    variants = map to_variant_response p.variants;
    price_cents = p.price_cents;
    active = p.active;
    created_at = codec.format_time p.created_at;
    updated_at = codec.format_time p.updated_at;
  }

  -- The command that Create hands on.
  abbrev pub create_cmd : CreateRequest V → CreateCmd V
  create_cmd req = record {
    name = req.name;
    description = req.description;
    sku = req.sku;
    category = req.category;
    attributes = req.attributes;
    variants = to_variants codec.fresh 0 req.variants;
    price_cents = req.price_cents;
  }

  -- Handler.Create.
  unfoldable pub http_create :
      Call → List (Product V) → Result (CreateRequest V) → List (Product V) × Response Text
  http_create call products (err e) = (products, http_error 400 (text e))
  http_create call products (ok req) = elim (codec.validate_create req) [
    | err e ↦ (products, http_error 422 (text e))
    | ok _ ↦
        let (after, answer) = Service.create call products (create_cmd req) in
        elim answer [
          | err e ↦ (after, map_domain_error e)
          | ok id ↦ (after, replied 201 (codec.hex id))
        ]
  ]

  -- Handler.GetByID.
  unfoldable pub http_get : Option Error → List (Product V) → Text → Response (ProductResponse V)
  unfolding map_domain_error
  http_get failure products param = elim (codec.object_id_from_hex param) [
    | err e ↦ invalid_id
    | ok id ↦ elim (Service.get_by_id failure products id) [
      | err e ↦ map_domain_error e
      | ok p ↦ replied 200 (to_product_response p)
    ]
  ]

  -- Handler.ListOrSearch.
  unfoldable pub http_list :
      Mongo V → Option Error → List (Product V) → Query → Response (List (ProductResponse V))
  unfolding list_or_search
  http_list mongo failure products query = elim (list_or_search mongo failure products query) [
    | err e ↦ http_error 500 (codes "internal error")
    | ok found ↦ replied 200 (map to_product_response found)
  ]

  -- Handler.Update.
  unfoldable pub http_update :
      Call
      → List (Product V)
      → Text
      → Result (UpdateRequest V)
      → List (Product V) × Response (Unit {0})
  unfolding map_domain_error
  http_update call products param bound = elim (codec.object_id_from_hex param) [
    | err e ↦ (products, invalid_id)
    | ok id ↦ elim bound [
      | err e ↦ (products, http_error 400 (text e))
      | ok req ↦ elim (codec.validate_update req) [
        | err e ↦ (products, http_error 422 (text e))
        | ok _ ↦
            let (after, answer) = Service.update call products (record {
              id = id;
              name = req.name;
              description = req.description;
              attributes = req.attributes;
              price_cents = req.price_cents;
            }) in
            elim answer [ err e ↦ (after, map_domain_error e) | ok _ ↦ (after, replied 204 tt) ]
      ]
    ]
  ]

  -- Handler.Archive.
  unfoldable pub http_archive :
      Call → List (Product V) → Text → List (Product V) × Response (Unit {0})
  unfolding map_domain_error
  http_archive call products param = elim (codec.object_id_from_hex param) [
    | err e ↦ (products, invalid_id)
    | ok id ↦
        let (after, answer) = Service.archive call products id in
        elim answer [ err e ↦ (after, map_domain_error e) | ok _ ↦ (after, replied 204 tt) ]
  ]
