-- ===== src/Product.antt =====
-- internal/product: domain.go, service.go and query.go, over the collection of
-- internal/platform/database/mongodb/product_repo.go. This file has the aggregate.
pub mod Collection
pub mod Service
pub mod Commands
pub mod Catalog
pub mod Listing
pub mod Parameters
pub mod Filters
pub mod Http
pub mod Pages
pub mod Replacing
pub mod Shop
pub mod Archived
pub mod Tests
pub mod HttpTests
use go_blueprint.Prelude.{
  ℕ, Bool, true, false, List, [], ◌∷◌, any, if◌then◌else◌, Text, codes, text_eq, is_empty,
}
use go_blueprint.Errors.{
  Result, ok, err, sentinel, product_name_required, invalid_category, no_variants, price_negative,
}

-- Go's int and int64, of which the code uses the comparison with zero.
pub data ℤ : Type 0 where
  pos negsuc : ℕ → ℤ

abbrev pub is_negative : ℤ → Bool
is_negative (pos n) = false
is_negative (negsuc n) = true

pub record Variant : Type 0 where
  pub id : Text
  pub attributes : List (Text × Text)
  pub sku_suffix : Text
  pub stock_units : ℤ
  pub active : Bool

-- Product; `V` is the type of an attribute's value, Go's any.
pub record Product (V : Type 0) : Type 0 where
  pub id : ℕ
  pub sku : Text
  pub name : Text
  pub description : Text
  pub category : Text
  pub attributes : List (Text × V)
  pub variants : List Variant
  pub price_cents : ℤ
  pub active : Bool
  pub created_at : ℕ
  pub updated_at : ℕ

-- The keys of categoryAttributes.
abbrev pub known_categories : List Text
known_categories = codes "electronics" ∷ codes "clothing" ∷ codes "food" ∷ codes "books" ∷ []

abbrev pub is_category : Text → Bool
is_category category = any (λ c. text_eq c category) known_categories

module _ {V : Type 0} where
  -- NewProduct.
  unfoldable pub new_product :
      ℕ → ℕ → Text → Text → Text → Text → List (Text × V) → List Variant → ℤ → Result (Product V)
  new_product id now name description sku category attributes variants price_cents =
      if is_empty name
      then err (sentinel product_name_required)
      else if is_category category
      then if is_empty variants
        then err (sentinel no_variants)
        else if is_negative price_cents
        then err (sentinel price_negative)
        else ok (record {
          id = id;
          sku = sku;
          name = name;
          description = description;
          category = category;
          attributes = attributes;
          variants = variants;
          price_cents = price_cents;
          active = true;
          created_at = now;
          updated_at = now;
        })
      else err (sentinel invalid_category)

  -- Product.UpdateDetails; an error leaves the product as it was.
  unfoldable pub update_details :
      ℕ → Product V → Text → Text → List (Text × V) → ℤ → Result (Product V)
  update_details now p name description attributes price_cents =
      if is_empty name
      then err (sentinel product_name_required)
      else if is_negative price_cents
      then err (sentinel price_negative)
      else ok (record p {
        name = name;
        description = description;
        attributes = attributes;
        price_cents = price_cents;
        updated_at = now;
      })

  -- Product.Archive.
  unfoldable pub archive_product : ℕ → Product V → Product V
  archive_product now p = record p { active = false; updated_at = now }
