-- ===== src/Product/Service.antt =====
-- internal/product/service.go and query.go.
use go_blueprint.Product.{
  Product, Variant, ℤ, pos, negsuc, new_product, update_details, archive_product,
}
use go_blueprint.Product.Collection
use go_blueprint.Product.Collection.{Mongo}
use go_blueprint.Prelude.{ℕ, zero, suc, Option, List, if◌then◌else◌, ltb, Text, codes}
use go_blueprint.Errors.{ok, wrap, within, Fate, err, Error, Result}

pub record CreateCmd (V : Type 0) : Type 0 where
  pub name : Text
  pub description : Text
  pub sku : Text
  pub category : Text
  pub attributes : List (Text × V)
  pub variants : List Variant
  pub price_cents : ℤ

pub record UpdateCmd (V : Type 0) : Type 0 where
  pub id : ℕ
  pub name : Text
  pub description : Text
  pub attributes : List (Text × V)
  pub price_cents : ℤ

-- What the calls of one command meet.
pub record Call : Type 0 where
  pub find_failure : Option Error
  pub write_fate : Fate
  pub new_id : ℕ
  pub now : ℕ

-- A page size, `limit <= 0 || limit > 100` read as the default of 20, and an offset.
abbrev pub page_limit : ℤ → ℕ
page_limit (pos zero) = 20
page_limit (pos (suc n)) = if ltb 100 (suc n) then 20 else suc n
page_limit (negsuc n) = 20

abbrev pub page_offset : ℤ → ℕ
page_offset (pos n) = n
page_offset (negsuc n) = 0

module _ {V : Type 0} where
  -- Service.Create.
  unfoldable pub create : Call → List (Product V) → CreateCmd V → List (Product V) × Result ℕ
  unfolding new_product
  create call products cmd =
      elim (new_product call.new_id call.now cmd.name cmd.description cmd.sku cmd.category
        cmd.attributes cmd.variants cmd.price_cents) [
          | err e ↦ (products, err (wrap (codes "product.Service.Create") e))
          | ok p ↦
              let (after, saved) = Collection.save call.write_fate products p in
              elim saved [
                | err e ↦ (after, err (wrap (codes "product.Service.Create") e))
                | ok _ ↦ (after, ok p.id)
              ]
        ]

  -- Service.Update.
  unfoldable pub update :
      Call → List (Product V) → UpdateCmd V → List (Product V) × Result (Unit {0})
  unfolding update_details
  update call products cmd = elim (Collection.find_by_id call.find_failure products cmd.id) [
    | err e ↦ (products, err (wrap (codes "product.Service.Update: find") e))
    | ok found ↦
        elim (update_details call.now found cmd.name cmd.description cmd.attributes
          cmd.price_cents) [
            | err e ↦ (products, err (wrap (codes "product.Service.Update") e))
            | ok p ↦
                let (after, saved) = Collection.update call.write_fate products p in
                (after, within (codes "product.Service.Update: save") saved)
          ]
  ]

  -- Service.Archive.
  unfoldable pub archive : Call → List (Product V) → ℕ → List (Product V) × Result (Unit {0})
  unfolding archive_product
  archive call products id = elim (Collection.find_by_id call.find_failure products id) [
    | err e ↦ (products, err (wrap (codes "product.Service.Archive: find") e))
    | ok found ↦
        let (after, saved) =
          Collection.update call.write_fate products (archive_product call.now found) in
        (after, within (codes "product.Service.Archive: save") saved)
  ]

  -- QueryService.GetByID, Search and ListByCategory.
  unfoldable pub get_by_id : Option Error → List (Product V) → ℕ → Result (Product V)
  get_by_id failure products id =
      within (codes "product.QueryService.GetByID") (Collection.find_by_id failure products id)

  unfoldable pub search :
      Mongo V → Option Error → List (Product V) → Text → Text → ℤ → Result (List (Product V))
  search mongo failure products query category limit =
      within (codes "product.QueryService.Search")
        (Collection.search mongo failure products query category (page_limit limit))

  unfoldable pub list_by_category :
      Mongo V
      → Option Error
      → List (Product V)
      → Text
      → List (Text × Text)
      → ℤ
      → ℤ
      → Result (List (Product V))
  list_by_category mongo failure products category filters limit offset =
      within (codes "product.QueryService.ListByCategory") (
        Collection.find_by_category mongo failure products category filters (page_limit limit)
          (page_offset offset))
