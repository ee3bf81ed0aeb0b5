-- ===== src/Product/Collection.antt =====
-- internal/platform/database/mongodb/product_repo.go over the collection `products`, a list, with its
-- unique index on sku. What MongoDB decides is in `Mongo`.
use go_blueprint.Product.{Product}
use go_blueprint.Prelude.{
  ℕ, zero, suc, Bool, true, ◌&&◌, ◌||◌, Option, none, some, List, [], ◌∷◌, ◌++◌, any, find, select,
  take, if◌then◌else◌, ◌==◌, Text, codes, text_eq, is_empty,
}
use go_blueprint.Errors.{
  ok, sku_exists, reply, product_not_found, sentinel, within, wrap, settle, err, Result, Error,
  Fate,
}

-- $text with its order by score, `attributes.<key> = <value>`, and the order of created_at downwards.
pub record Mongo (V : Type 0) : Type 0 where
  pub text_matches : Text → Product V → Bool
  pub by_score : Text → List (Product V) → List (Product V)
  pub attribute_is : Text → Text → Product V → Bool
  pub newest_first : List (Product V) → List (Product V)

-- Every filter of a query holds.
abbrev pub passes : {V : Type 0} → Mongo V → List (Text × Text) → Product V → Bool
passes mongo [] p = true
passes mongo ((key, value) ∷ filters) p = mongo.attribute_is key value p && passes mongo filters p

abbrev pub in_category : {V : Type 0} → Text → Product V → Bool
in_category category p = is_empty category || text_eq p.category category

-- SetSkip.
abbrev pub skip : {A : Type 0} → ℕ → List A → List A
skip zero xs = xs
skip (suc n) [] = []
skip (suc n) (x ∷ xs) = skip n xs

-- SetLimit: no limit if it is 0.
abbrev pub limited : {A : Type 0} → ℕ → List A → List A
limited zero xs = xs
limited (suc n) xs = take (suc n) xs

module _ {V : Type 0} where
  -- ProductRepository.Save: the index on sku, and the one on _id, refuse a document.
  unfoldable pub save : Fate → List (Product V) → Product V → List (Product V) × Result (Unit {0})
  save fate products p =
      if any (λ q. q.id == p.id || text_eq q.sku p.sku) products
      then (products, err (sentinel sku_exists))
      else (
        settle fate products (products ++ p ∷ []),
        within (codes "mongodb.ProductRepository.Save") (reply fate),
      )

  -- ProductRepository.FindByID; `failure` is an error of the connection.
  unfoldable pub find_by_id : Option Error → List (Product V) → ℕ → Result (Product V)
  find_by_id (some e) products id = err (wrap (codes "mongodb.ProductRepository.FindByID") e)
  find_by_id none products id = elim (find (λ p. p.id == id) products) [
    | none ↦ err (sentinel product_not_found)
    | some p ↦ ok p
  ]

  -- ProductRepository.FindBySKU.
  unfoldable pub find_by_sku : Option Error → List (Product V) → Text → Result (Product V)
  find_by_sku (some e) products sku = err (wrap (codes "mongodb.ProductRepository.FindBySKU") e)
  find_by_sku none products sku = elim (find (λ p. text_eq p.sku sku) products) [
    | none ↦ err (sentinel product_not_found)
    | some p ↦ ok p
  ]

  -- ReplaceOne with the filter on _id: no match is no error.
  unfoldable pub replace_one : Product V → List (Product V) → List (Product V)
  replace_one p [] = []
  replace_one p (q ∷ products) =
      let rest = replace_one p products in if q.id == p.id then p ∷ products else q ∷ rest

  -- ProductRepository.Update.
  unfoldable pub update : Fate → List (Product V) → Product V → List (Product V) × Result (Unit {0})
  unfolding replace_one
  update fate products p = (
    settle fate products (replace_one p products),
    within (codes "mongodb.ProductRepository.Update") (reply fate),
  )

  -- ProductRepository.Search and FindByCategory.
  unfoldable pub search :
      Mongo V → Option Error → List (Product V) → Text → Text → ℕ → Result (List (Product V))
  search mongo (some e) products query category limit =
      err (wrap (codes "mongodb.ProductRepository.Search") e)
  search mongo none products query category limit = ok (
      limited limit (
        mongo.by_score query (
          select (λ p. mongo.text_matches query p && p.active && in_category category p) products)))

  unfoldable pub find_by_category :
      Mongo V
      → Option Error
      → List (Product V)
      → Text
      → List (Text × Text)
      → ℕ
      → ℕ
      → Result (List (Product V))
  find_by_category mongo (some e) products category filters limit offset =
      err (wrap (codes "mongodb.ProductRepository.FindByCategory") e)
  find_by_category mongo none products category filters limit offset = ok (
      limited limit (
        skip offset (
          mongo.newest_first
            (select (λ p. p.active && in_category category p && passes mongo filters p) products))))
