-- ===== src/Product/Archived.antt =====
-- What a client of the product routes sees after a DELETE.
use go_blueprint.Prelude.{
  ℕ, ◌≡◌, refl, ap, ◌∙◌, inl, inr, true, false, not, ◌&&◌, Option, none, some, List, map, arith,
  ◌==◌, find, Text, text_eq,
}
use go_blueprint.Product.Pages.{answered-IsPage}
use go_blueprint.Prelude.Every.{all, all-map, all_mono}
use go_blueprint.Product.{Product, archive_product}
use go_blueprint.Product.Collection
use go_blueprint.Product.Collection.{in_category, Mongo, replace_one}
use go_blueprint.Product.Listing.{IsMongo}
use go_blueprint.Product.Http.{
  Codec, Query, ProductResponse, list_or_search, http_list, http_get, http_archive,
  map_domain_error, to_product_response,
}
use go_blueprint.Product.Shop.{get_found, not_archived}
use go_blueprint.Customer.Http.{status, replied}
use go_blueprint.Errors.{ok, Error, Result-cases, Fate}
use go_blueprint.Product.Service
use go_blueprint.Product.Service.{Call}
use go_blueprint.Product.Replacing.{archived_inactive, ids_apart}

module _ {V : Type 0} where
  replaced :
      (fate : Fate) (products : List (Product V)) (p : Product V) (u : Unit {0})
      → (Collection.update fate products p).1 ≡ ok u
      → (Collection.update fate products p).0 ≡ replace_one p products
  unfolding Collection.update
  replaced fate products p u h = ground arith

  find_is :
      (failure : Option Error) (products : List (Product V)) (id : ℕ) (p : Product V)
      → Collection.find_by_id failure products id ≡ ok p
      → find (λ q. q.id == id) products ≡ some p
  unfolding Collection.find_by_id
  find_is failure products id p h = ground arith

  archive_ok :
      (call : Call) (products : List (Product V)) (id : ℕ) (u : Unit {0})
      → (Service.archive call products id).1 ≡ ok u
      → (p : Product V) × (find (λ q. q.id == id) products ≡ some p)
        × ((Service.archive call products id).0 ≡ replace_one (archive_product call.now p) products)
  unfolding Service.archive
  archive_ok call products id u h =
      elim (Result-cases (Collection.find_by_id call.find_failure products id)) [
        | inr (e, failed) ↦ cc (rw (failed, Service.archive) at h)
        | inl (p, found) ↦
            elim (Result-cases
              (Collection.update call.write_fate products (archive_product call.now p)).1) [
                | inr (e, failed) ↦ cc (rw (found, failed, Service.archive) at h)
                | inl (v, saved) ↦ (
                  p,
                  find_is call.find_failure products id p found,
                  rw (found, Service.archive)
                      (replaced call.write_fate products (archive_product call.now p) v saved),
                )
              ]
      ]

  archived :
      (codec : Codec V) (call : Call) (products : List (Product V)) (param : Text) (id : ℕ)
      → codec.object_id_from_hex param ≡ ok id
      → status (http_archive codec call products param).1 ≡ 204
      → (p : Product V) × (find (λ q. q.id == id) products ≡ some p)
        × ((http_archive codec call products param).0
            ≡ replace_one (archive_product call.now p) products)
  unfolding http_archive
  archived codec call products param id reads h =
      elim (Result-cases (Service.archive call products id).1) [
        | inr (e, failed) ↦
            absurd
              (not_archived e (map_domain_error e) refl (rw (reads, failed, http_archive) at h))
        | inl (u, gone) ↦ rw (reads, gone, http_archive) (archive_ok call products id u gone)
      ]

  shown :
      (codec : Codec V) (products : List (Product V)) (param : Text) (id : ℕ) (p : Product V)
      → codec.object_id_from_hex param ≡ ok id
      → find (λ q. q.id == id) products ≡ some p
      → http_get codec none products param ≡ replied 200 (to_product_response codec p)
  unfolding http_get
  shown codec products param id p reads found =
      rw (reads, http_get, get_found products id p found) refl

-- If no two products have one id and different ids print differently: after a DELETE of an id that is
-- answered 204, no query string makes ListOrSearch show that id again, while a GET of it still answers 200
-- with a product that is not active.
pub archived_hidden :
    {V : Type 0} (codec : Codec V) (mongo : Mongo V)
    → IsMongo mongo
    → (call : Call) (products : List (Product V)) (param : Text) (id : ℕ)
    → ids_apart products ≡ true
    → ((j : ℕ) → text_eq (codec.hex j) (codec.hex id) ≡ true → j ≡ id)
    → codec.object_id_from_hex param ≡ ok id
    → status (http_archive codec call products param).1 ≡ 204
    → (failure : Option Error) (query : Query) (answer : List (ProductResponse V))
    → http_list codec mongo failure (http_archive codec call products param).0 query
      ≡ replied 200 answer
    → (all (λ r. not (text_eq r.id (codec.hex id))) answer ≡ true)
      × ((p : Product V) × (http_get codec none (http_archive codec call products param).0 param
            ≡ replied 200 (to_product_response codec p))
          × (p.active ≡ false))
unfolding http_list archive_product
archived_hidden codec mongo lawful call products param id apart prints reads h failure query answer
      k =
    let (p, found, after) = archived codec call products param id reads h in
    let (inactive, kept) = archived_inactive call.now id products p apart found in
    let now = replace_one (archive_product call.now p) products in
    elim (Result-cases (list_or_search mongo failure now query)) [
      | inr (e, failed) ↦ cc (rw (after, failed, http_list) at k)
      | inl (page, listed) ↦
          let same : map (to_product_response codec) page ≡ answer =
            cc (rw (after, listed, http_list) at k) in
          let (short, sound) =
            answered-IsPage mongo lawful now (λ q. not (q.active && q.id == id)) failure query page
              inactive listed in
          (
            rw (← same) (
                all-map (λ r. not (text_eq r.id (codec.hex id))) (to_product_response codec) page
                ∙ all_mono (λ q. not (text_eq (codec.hex q.id) (codec.hex id)))
                    (λ q. q.active && in_category query.category q && not (q.active && q.id == id))
                    page (λ q a. ground (arith, prints q.id)) sound),
            (
              archive_product call.now p,
              ap (λ s. http_get codec none s param) after
                  ∙ shown codec now param id (archive_product call.now p) reads kept,
              refl,
            ),
          )
    ]
