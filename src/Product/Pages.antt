-- ===== src/Product/Pages.antt =====
-- What ListOrSearch of internal/product/handler.go answers, whatever the query string says.
use go_blueprint.Prelude.{
  suc, ◌≤◌, ◌≡◌, refl, sym, ap, ◌∙◌, inl, inr, Bool, true, ◌&&◌, ◌||◌, Option, none, some, List, [],
  ◌∷◌, map, arith, Bool-cases, Text, text_eq, length, is_empty,
}
use go_blueprint.Prelude.{select}
use go_blueprint.Prelude.Every.{all-true, all, all-Perm, all-select, all-map, all_mono}
use go_blueprint.Product.{ℤ, Product}
use go_blueprint.Product.Service
use go_blueprint.Product.Collection
use go_blueprint.Product.Collection.{limited, Mongo, in_category, passes, skip}
use go_blueprint.Product.Service.{page_limit, page_offset}
use go_blueprint.Product.Listing.{
  all-limited, length-limited, IsMongo, all-skip, page_limit_bounded,
}
use go_blueprint.Product.Parameters.{atoi, parse_attribute_filters}
use go_blueprint.Product.Http.{
  Codec, Query, ProductResponse, list_or_search, http_list, to_product_response,
}
use go_blueprint.Customer.Http.{replied}
use go_blueprint.Errors.{ok, Error, Result-cases}

length-map : {A B : Type 0} (f : A → B) (xs : List A) → length (map f xs) ≡ length xs
length-map f [] = refl
length-map f (x ∷ xs) = ap suc (length-map f xs)

module _ {V : Type 0} (mongo : Mongo V) (lawful : IsMongo mongo) (products : List (Product V)) where
  -- What a page of at most 100 products holds, if every product passes the test `known`.
  abbrev pub IsPage : (Product V → Bool) → Text → List (Product V) → Type 0
  IsPage known category page =
      (length page ≤ 100) × (all (λ p. p.active && in_category category p && known p) page ≡ true)

  listed-IsPage :
      (known : Product V → Bool) (failure : Option Error) (category : Text)
      (filters : List (Text × Text)) (limit offset : ℤ) (page : List (Product V))
      → all known products ≡ true
      → Service.list_by_category mongo failure products category filters limit offset ≡ ok page
      → IsPage known category page
  unfolding Service.list_by_category Collection.find_by_category
  listed-IsPage known (some e) category filters limit offset page h k = cc k
  listed-IsPage known none category filters limit offset page h k =
      let test = λ (p : Product V). p.active && in_category category p && passes mongo filters p in
      let wanted = λ (p : Product V). p.active && in_category category p && known p in
      let found = select test products in
      let same : limited (page_limit limit) (skip (page_offset offset) (mongo.newest_first found))
          ≡ page =
        cc k in
      let chosen : all wanted found ≡ true =
        all-select wanted known test products (λ p a b. ground arith) h in
      rw (← same) (
        omega (
          arith,
          length-limited (page_limit limit) (skip (page_offset offset) (mongo.newest_first found))
              (page_limit_bounded limit).0,
          page_limit_bounded limit,
        ),
        all-limited wanted (page_limit limit) (skip (page_offset offset) (mongo.newest_first found))
            (all-skip wanted (page_offset offset) (mongo.newest_first found)
              (sym (all-Perm wanted (lawful.newest_perm found)) ∙ chosen)),
      )

  searched-IsPage :
      (known : Product V → Bool) (failure : Option Error) (query category : Text) (limit : ℤ)
      (page : List (Product V))
      → all known products ≡ true
      → Service.search mongo failure products query category limit ≡ ok page
      → IsPage known category page
  unfolding Service.search Collection.search
  searched-IsPage known (some e) query category limit page h k = cc k
  searched-IsPage known none query category limit page h k =
      let test =
        λ (p : Product V). mongo.text_matches query p && p.active && in_category category p in
      let wanted = λ (p : Product V). p.active && in_category category p && known p in
      let found = select test products in
      let same : limited (page_limit limit) (mongo.by_score query found) ≡ page = cc k in
      let chosen : all wanted found ≡ true =
        all-select wanted known test products (λ p a b. ground arith) h in
      rw (← same) (
        omega (
          arith,
          length-limited (page_limit limit) (mongo.by_score query found)
              (page_limit_bounded limit).0,
          page_limit_bounded limit,
        ),
        all-limited wanted (page_limit limit) (mongo.by_score query found)
            (sym (all-Perm wanted (lawful.score_perm query found)) ∙ chosen),
      )

  pub answered-IsPage :
      (known : Product V → Bool) (failure : Option Error) (query : Query) (page : List (Product V))
      → all known products ≡ true
      → list_or_search mongo failure products query ≡ ok page
      → IsPage known query.category page
  unfolding list_or_search
  answered-IsPage known failure query page h k = elim (Bool-cases (is_empty query.q)) [
    | inl lists ↦
        listed-IsPage known failure query.category (parse_attribute_filters query.others)
          (atoi query.limit) (atoi query.offset) page h (rw lists at k)
    | inr searches ↦
        searched-IsPage known failure query.q query.category (atoi query.limit) page h
          (rw searches at k)
  ]

-- Whatever limit, offset, text, category and filters a query string asks for, and however they are
-- written: an answer 200 has at most 100 products, each active and, unless no category was named, of that
-- category.
pub http_list_sound :
    {V : Type 0} (codec : Codec V) (mongo : Mongo V)
    → IsMongo mongo
    → (failure : Option Error) (products : List (Product V)) (query : Query)
      (answer : List (ProductResponse V))
    → http_list codec mongo failure products query ≡ replied 200 answer
    → (length answer ≤ 100)
      × (all
            (λ r. r.active && (is_empty query.category || text_eq r.category query.category))
            answer
          ≡ true)
unfolding http_list
http_list_sound codec mongo lawful failure products query answer h =
    elim (Result-cases (list_or_search mongo failure products query)) [
      | inr (e, failed) ↦ cc (rw (failed, http_list) at h)
      | inl (page, found) ↦
          let same : map (to_product_response codec) page ≡ answer =
            cc (rw (found, http_list) at h) in
          let (short, sound) =
            answered-IsPage mongo lawful products (λ p. true) failure query page (all-true products)
              found in
          rw (← same) (
            omega (arith, length-map (to_product_response codec) page, short),
            all-map
                  (λ r. r.active && (is_empty query.category || text_eq r.category query.category))
                  (to_product_response codec) page
                ∙ all_mono (λ p. p.active && in_category query.category p)
                    (λ p. p.active && in_category query.category p && true) page
                    (λ p a. ground arith) sound,
          )
    ]
