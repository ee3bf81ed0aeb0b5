-- ===== src/Product/Listing.antt =====
-- What the pages of a catalogue query hold.
use mathlib.Core.List.{Perm}
use go_blueprint.Product.{Product, ℤ, pos, negsuc}
use go_blueprint.Product.Collection
use go_blueprint.Product.Collection.{limited, Mongo, in_category, passes, skip}
use go_blueprint.Product.Service
use go_blueprint.Product.Service.{page_limit, page_offset}
use go_blueprint.Prelude.Every.{all, all-take, all-Perm, all-select, all-true}
use go_blueprint.Prelude.{
  length, length-take, select, ℕ, zero, suc, ◌≤◌, ◌<◌, ◌≡◌, sym, ◌∙◌, Bool, true, ◌&&◌, Option,
  none, some, List, [], ◌∷◌, arith, Text,
}
use go_blueprint.Errors.{ok, Error}

-- Documented behaviour of the two sorts: they give the documents that they are given.
pub record IsMongo {V : Type 0} (mongo : Mongo V) : Type 0 where
  pub score_perm : (query : Text) (ps : List (Product V)) → Perm ps (mongo.by_score query ps)
  pub newest_perm : (ps : List (Product V)) → Perm ps (mongo.newest_first ps)

pub all-skip :
    {A : Type 0} (p : A → Bool) (n : ℕ) (xs : List A) → all p xs ≡ true → all p (skip n xs) ≡ true
all-skip p zero xs h = h
all-skip p (suc n) [] h = h
all-skip p (suc n) (x ∷ xs) h = ground (arith, all-skip p n xs)

pub length-limited : {A : Type 0} (n : ℕ) (xs : List A) → 0 < n → length (limited n xs) ≤ n
length-limited zero xs h = absurd (omega (arith, h))
length-limited (suc n) xs h = omega (arith, length-take (suc n) xs)

pub all-limited :
    {A : Type 0} (p : A → Bool) (n : ℕ) (xs : List A)
    → all p xs ≡ true
    → all p (limited n xs) ≡ true
all-limited p zero xs h = h
all-limited p (suc n) xs h = all-take p (suc n) xs h

pub page_limit_bounded : (limit : ℤ) → (0 < page_limit limit) × (page_limit limit ≤ 100)
page_limit_bounded (pos zero) = omega arith
page_limit_bounded (pos (suc n)) = ground arith
page_limit_bounded (negsuc n) = omega arith

-- Whatever page is asked for, a page of a category has at most 100 products; each is active, in that
-- category unless none was named, and passes every filter.
pub list_by_category_sound :
    {V : Type 0} (mongo : Mongo V)
    → IsMongo mongo
    → (failure : Option Error) (products : List (Product V)) (category : Text)
      (filters : List (Text × Text))
    → (limit offset : ℤ) (page : List (Product V))
    → Service.list_by_category mongo failure products category filters limit offset ≡ ok page
    → (length page ≤ 100)
      × (all (λ p. p.active && in_category category p && passes mongo filters p) page ≡ true)
unfolding Service.list_by_category Collection.find_by_category
list_by_category_sound mongo lawful (some e) products category filters limit offset page h = cc h
list_by_category_sound mongo lawful none products category filters limit offset page h =
    let found =
      select (λ p. p.active && in_category category p && passes mongo filters p) products in
    let same : limited (page_limit limit) (skip (page_offset offset) (mongo.newest_first found))
        ≡ page =
      cc h in
    let chosen : all (λ p. p.active && in_category category p && passes mongo filters p) found
        ≡ true =
      all-select (λ p. p.active && in_category category p && passes mongo filters p) (λ p. true) _
        products (λ p _ k. k) (all-true products) in
    rw (← same) (
      omega (
        arith,
        length-limited (page_limit limit) (skip (page_offset offset) (mongo.newest_first found))
            (page_limit_bounded limit).0,
        page_limit_bounded limit,
      ),
      all-limited (λ p. p.active && in_category category p && passes mongo filters p)
          (page_limit limit) _
          (all-skip _ (page_offset offset) _
            (sym (all-Perm _ (lawful.newest_perm found)) ∙ chosen)),
    )
