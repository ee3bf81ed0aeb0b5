-- ===== src/Product/Commands.antt =====
-- Sequences of product commands, and what each keeps of one product.
use go_blueprint.Product.{
  Product, Variant, ℤ, new_product, update_details, is_negative, is_category,
}
use go_blueprint.Product.Collection
use go_blueprint.Product.Service
use go_blueprint.Product.Service.{CreateCmd, UpdateCmd, Call}
use go_blueprint.Prelude.Every.{all}
use go_blueprint.Prelude.{
  find, text_eq, ℕ, ◌≡◌, Bool, true, not, ◌&&◌, some, List, [], ◌∷◌, ◌++◌, arith, ◌==◌, any, Text,
  is_empty,
}
use go_blueprint.Errors.{ok}

module _ {V : Type 0} where
  abbrev pub is_sound : Product V → Bool
  is_sound p =
      not (is_empty p.name)
      && is_category p.category
      && not (is_empty p.variants)
      && not (is_negative p.price_cents)

  -- No sku twice.
  abbrev pub skus_apart : List (Product V) → Bool
  skus_apart [] = true
  skus_apart (p ∷ products) = not (any (λ q. text_eq q.sku p.sku) products) && skus_apart products

-- Every product has a name, a known category, a variant and a price that is not negative; and no two have one sku.
pub record IsCatalog {V : Type 0} (products : List (Product V)) : Type 0 where
  pub sound : all is_sound products ≡ true
  pub apart : skus_apart products ≡ true

-- A command with what its calls meet.
pub data Command (V : Type 0) : Type 0 where
  creates : Call → CreateCmd V → Command V
  updates : Call → UpdateCmd V → Command V
  archives : Call → ℕ → Command V

module _ {V : Type 0} where
  unfoldable pub apply : List (Product V) → Command V → List (Product V)
  apply products (creates call cmd) = (Service.create call products cmd).0
  apply products (updates call cmd) = (Service.update call products cmd).0
  apply products (archives call id) = (Service.archive call products id).0

  unfoldable pub run : List (Product V) → List (Command V) → List (Product V)
  unfolding apply
  run products [] = products
  run products (c ∷ cs) = run (apply products c) cs

  pub new_product_sound :
      (id now : ℕ) (name description sku category : Text) (attributes : List (Text × V))
      (variants : List Variant) (price : ℤ) (p : Product V)
      → new_product id now name description sku category attributes variants price ≡ ok p
      → is_sound p ≡ true
  unfolding new_product
  new_product_sound id now name description sku category attributes variants price p h =
      ground arith

  pub update_details_sound :
      (now : ℕ) (p q : Product V) (name description : Text) (attributes : List (Text × V))
      (price : ℤ)
      → update_details now p name description attributes price ≡ ok q
      → is_sound p ≡ true
      → (is_sound q ≡ true) × (q.id ≡ p.id) × (q.sku ≡ p.sku)
  unfolding update_details
  update_details_sound now p q name description attributes price h k = ground arith

  pub find_sound :
      (products : List (Product V)) (id : ℕ) (p : Product V)
      → all is_sound products ≡ true
      → find (λ q. q.id == id) products ≡ some p
      → (is_sound p ≡ true) × (p.id ≡ id)
  find_sound [] id p h k = ground arith
  find_sound (q ∷ products) id p h k = ground (arith, find_sound products id p)

  pub append_sound :
      (products : List (Product V)) (p : Product V)
      → all is_sound products ≡ true
      → is_sound p ≡ true
      → all is_sound (products ++ p ∷ []) ≡ true
  append_sound [] p h k = ground arith
  append_sound (q ∷ products) p h k = ground (arith, append_sound products p)

  pub replace_sound :
      (products : List (Product V)) (p : Product V)
      → all is_sound products ≡ true
      → is_sound p ≡ true
      → all is_sound (Collection.replace_one p products) ≡ true
  unfolding Collection.replace_one
  replace_sound [] p h k = ground arith
  replace_sound (q ∷ products) p h k = ground (arith, replace_sound products p)
