-- ===== src/Product/Replacing.antt =====
-- What the replacement of a product by its archived form leaves to be found.
use go_blueprint.Prelude.{
  ==_refl, ==_iff, sym, ◌∙◌, ap, inl, inr, Bool-cases, refl, ◌&&◌, not, Bool, ℕ, ◌≡◌, true, false,
  some, List, [], ◌∷◌, arith, ◌==◌, any, find,
}
use go_blueprint.Product.{archive_product, Product}
use go_blueprint.Product.Collection.{replace_one}
use go_blueprint.Prelude.Every.{all_mono, all}

module _ {V : Type 0} where
  -- No id twice.
  abbrev pub ids_apart : List (Product V) → Bool
  ids_apart [] = true
  ids_apart (p ∷ products) = not (any (λ q. q.id == p.id) products) && ids_apart products

  absent_hidden :
      (products : List (Product V)) (id : ℕ)
      → any (λ q. q.id == id) products ≡ false
      → all (λ q. not (q.id == id)) products ≡ true
  absent_hidden [] id h = refl
  absent_hidden (q ∷ products) id h = ground (arith, absent_hidden products id)

  find_id :
      (id : ℕ) (products : List (Product V)) (p : Product V)
      → find (λ q. q.id == id) products ≡ some p
      → p.id ≡ id
  find_id id [] p h = cc h
  find_id id (q ∷ products) p h = ground (arith, find_id id products p)

  replace_hit :
      (q p : Product V) (id : ℕ) (products : List (Product V))
      → p.id ≡ id
      → (q.id == id) ≡ true
      → replace_one p (q ∷ products) ≡ p ∷ products
  unfolding replace_one
  replace_hit q p id products is_id hit = rw (is_id, hit, replace_one) refl

  replace_miss :
      (q p : Product V) (id : ℕ) (products : List (Product V))
      → p.id ≡ id
      → (q.id == id) ≡ false
      → replace_one p (q ∷ products) ≡ q ∷ replace_one p products
  unfolding replace_one
  replace_miss q p id products is_id miss = rw (is_id, miss, replace_one) refl

  pub archived_inactive :
      (now id : ℕ) (products : List (Product V)) (p : Product V)
      → ids_apart products ≡ true
      → find (λ q. q.id == id) products ≡ some p
      → (all (λ q. not (q.active && q.id == id)) (replace_one (archive_product now p) products)
          ≡ true)
        × (find (λ q. q.id == id) (replace_one (archive_product now p) products)
            ≡ some (archive_product now p))
  unfolding archive_product
  archived_inactive now id [] p apart h = cc h
  archived_inactive now id (q ∷ products) p apart h = elim (Bool-cases (q.id == id)) [
    | inl hit ↦
        let q_is : q ≡ p = cc (rw hit at h) in
        let id_is : p.id ≡ id = ap (λ r. r.id) (sym q_is) ∙ (==_iff q.id id).0 hit in
        let others : any (λ r. r.id == id) products ≡ false = ground (arith, apart, hit) in
        rw (replace_hit q (archive_product now p) id products id_is hit, id_is, ==_refl id)
          (
            all_mono (λ r. not (r.active && r.id == id)) (λ r. not (r.id == id)) products
                (λ r a. ground arith) (absent_hidden products id others),
            refl,
          )
    | inr miss ↦
        let (hidden, found) = archived_inactive now id products p (ground arith) (rw miss at h) in
        let step =
          replace_miss q (archive_product now p) id products (find_id id products p (rw miss at h))
            miss in
        rw step (ground (arith, miss, hidden), rw miss found)
  ]
