-- ===== src/Product/Catalog.antt =====
-- What the commands keep of the collection of products.
use go_blueprint.Product.{archive_product, Product, new_product, update_details}
use go_blueprint.Product.Collection
use go_blueprint.Product.Service
use go_blueprint.Product.Service.{CreateCmd, UpdateCmd, Call}
use go_blueprint.Prelude.{
  text_eq_sym, none, Option-cases, Option, refl, ◌∙◌, ◌||◌, ap, sym, inr, inl, Bool-cases, false,
  find, text_eq, ℕ, ◌≡◌, Bool, true, not, ◌&&◌, some, List, [], ◌∷◌, ◌++◌, arith, ◌==◌, any, Text,
}
use go_blueprint.Errors.{Error, Result-cases, done, lost, refused, settle, Fate, ok}
use go_blueprint.Product.Commands.{
  archives, updates, creates, append_sound, replace_sound, Command, find_sound, is_sound,
  new_product_sound, update_details_sound, skus_apart, IsCatalog, run,
}
use go_blueprint.Outbox.History.{apply}

and_swap : (a b c : Bool) → (b ≡ true → c ≡ true) → (a && b) ≡ true → (a && c) ≡ true
and_swap true b c f h = f h
and_swap false b c f h = cc h

module _ {V : Type 0} where
  any-append :
      (s : Text) (products : List (Product V)) (p : Product V)
      → any (λ q. text_eq q.sku s) products ≡ false
      → text_eq p.sku s ≡ false
      → any (λ q. text_eq q.sku s) (products ++ p ∷ []) ≡ false
  any-append s [] p h k = ground arith
  any-append s (q ∷ products) p h k = ground (arith, any-append s products p)

  append-apart :
      (products : List (Product V)) (p : Product V)
      → skus_apart products ≡ true
      → any (λ q. text_eq q.sku p.sku) products ≡ false
      → skus_apart (products ++ p ∷ []) ≡ true
  append-apart [] p h k = ground arith
  append-apart (q ∷ products) p h k =
      ground (arith, append-apart products p, any-append q.sku products p, text_eq_sym q.sku p.sku)

  any-replace :
      (s : Text) (products : List (Product V)) (id : ℕ) (f p : Product V)
      → find (λ q. q.id == id) products ≡ some f
      → p.id ≡ id
      → p.sku ≡ f.sku
      → any (λ q. text_eq q.sku s) (Collection.replace_one p products)
        ≡ any (λ q. text_eq q.sku s) products
  unfolding Collection.replace_one
  any-replace s [] id f p h k e = ground arith
  any-replace s (q ∷ products) id f p h k e = elim (Bool-cases (q.id == id)) [
    | inl hit ↦
        let q_is : q ≡ f = cc (rw hit at h) in
        rw (k, hit, Collection.replace_one)
          (ap (λ t. text_eq t s || any (λ r. text_eq r.sku s) products)
            (e ∙ ap (λ r. r.sku) (sym q_is)))
    | inr miss ↦
        rw (k, miss, Collection.replace_one)
          (ap (λ b. text_eq q.sku s || b) (any-replace s products id f p (rw miss at h) k e))
  ]

  replace-apart :
      (products : List (Product V)) (id : ℕ) (f p : Product V)
      → find (λ q. q.id == id) products ≡ some f
      → p.id ≡ id
      → p.sku ≡ f.sku
      → skus_apart products ≡ true
      → skus_apart (Collection.replace_one p products) ≡ true
  unfolding Collection.replace_one
  replace-apart [] id f p h k e apart = refl
  replace-apart (q ∷ products) id f p h k e apart = elim (Bool-cases (q.id == id)) [
    | inl hit ↦
        let q_is : q ≡ f = cc (rw hit at h) in
        rw (k, hit, Collection.replace_one)
          (ap (λ t. not (any (λ r. text_eq r.sku t) products) && skus_apart products)
              (e ∙ ap (λ r. r.sku) (sym q_is))
            ∙ apart)
    | inr miss ↦
        rw (k, miss, Collection.replace_one, any-replace q.sku products id f p (rw miss at h) k e)
          (and_swap (not (any (λ r. text_eq r.sku q.sku) products)) _ _
            (replace-apart products id f p (rw miss at h) k e) apart)
  ]

  settle-IsCatalog :
      (fate : Fate) (before after : List (Product V))
      → IsCatalog before
      → IsCatalog after
      → IsCatalog (settle fate before after)
  settle-IsCatalog done before after old new = new
  settle-IsCatalog (refused e) before after old new = old
  settle-IsCatalog (lost e) before after old new = new

  save-IsCatalog :
      (fate : Fate) (products : List (Product V)) (p : Product V)
      → IsCatalog products
      → is_sound p ≡ true
      → IsCatalog (Collection.save fate products p).0
  unfolding Collection.save
  save-IsCatalog fate products p v h =
      elim (Bool-cases (any (λ q. q.id == p.id || text_eq q.sku p.sku) products)) [
        | inl dup ↦ rw (dup, Collection.save) v
        | inr new ↦
            rw (new, Collection.save)
              (settle-IsCatalog fate products _ v (record {
                sound = append_sound products p v.sound h;
                apart = append-apart products p v.apart (no_sku products p new);
              }))
      ]
    where
      no_sku :
          (products : List (Product V)) (p : Product V)
          → any (λ q. q.id == p.id || text_eq q.sku p.sku) products ≡ false
          → any (λ q. text_eq q.sku p.sku) products ≡ false
      no_sku [] p h = refl
      no_sku (q ∷ products) p h = ground (arith, no_sku products p)

  update-IsCatalog :
      (fate : Fate) (products : List (Product V)) (id : ℕ) (f p : Product V)
      → IsCatalog products
      → find (λ q. q.id == id) products ≡ some f
      → is_sound p ≡ true
      → p.id ≡ f.id
      → p.sku ≡ f.sku
      → IsCatalog (Collection.update fate products p).0
  unfolding Collection.update
  update-IsCatalog fate products id f p v found h same_id same_sku =
      settle-IsCatalog fate products _ v (record {
        sound = replace_sound products p v.sound h;
        apart =
            replace-apart products id f p found
              (same_id ∙ (find_sound products id f v.sound found).1) same_sku v.apart;
      })

  found_in :
      (failure : Option Error) (products : List (Product V)) (id : ℕ) (f : Product V)
      → Collection.find_by_id failure products id ≡ ok f
      → find (λ q. q.id == id) products ≡ some f
  unfolding Collection.find_by_id
  found_in (some e) products id f h = cc h
  found_in none products id f h = elim (Option-cases (find (λ q. q.id == id) products)) [
    | inl missing ↦ cc (rw (missing, Collection.find_by_id) at h)
    | inr (g, found) ↦ found ∙ ap some (cc (rw (found, Collection.find_by_id) at h))
  ]

  create-IsCatalog :
      (call : Call) (products : List (Product V)) (cmd : CreateCmd V)
      → IsCatalog products
      → IsCatalog (Service.create call products cmd).0
  unfolding Service.create
  create-IsCatalog call products cmd v =
      elim (Result-cases (
        new_product call.new_id call.now cmd.name cmd.description cmd.sku cmd.category
          cmd.attributes cmd.variants cmd.price_cents)) [
            | inr (e, invalid) ↦ rw (invalid, Service.create) v
            | inl (p, valid) ↦
                let kept =
                  save-IsCatalog call.write_fate products p v
                    (new_product_sound _ _ _ _ _ _ _ _ _ p valid) in
                elim (Result-cases (Collection.save call.write_fate products p).1) [
                  | inl (u, saved) ↦ rw (valid, saved, Service.create) kept
                  | inr (e, failed) ↦ rw (valid, failed, Service.create) kept
                ]
          ]

  change-IsCatalog :
      (call : Call) (products : List (Product V)) (cmd : UpdateCmd V)
      → IsCatalog products
      → IsCatalog (Service.update call products cmd).0
  unfolding Service.update
  change-IsCatalog call products cmd v =
      elim (Result-cases (Collection.find_by_id call.find_failure products cmd.id)) [
        | inr (e, missing) ↦ rw (missing, Service.update) v
        | inl (f, there) ↦
            elim (Result-cases
              (update_details call.now f cmd.name cmd.description cmd.attributes cmd.price_cents)) [
                | inr (e, invalid) ↦ rw (there, invalid, Service.update) v
                | inl (p, valid) ↦
                    let found = found_in call.find_failure products cmd.id f there in
                    let (h, same_id, same_sku) =
                      update_details_sound call.now f p cmd.name cmd.description cmd.attributes
                        cmd.price_cents valid (find_sound products cmd.id f v.sound found).0 in
                    rw (there, valid, Service.update)
                      (update-IsCatalog call.write_fate products cmd.id f p v found h same_id
                        same_sku)
              ]
      ]

  archive-IsCatalog :
      (call : Call) (products : List (Product V)) (id : ℕ)
      → IsCatalog products
      → IsCatalog (Service.archive call products id).0
  unfolding Service.archive archive_product
  archive-IsCatalog call products id v =
      elim (Result-cases (Collection.find_by_id call.find_failure products id)) [
        | inr (e, missing) ↦ rw (missing, Service.archive) v
        | inl (f, there) ↦
            let found = found_in call.find_failure products id f there in
            rw (there, Service.archive)
              (update-IsCatalog call.write_fate products id f (archive_product call.now f) v found
                (find_sound products id f v.sound found).0 refl refl)
      ]

  -- Whatever commands run on a sound collection, and whatever fails in them: every product keeps a name, a known
  -- category, a variant and a price that is not negative, and no two products have one SKU.
  pub run-IsCatalog :
      (products : List (Product V)) (cs : List (Command V))
      → IsCatalog products
      → IsCatalog (run products cs)
  unfolding run apply
  run-IsCatalog products [] v = v
  run-IsCatalog products (creates call cmd ∷ cs) v =
      run-IsCatalog (Service.create call products cmd).0 cs (create-IsCatalog call products cmd v)
  run-IsCatalog products (updates call cmd ∷ cs) v =
      run-IsCatalog (Service.update call products cmd).0 cs (change-IsCatalog call products cmd v)
  run-IsCatalog products (archives call id ∷ cs) v =
      run-IsCatalog (Service.archive call products id).0 cs (archive-IsCatalog call products id v)
