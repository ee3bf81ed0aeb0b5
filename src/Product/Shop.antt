-- ===== src/Product/Shop.antt =====
-- What a client of the product routes sees after a POST.
use go_blueprint.Prelude.{
  map, ◌∙◌, none, ap, Option, inl, inr, refl, ℕ, ◌≡◌, ◌≢◌, true, false, ◌||◌, some, List, [], ◌∷◌,
  ◌++◌, arith, ◌==◌, any, find, Text, text_eq,
}
use go_blueprint.Product.{ℤ, Variant, Product, new_product}
use go_blueprint.Product.Collection
use go_blueprint.Product.Collection.{Mongo, replace_one}
use go_blueprint.Product.Http.{
  http_get, to_variant_response, create_cmd, to_variants, CreateRequest, http_create, Codec,
  map_domain_error,
}
use go_blueprint.Customer.Http.{replied, Response, status}
use go_blueprint.Product.Service
use go_blueprint.Product.Service.{Call}
use go_blueprint.Errors.{Result-cases, ok, Error, Fate}

-- No failure is answered 201 or 204.
not_created : {A : Type 0} (e : Error) (r : Response A) → map_domain_error e ≡ r → status r ≢ 201
unfolding map_domain_error
not_created e r h = ground arith

pub not_archived :
    {A : Type 0} (e : Error) (r : Response A) → map_domain_error e ≡ r → status r ≢ 204
unfolding map_domain_error
not_archived e r h = ground arith

module _ {V : Type 0} where
  new_product_is :
      (id now : ℕ) (name description sku category : Text) (attributes : List (Text × V))
      (variants : List Variant) (price : ℤ) (p : Product V)
      → new_product id now name description sku category attributes variants price ≡ ok p
      → p ≡ record {
        id = id;
        sku = sku;
        name = name;
        description = description;
        category = category;
        attributes = attributes;
        variants = variants;
        price_cents = price;
        active = true;
        created_at = now;
        updated_at = now;
      }
  unfolding new_product
  new_product_is id now name description sku category attributes variants price p h = ground arith

  saved_appends :
      (fate : Fate) (products : List (Product V)) (p : Product V) (u : Unit {0})
      → (Collection.save fate products p).1 ≡ ok u
      → ((Collection.save fate products p).0 ≡ products ++ p ∷ [])
        × (any (λ q. q.id == p.id || text_eq q.sku p.sku) products ≡ false)
  unfolding Collection.save
  saved_appends fate products p u h = ground arith

  find_new :
      (products : List (Product V)) (p : Product V)
      → any (λ q. q.id == p.id || text_eq q.sku p.sku) products ≡ false
      → find (λ q. q.id == p.id) (products ++ p ∷ []) ≡ some p
  find_new [] p h = ground arith
  find_new (q ∷ products) p h = ground (arith, find_new products p)

  find_old :
      (products : List (Product V)) (p : Product V) (j : ℕ)
      → (p.id == j) ≡ false
      → find (λ q. q.id == j) (products ++ p ∷ []) ≡ find (λ q. q.id == j) products
  find_old [] p j h = ground arith
  find_old (q ∷ products) p j h = ground (arith, find_old products p j)

  pub get_found :
      (products : List (Product V)) (id : ℕ) (p : Product V)
      → find (λ q. q.id == id) products ≡ some p
      → Service.get_by_id none products id ≡ ok p
  unfolding Service.get_by_id Collection.find_by_id
  get_found products id p h = rw (h, Service.get_by_id, Collection.find_by_id) refl

  get_other :
      (failure : Option Error) (products : List (Product V)) (p : Product V) (j : ℕ)
      → (p.id == j) ≡ false
      → Service.get_by_id failure (products ++ p ∷ []) j ≡ Service.get_by_id failure products j
  unfolding Service.get_by_id Collection.find_by_id
  get_other (some e) products p j h = refl
  get_other none products p j h =
      rw (find_old products p j h, Service.get_by_id, Collection.find_by_id) refl

  -- The product that a request asks for.
  abbrev pub requested : Codec V → Call → CreateRequest V → Product V
  requested codec call req = record {
    id = call.new_id;
    sku = req.sku;
    name = req.name;
    description = req.description;
    category = req.category;
    attributes = req.attributes;
    variants = to_variants codec.fresh 0 req.variants;
    price_cents = req.price_cents;
    active = true;
    created_at = call.now;
    updated_at = call.now;
  }

  create_ok :
      (codec : Codec V) (call : Call) (products : List (Product V)) (req : CreateRequest V) (id : ℕ)
      → (Service.create call products (create_cmd codec req)).1 ≡ ok id
      → ((Service.create call products (create_cmd codec req)).0
          ≡ products ++ requested codec call req ∷ [])
        × (any (λ q. q.id == call.new_id || text_eq q.sku req.sku) products ≡ false)
  unfolding Service.create
  create_ok codec call products req id h =
      elim (Result-cases (
        new_product call.new_id call.now req.name req.description req.sku req.category
          req.attributes (to_variants codec.fresh 0 req.variants) req.price_cents)) [
            | inr (e, failed) ↦ cc (rw (failed, Service.create) at h)
            | inl (p, made) ↦
                let is_p =
                  new_product_is call.new_id call.now req.name req.description req.sku req.category
                    req.attributes (to_variants codec.fresh 0 req.variants) req.price_cents p
                    made in
                elim (Result-cases
                  (Collection.save call.write_fate products (requested codec call req)).1) [
                    | inr (e, failed) ↦ cc (rw (made ∙ ap ok is_p, failed, Service.create) at h)
                    | inl (u, saved) ↦
                        rw (made ∙ ap ok is_p, saved, Service.create)
                          (saved_appends call.write_fate products (requested codec call req) u
                            saved)
                  ]
          ]

  created :
      (codec : Codec V) (call : Call) (products : List (Product V)) (req : CreateRequest V)
      → status (http_create codec call products (ok req)).1 ≡ 201
      → ((http_create codec call products (ok req)).0 ≡ products ++ requested codec call req ∷ [])
        × (any (λ q. q.id == call.new_id || text_eq q.sku req.sku) products ≡ false)
  unfolding http_create
  created codec call products req h = elim (Result-cases (codec.validate_create req)) [
    | inr (e, invalid) ↦ absurd (omega (arith, rw (invalid, http_create) at h))
    | inl (u, valid) ↦ elim (Result-cases (Service.create call products (create_cmd codec req)).1) [
      | inr (e, failed) ↦
          absurd (not_created e (map_domain_error e) refl (rw (valid, failed, http_create) at h))
      | inl (id, made) ↦ rw (valid, made, http_create) (create_ok codec call products req id made)
    ]
  ]

-- After a POST that is answered 201, if the hexadecimal form of an id is read as that id: a GET of the new
-- id is answered 200 with what the request said, active and both times those of the POST; and a GET of any
-- text that is read as another id, or as none, is answered as before.
pub create_then_get :
    {V : Type 0} (codec : Codec V) (call : Call) (products : List (Product V))
    (req : CreateRequest V)
    → codec.object_id_from_hex (codec.hex call.new_id) ≡ ok call.new_id
    → status (http_create codec call products (ok req)).1 ≡ 201
    → (failure : Option Error) (param : Text)
    → ((j : ℕ) → codec.object_id_from_hex param ≡ ok j → (call.new_id == j) ≡ false)
    → (http_get codec none (http_create codec call products (ok req)).0 (codec.hex call.new_id)
        ≡ replied 200 (record {
          id = codec.hex call.new_id;
          sku = req.sku;
          name = req.name;
          description = req.description;
          category = req.category;
          attributes = req.attributes;
          variants = map to_variant_response (to_variants codec.fresh 0 req.variants);
          price_cents = req.price_cents;
          active = true;
          created_at = codec.format_time call.now;
          updated_at = codec.format_time call.now;
        }))
      × (http_get codec failure (http_create codec call products (ok req)).0 param
          ≡ http_get codec failure products param)
unfolding http_get
create_then_get codec call products req reads h failure param apart =
    let (after, new) = created codec call products req h in
    let new_p = requested codec call req in
    let own : find (λ q. q.id == call.new_id) (products ++ new_p ∷ []) ≡ some new_p =
      find_new products new_p new in
    rw after (
      rw (reads, http_get, get_found (products ++ new_p ∷ []) call.new_id new_p own) refl,
      elim (Result-cases (codec.object_id_from_hex param)) [
        | inr (e, bad) ↦ rw (bad, http_get) refl
        | inl (j, good) ↦
            rw (good, http_get, get_other failure products new_p j (apart j good)) refl
      ],
    )
