-- ===== src/Preferences.antt =====
-- internal/customer: preferences.go, preferences_service.go and preferences_handler.go, over the collection of
-- internal/platform/database/mongodb/preferences_repo.go. This file has the aggregate and the repository.
pub mod Service
pub mod Handler
pub mod Updates
pub mod Outcomes
pub mod Tests
use go_blueprint.Prelude.{
  ℕ, zero, suc, ◌+◌, ◌-◌, ◌*◌, ◌/◌, ◌≤◌, ◌<◌, ◌≡◌, ◌≢◌, refl, sym, ap, ◌∙◌, ◌⊎◌, ◌↔◌, inl, inr,
  Bool, true, false, not, ◌&&◌, ◌||◌, Option, none, some, List, [], ◌∷◌, ◌++◌, map, arith, ltb, leb,
  ◌==◌, if◌then◌else◌, Bool-cases, Option-cases, is_none, any, find, Text, codes, text_eq, length,
  is_empty,
}
use go_blueprint.Errors.{
  wrap, preferences_not_found, reply, settle, no_documents, sentinel, err, within, ok, Result, is,
  Fate, Error,
}

-- CustomerPreferences. A slice that is nil is `none`.
pub record CustomerPreferences : Type 0 where
  pub customer_id : ℕ
  pub favorite_categories : Option (List Text)
  pub watch_list : Option (List Text)
  pub updated_at : ℕ

-- The BSON values that stand for a customer's id.
pub data BsonValue : Type 0 where
  string_value binary_value : Text → BsonValue

abbrev pub bson_eq : BsonValue → BsonValue → Bool
bson_eq (string_value s) (string_value t) = text_eq s t
bson_eq (binary_value s) (binary_value t) = text_eq s t
bson_eq (string_value s) (binary_value t) = false
bson_eq (binary_value s) (string_value t) = false

pub record Document : Type 0 where
  pub customer_id : BsonValue
  pub favorite_categories : Option (List Text)
  pub watchlist : Option (List Text)
  pub updated_at : ℕ

-- uuid.UUID's String, and what the driver makes of a value of that type and back.
pub record Driver : Type 0 where
  pub uuid_text : ℕ → Text
  pub encode_uuid : ℕ → BsonValue
  pub decode_uuid : BsonValue → Result ℕ

-- A BSON date counts milliseconds.
abbrev pub to_bson_date : ℕ → ℕ
to_bson_date t = t / 1_000_000 * 1_000_000

module _ (driver : Driver) where
  -- bson.M{"customer_id": customerID.String()}.
  abbrev pub id_filter : ℕ → Document → Bool
  id_filter id d = bson_eq d.customer_id (string_value (driver.uuid_text id))

  -- The document of `$set`.
  abbrev pub to_document : CustomerPreferences → Document
  to_document p = record {
    customer_id = driver.encode_uuid p.customer_id;
    favorite_categories = p.favorite_categories;
    watchlist = p.watch_list;
    updated_at = to_bson_date p.updated_at;
  }

  -- Decode.
  abbrev pub from_document : Document → Result CustomerPreferences
  from_document d = elim (driver.decode_uuid d.customer_id) [
    | err e ↦ err e
    | ok id ↦ ok (record {
      customer_id = id;
      favorite_categories = d.favorite_categories;
      watch_list = d.watchlist;
      updated_at = d.updated_at;
    })
  ]

  -- `$set` on the first document that passes the filter: it names every field.
  pub set_first : ℕ → Document → List Document → List Document
  set_first id new [] = []
  set_first id new (d ∷ docs) = if id_filter id d then new ∷ docs else d ∷ set_first id new docs

  -- What the index customer_id_unique refuses.
  abbrev pub duplicate_key : Error
  duplicate_key = Error.opaque (codes "E11000 duplicate key error")

  -- UpdateOne with upsert: a document that passes the filter is set, or else one is inserted.
  unfoldable pub update_one :
      Fate → List Document → CustomerPreferences → List Document × Result (Unit {0})
  unfolding set_first
  update_one fate docs p =
      let new = to_document p in
      if any (id_filter p.customer_id) docs
      then if any (λ d. bson_eq d.customer_id new.customer_id && not (id_filter p.customer_id d))
          docs
        then (docs, err duplicate_key)
        else (settle fate docs (set_first p.customer_id new docs), reply fate)
      else if any (λ d. bson_eq d.customer_id new.customer_id) docs
      then (docs, err duplicate_key)
      else (settle fate docs (docs ++ new ∷ []), reply fate)

  -- PreferencesRepository.Upsert.
  unfoldable pub repository_upsert :
      Fate → List Document → CustomerPreferences → List Document × Result (Unit {0})
  unfolding update_one
  repository_upsert fate docs p =
      let done_ = update_one fate docs p in
      (done_.0, within (codes "mongodb.PreferencesRepository.Upsert") done_.1)

  -- FindOne and Decode; `failure` is an error of the connection.
  abbrev pub find_one : Option Error → Option Document → Result CustomerPreferences
  find_one (some e) found = err e
  find_one none none = err (sentinel no_documents)
  find_one none (some d) = from_document d

  -- PreferencesRepository.FindByCustomerID.
  unfoldable pub find_by_customer_id : Option Error → List Document → ℕ → Result CustomerPreferences
  unfolding is
  find_by_customer_id failure docs id = elim (find_one failure (find (id_filter id) docs)) [
    | ok p ↦ ok p
    | err e ↦
        if is e no_documents
        then err (sentinel preferences_not_found)
        else err (wrap (codes "mongodb.PreferencesRepository.FindByCustomerID") e)
  ]
