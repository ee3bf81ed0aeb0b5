-- ===== src/Preferences/Outcomes.antt =====
-- What a PUT of preferences leaves for a GET, by how the driver encodes the id.
use go_blueprint.Preferences.{
  duplicate_key, Document, Driver, BsonValue, string_value, binary_value, id_filter, to_document,
  update_one, repository_upsert, find_by_customer_id, bson_eq,
}
use go_blueprint.Preferences.Service
use go_blueprint.Preferences.Updates.{updated}
use go_blueprint.Customer.Http.{http_error, replied, status}
use go_blueprint.Prelude.Every.{all}
use go_blueprint.Prelude.{text_eq_refl}
use go_blueprint.Prelude.{
  ℕ, ◌≡◌, refl, sym, ap, ◌∙◌, inl, inr, Bool, true, false, none, List, [], ◌∷◌, ◌++◌, arith, ◌==◌,
  Bool-cases, any, find, Text, codes,
}
use go_blueprint.Errors.{within, Result, err, is, ok, Fate}
use go_blueprint.Preferences.Handler.{
  map_preferences_error, get_preferences, upsert_preferences, PreferencesRequest,
}
use go_blueprint.Preferences.Updates.{asked, put_is_update}

abbrev pub is_binary : BsonValue → Bool
is_binary (string_value s) = false
is_binary (binary_value s) = true

no_text : (b : BsonValue) (s : Text) → is_binary b ≡ true → bson_eq b (string_value s) ≡ false
no_text (string_value r) s h = cc
no_text (binary_value r) s h = refl

abbrev pub binary_ids : List Document → Bool
binary_ids docs = all (λ (d : Document). is_binary d.customer_id) docs

module _ (driver : Driver) where
  unfound :
      (id : ℕ) (docs : List Document)
      → binary_ids docs ≡ true
      → any (id_filter driver id) docs ≡ false
  unfound id [] h = refl
  unfound id (d ∷ docs) h =
      ground (arith, no_text d.customer_id (driver.uuid_text id), unfound id docs)

  finds_nothing :
      (id : ℕ) (docs : List Document)
      → any (id_filter driver id) docs ≡ false
      → find (id_filter driver id) docs ≡ none
  finds_nothing id [] h = refl
  finds_nothing id (d ∷ docs) h = elim (Bool-cases (id_filter driver id d)) [
    | inl hit ↦ cc (rw hit at h)
    | inr miss ↦ rw miss (finds_nothing id docs (rw miss at h))
  ]

  binary_added :
      (docs : List Document) (new : Document)
      → binary_ids docs ≡ true
      → is_binary new.customer_id ≡ true
      → binary_ids (docs ++ new ∷ []) ≡ true
  binary_added [] new h k = rw k refl
  binary_added (d ∷ docs) new h k = ground (arith, binary_added docs new)

  known_added :
      (b : BsonValue) (docs : List Document) (new : Document)
      → bson_eq new.customer_id b ≡ true
      → any (λ d. bson_eq d.customer_id b) (docs ++ new ∷ []) ≡ true
  known_added b [] new h = rw h refl
  known_added b (d ∷ docs) new h = ground (arith, known_added b docs new)

bson_eq_refl : (b : BsonValue) → bson_eq b b ≡ true
bson_eq_refl (string_value s) = text_eq_refl s
bson_eq_refl (binary_value s) = text_eq_refl s

update_refused :
    (driver : Driver) (format_time : ℕ → Text) (fate : Fate) (now : ℕ) (docs : List Document)
    (id : ℕ) (req : PreferencesRequest)
    → any (id_filter driver id) docs ≡ false
    → any (λ d. bson_eq d.customer_id (driver.encode_uuid id)) docs ≡ true
    → update_one driver fate docs (asked driver format_time fate now docs id req)
      ≡ (docs, err (duplicate_key driver))
unfolding update_one
update_refused driver format_time fate now docs id req absent dup =
    rw (absent, dup, update_one) refl

-- An update that meets the id in the index, where no text is an id, is refused.
refused_again :
    (driver : Driver) (format_time : ℕ → Text) (fate : Fate) (now : ℕ) (docs : List Document)
    (id : ℕ) (req : PreferencesRequest)
    → any (id_filter driver id) docs ≡ false
    → any (λ d. bson_eq d.customer_id (driver.encode_uuid id)) docs ≡ true
    → upsert_preferences driver format_time fate now docs (ok id) (ok req)
      ≡ (docs, http_error 500 (codes "internal error"))
unfolding upsert_preferences Service.upsert repository_upsert
refused_again driver format_time fate now docs id req absent dup =
    ap
      (λ (x : List Document × Result (Unit {0})).
        elim (within (codes "customer.PreferencesService.Upsert")
          (within (codes "mongodb.PreferencesRepository.Upsert") x.1)) [
            | err e ↦ (x.0, http_error 500 (codes "internal error"))
            | ok _ ↦ (x.0, replied 204 tt)
          ])
      (update_refused driver format_time fate now docs id req absent dup)

missing_answer :
    (driver : Driver) (format_time : ℕ → Text) (docs : List Document) (id : ℕ)
    → find (id_filter driver id) docs ≡ none
    → status (get_preferences driver format_time none docs (ok id)) ≡ 404
unfolding get_preferences Service.get_by_customer_id find_by_customer_id map_preferences_error is
missing_answer driver format_time docs id missing =
    rw
      (
        missing, get_preferences, Service.get_by_customer_id, find_by_customer_id,
        map_preferences_error,
      )
      refl

-- If the driver encodes an id as binary data, as it does a byte array, and every id in the collection is
-- binary: after a PUT that is answered 204, a GET of the same customer is answered 404, every further PUT
-- for that customer is answered 500 and changes nothing, and every id in the collection is still binary.
pub binary_ids_lose :
    (driver : Driver) (format_time : ℕ → Text) (fate again : Fate) (now now' : ℕ)
    (docs : List Document) (id : ℕ) (req req' : PreferencesRequest)
    → is_binary (driver.encode_uuid id) ≡ true
    → binary_ids docs ≡ true
    → status (upsert_preferences driver format_time fate now docs (ok id) (ok req)).1 ≡ 204
    → (status (
          get_preferences driver format_time none
            (upsert_preferences driver format_time fate now docs (ok id) (ok req)).0
            (ok id))
        ≡ 404)
      × (upsert_preferences driver format_time again now'
            (upsert_preferences driver format_time fate now docs (ok id) (ok req)).0
            (ok id)
            (ok req')
          ≡ (
            (upsert_preferences driver format_time fate now docs (ok id) (ok req)).0,
            http_error 500 (codes "internal error"),
          ))
      × (binary_ids (upsert_preferences driver format_time fate now docs (ok id) (ok req)).0 ≡ true)
binary_ids_lose driver format_time fate again now now' docs id req req' encodes binary h =
    let (same, answer) = put_is_update driver format_time fate now docs id req in
    elim (updated driver format_time fate now docs id req (answer ∙ ap (λ n. n == 204) h)) [
      | inl (known, set) ↦ cc (sym known ∙ unfound driver id docs binary)
      | inr (absent, added) ↦
          let new = to_document driver (asked driver format_time fate now docs id req) in
          let still = binary_added driver docs new binary encodes in
          let nothing = unfound driver id (docs ++ new ∷ []) still in
          let after : (upsert_preferences driver format_time fate now docs (ok id) (ok req)).0
              ≡ docs ++ new ∷ [] =
            same ∙ added in
          rw after (
            missing_answer driver format_time (docs ++ new ∷ []) id
                (finds_nothing driver id (docs ++ new ∷ []) nothing),
            refused_again driver format_time again now' (docs ++ new ∷ []) id req' nothing (
                known_added driver (driver.encode_uuid id) docs new
                  (bson_eq_refl (driver.encode_uuid id))),
            still,
          )
    ]
