-- ===== src/Preferences/Updates.antt =====
-- What an update leaves in the collection of preferences.
use go_blueprint.Preferences.{
  CustomerPreferences, Document, Driver, id_filter, to_document, update_one, set_first,
  repository_upsert, bson_eq,
}
use go_blueprint.Preferences.Service
use go_blueprint.Customer.Http.{status}
use go_blueprint.Prelude.{
  ℕ, ◌≡◌, refl, ◌⊎◌, inl, inr, true, false, not, ◌&&◌, List, [], ◌∷◌, ◌++◌, ◌==◌, Bool-cases, any,
  Text,
}
use go_blueprint.Errors.{done, lost, refused, settle, reply, Result-cases, ok, is_ok, Fate}
use go_blueprint.Preferences.Handler.{upsert_preferences, PreferencesRequest}

settled_ok :
    {S : Type 0} (fate : Fate) (before after : S)
    → is_ok (reply fate) ≡ true
    → settle fate before after ≡ after
settled_ok done before after h = refl
settled_ok (refused e) before after h = cc
settled_ok (lost e) before after h = cc

module _ (driver : Driver) (format_time : ℕ → Text) (fate : Fate) (now : ℕ) (docs : List Document)
    (id : ℕ) (req : PreferencesRequest) where
  -- What a PUT asks to store.
  abbrev pub asked : CustomerPreferences
  asked = record {
    customer_id = id;
    favorite_categories = req.favorite_categories;
    watch_list = req.watch_list;
    updated_at = now;
  }

  -- A PUT is the update of the collection, and its status says whether that failed.
  pub put_is_update :
      ((upsert_preferences driver format_time fate now docs (ok id) (ok req)).0
        ≡ (update_one driver fate docs asked).0)
      × (is_ok (update_one driver fate docs asked).1 ≡ (
          status (upsert_preferences driver format_time fate now docs (ok id) (ok req)).1 == 204))
  unfolding upsert_preferences Service.upsert repository_upsert
  put_is_update = elim (Result-cases (update_one driver fate docs asked).1) [
    | inl (u, saved) ↦
        rw (saved, upsert_preferences, Service.upsert, repository_upsert) (refl, refl)
    | inr (e, failed) ↦
        rw (failed, upsert_preferences, Service.upsert, repository_upsert) (refl, refl)
  ]

  -- An update that succeeded set the first document of the id, or added one.
  pub updated :
      is_ok (update_one driver fate docs asked).1 ≡ true
      → ((any (id_filter driver id) docs ≡ true)
          × ((update_one driver fate docs asked).0
              ≡ set_first driver id (to_document driver asked) docs))
        ⊎ ((any (id_filter driver id) docs ≡ false)
            × ((update_one driver fate docs asked).0 ≡ docs ++ to_document driver asked ∷ []))
  unfolding update_one
  updated h = elim (Bool-cases (any (id_filter driver id) docs)) [
    | inl known ↦
        elim (Bool-cases (
          any (λ d. bson_eq d.customer_id (driver.encode_uuid id) && not (id_filter driver id d))
            docs)) [
              | inl dup ↦ cc (rw (known, dup, update_one) at h)
              | inr single ↦ inl (
                known,
                rw (known, single, update_one)
                    (settled_ok fate docs _ (rw (known, single, update_one) at h)),
              )
            ]
    | inr new ↦ elim (Bool-cases (any (λ d. bson_eq d.customer_id (driver.encode_uuid id)) docs)) [
      | inl dup ↦ cc (rw (new, dup, update_one) at h)
      | inr single ↦ inr (
        new,
        rw (new, single, update_one) (settled_ok fate docs _ (rw (new, single, update_one) at h)),
      )
    ]
  ]
