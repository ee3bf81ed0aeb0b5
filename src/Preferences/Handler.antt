-- ===== src/Preferences/Handler.antt =====
-- internal/customer/preferences_handler.go. What uuid.Parse and Bind answer is an argument.
use go_blueprint.Preferences.{CustomerPreferences, Document, Driver}
use go_blueprint.Preferences.Service
use go_blueprint.Customer.Http.{Response, http_error, replied}
use go_blueprint.Prelude.{ℕ, Option, none, some, List, [], if◌then◌else◌, Text, codes}
use go_blueprint.Errors.{ok, err, text, Result, preferences_not_found, is, Error, Fate}

-- preferencesRequest: a list that is missing, or null, is nil.
pub record PreferencesRequest : Type 0 where
  pub favorite_categories : Option (List Text)
  pub watch_list : Option (List Text)

pub record PreferencesResponse : Type 0 where
  pub customer_id : Text
  pub favorite_categories : List Text
  pub watch_list : List Text
  pub updated_at : Text

-- mapPreferencesError.
unfoldable pub map_preferences_error : {A : Type 0} → Error → Response A
unfolding is
map_preferences_error e =
    if is e preferences_not_found
    then http_error 404 (text e)
    else http_error 500 (codes "internal error")

-- `if cats == nil { cats = []string{} }`.
abbrev pub or_empty : Option (List Text) → List Text
or_empty none = []
or_empty (some texts) = texts

-- toPreferencesResponse.
abbrev pub to_preferences_response :
    (ℕ → Text) → (ℕ → Text) → CustomerPreferences → PreferencesResponse
to_preferences_response uuid_text format_time p = record {
  customer_id = uuid_text p.customer_id;
  favorite_categories = or_empty p.favorite_categories;
  watch_list = or_empty p.watch_list;
  updated_at = format_time p.updated_at;
}

module _ (driver : Driver) (format_time : ℕ → Text) where
  -- PreferencesHandler.GetPreferences.
  unfoldable pub get_preferences :
      Option Error → List Document → Result ℕ → Response PreferencesResponse
  unfolding map_preferences_error
  get_preferences failure docs (err e) = http_error 400 (codes "invalid customer ID")
  get_preferences failure docs (ok id) = elim (Service.get_by_customer_id driver failure docs id) [
    | err e ↦ map_preferences_error e
    | ok p ↦ replied 200 (to_preferences_response driver.uuid_text format_time p)
  ]

  -- PreferencesHandler.UpsertPreferences.
  unfoldable pub upsert_preferences :
      Fate
      → ℕ
      → List Document
      → Result ℕ
      → Result PreferencesRequest
      → List Document × Response (Unit {0})
  upsert_preferences fate now docs (err e) bound =
      (docs, http_error 400 (codes "invalid customer ID"))
  upsert_preferences fate now docs (ok id) (err e) = (docs, http_error 400 (text e))
  upsert_preferences fate now docs (ok id) (ok req) =
      let saved = Service.upsert driver fate now docs (record {
        customer_id = id;
        favorite_categories = req.favorite_categories;
        watch_list = req.watch_list;
      }) in
      elim saved.1 [
        | err e ↦ (saved.0, http_error 500 (codes "internal error"))
        | ok _ ↦ (saved.0, replied 204 tt)
      ]
