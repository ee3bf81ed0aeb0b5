-- ===== src/Preferences/Service.antt =====
-- internal/customer/preferences_service.go.
use go_blueprint.Preferences.{
  CustomerPreferences, Document, Driver, repository_upsert, find_by_customer_id,
}
use go_blueprint.Prelude.{ℕ, Option, List, Text, codes}
use go_blueprint.Errors.{within, Result, Error, Fate}

pub record UpsertPreferencesCmd : Type 0 where
  pub customer_id : ℕ
  pub favorite_categories : Option (List Text)
  pub watch_list : Option (List Text)

module _ (driver : Driver) where
  -- PreferencesService.Upsert; `now` is time.Now().UTC().
  unfoldable pub upsert :
      Fate → ℕ → List Document → UpsertPreferencesCmd → List Document × Result (Unit {0})
  unfolding repository_upsert
  upsert fate now docs cmd =
      let saved = repository_upsert driver fate docs (record {
        customer_id = cmd.customer_id;
        favorite_categories = cmd.favorite_categories;
        watch_list = cmd.watch_list;
        updated_at = now;
      }) in
      (saved.0, within (codes "customer.PreferencesService.Upsert") saved.1)

  -- PreferencesService.GetByCustomerID.
  unfoldable pub get_by_customer_id : Option Error → List Document → ℕ → Result CustomerPreferences
  unfolding find_by_customer_id
  get_by_customer_id failure docs id =
      within (codes "customer.PreferencesService.GetByCustomerID")
        (find_by_customer_id driver failure docs id)
