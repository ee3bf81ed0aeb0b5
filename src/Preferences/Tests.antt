-- ===== src/Preferences/Tests.antt =====
-- Preferences stored and read back, on concrete data.
use go_blueprint.Prelude.{ℕ, ◌≡◌, refl, true, none, some, List, [], ◌∷◌, Text, codes, text_eq}
use go_blueprint.Preferences.Service
use go_blueprint.Preferences.{
  set_first, update_one, repository_upsert, string_value, binary_value, Driver, Document, BsonValue,
}
use go_blueprint.Preferences.Handler.{get_preferences, PreferencesRequest, upsert_preferences}
use go_blueprint.Errors.{done, ok, Result}
use go_blueprint.Customer.Http.{http_error, status}
use go_blueprint.Preferences.Outcomes.{binary_ids_lose, binary_ids}

abbrev id_of : BsonValue → Result ℕ
id_of (string_value []) = ok 0
id_of (string_value (n ∷ s)) = ok n
id_of (binary_value []) = ok 0
id_of (binary_value (n ∷ s)) = ok n

abbrev bytes_ids : Driver
bytes_ids = record {
  uuid_text = λ n. n ∷ [];
  encode_uuid = λ n. binary_value (n ∷ []);
  decode_uuid = id_of;
}

abbrev asks : PreferencesRequest
asks = record { favorite_categories = some (codes "books" ∷ []); watch_list = none }

abbrev theirs : BsonValue → Document
theirs id = record {
  customer_id = id;
  favorite_categories = none;
  watchlist = some (codes "w" ∷ []);
  updated_at = 5_000_000;
}

abbrev bytes_docs : List Document
bytes_docs = theirs (binary_value (8 ∷ [])) ∷ []

abbrev number : ℕ → Text
number n = n ∷ []

binary_ids_lose_example :
    (status (
        get_preferences bytes_ids number none
          (upsert_preferences bytes_ids number done 12_345_678 bytes_docs (ok 7) (ok asks)).0
          (ok 7))
      ≡ 404)
    × (upsert_preferences bytes_ids number done 12_345_679
          (upsert_preferences bytes_ids number done 12_345_678 bytes_docs (ok 7) (ok asks)).0
          (ok 7)
          (ok asks)
        ≡ (
          (upsert_preferences bytes_ids number done 12_345_678 bytes_docs (ok 7) (ok asks)).0,
          http_error 500 (codes "internal error"),
        ))
    × (binary_ids
          (upsert_preferences bytes_ids number done 12_345_678 bytes_docs (ok 7) (ok asks)).0
        ≡ true)
unfolding upsert_preferences Service.upsert repository_upsert update_one text_eq set_first
binary_ids_lose_example =
    binary_ids_lose bytes_ids number done done 12_345_678 12_345_679 bytes_docs 7 asks asks refl
      refl refl
