-- ===== src/Indexes.antt =====
-- internal/platform/database/mongodb/client.go: the indexes that EnsureIndexes asks for. What MongoDB answers is a
-- parameter.
use go_blueprint.Prelude.{Bool, true, false, ℕ, List, [], ◌∷◌, Text, codes}
use go_blueprint.Errors.{Result, within, ◌>>◌}

-- A key of an index: ascending, or one of a text index.
pub data Direction : Type 0 where
  ascending full_text : Direction

-- mongo.IndexModel.
pub record IndexModel : Type 0 where
  pub keys : List (Text × Direction)
  pub unique : Bool
  pub name : Text
  pub weights : List (Text × ℕ)

abbrev pub product_indexes : List IndexModel
product_indexes =
    record {
      keys = (codes "sku", ascending) ∷ [];
      unique = true;
      name = codes "sku_unique";
      weights = [];
    }
    ∷ record {
      keys = (codes "category", ascending) ∷ (codes "active", ascending) ∷ [];
      unique = false;
      name = codes "category_active";
      weights = [];
    }
    ∷ record {
      keys = (codes "name", full_text) ∷ (codes "description", full_text) ∷ [];
      unique = false;
      name = codes "product_text_search";
      weights = (codes "name", 10) ∷ (codes "description", 1) ∷ [];
    }
    ∷ []

abbrev pub preferences_indexes : List IndexModel
preferences_indexes =
    record {
      keys = (codes "customer_id", ascending) ∷ [];
      unique = true;
      name = codes "customer_id_unique";
      weights = [];
    }
    ∷ []

-- `create` is CreateMany of a collection, and CreateOne for a single index.
module _ (create : Text → List IndexModel → Result (Unit {0})) where
  abbrev pub ensure_product_indexes : Result (Unit {0})
  ensure_product_indexes =
      within (codes "mongodb.EnsureIndexes products") (create (codes "products") product_indexes)

  abbrev pub ensure_preferences_indexes : Result (Unit {0})
  ensure_preferences_indexes =
      within (codes "mongodb.EnsureIndexes customer_preferences")
        (create (codes "customer_preferences") preferences_indexes)

  abbrev pub ensure_indexes : Result (Unit {0})
  ensure_indexes = do ensure_product_indexes; ensure_preferences_indexes
