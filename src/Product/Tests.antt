-- ===== src/Product/Tests.antt =====
-- A concrete catalogue.
use go_blueprint.Product.{Product, Variant, pos}
use go_blueprint.Product.Collection.{Mongo}
use go_blueprint.Product.Service.{CreateCmd, Call}
use go_blueprint.Product.Catalog.{run-IsCatalog}
use go_blueprint.Product.Commands.{Command, IsCatalog, run, creates, archives}
use go_blueprint.Prelude.{refl, true, none, List, [], ◌∷◌, Text, codes}
use go_blueprint.Errors.{done}

abbrev pub call : Call
call = record { find_failure = none; write_fate = done; new_id = 1; now = 5 }

abbrev pub blue : Variant
blue = record {
  id = codes "v";
  attributes = [];
  sku_suffix = codes "B";
  stock_units = pos 3;
  active = true;
}

abbrev shirt : CreateCmd Text
shirt = record {
  name = codes "Shirt";
  description = [];
  sku = codes "S-1";
  category = codes "clothing";
  attributes = [];
  variants = blue ∷ [];
  price_cents = pos 1_999;
}

abbrev empty : List (Product Text)
empty = []

abbrev commands : List (Command Text)
commands = creates call shirt ∷ creates call shirt ∷ archives call 1 ∷ []

run-IsCatalog_example : IsCatalog (run empty commands)
run-IsCatalog_example = run-IsCatalog empty commands (record { sound = refl; apart = refl })

abbrev pub mongo : Mongo Text
mongo = record {
  text_matches = λ query p. true;
  by_score = λ query ps. ps;
  attribute_is = λ key value p. true;
  newest_first = λ ps. ps;
}

abbrev pub stored : Product Text
stored = record {
  id = 1;
  sku = codes "S-1";
  name = codes "Shirt";
  description = [];
  category = codes "clothing";
  attributes = [];
  variants = blue ∷ [];
  price_cents = pos 1_999;
  active = true;
  created_at = 5;
  updated_at = 5;
}
