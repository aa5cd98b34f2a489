-- ===== src/Examples/Prices.antt =====
-- The theorem of Prices, at a table with an ended price and two models.
use arivion.Prelude.{String, Bool, none, some, List, [], ◌∷◌, ◌≡◌, refl, str_eq, if◌then◌else◌}
use mathlib.Core.Option
use arivion.Credit.Types.{PriceRow}
use arivion.Credit.Gateway.{is_allowlisted}
use arivion.Prices.{PriceEntry, CatalogEntry, entry_of, get_active_price, get_managed_catalog}
use arivion.Prices.Search.{entry_for}
use arivion.Prices.Catalog.{catalog_price_is_active}
use arivion.Prices.Preferences.{PreferencesTable, get_preferences, default_entry, resolve_models}
use arivion.Prices.Defaults.{Callable, fresh_defaults-Callable}

abbrev row : String → PriceRow
row model = record {
  provider = "openai";
  model = model;
  input_micro_usd_per_mtoken = 250000;
  cached_input_micro_usd_per_mtoken = some 25000;
  output_micro_usd_per_mtoken = 2000000;
  reasoning_micro_usd_per_mtoken = none;
}

abbrev ended : PriceEntry
ended = record { price = row "mini"; effective_from = 10; effective_to = some 40 }

abbrev current : PriceEntry
current = record { price = row "mini"; effective_from = 30; effective_to = none }

abbrev large : PriceEntry
large = record { price = row "large"; effective_from = 20; effective_to = none }

abbrev table : List PriceEntry
table = ended ∷ large ∷ current ∷ []

abbrev before : String → String → Bool
before a b = str_eq a "large"

newest_charged : get_active_price 35 "openai" "mini" table ≡ some current
unfolding get_active_price
newest_charged = refl

catalog_price_is_active_example :
    entry_for "openai" "mini" (get_managed_catalog before 35 table)
    ≡ Option.map entry_of
        (if is_allowlisted "openai" then get_active_price 35 "openai" "mini" table else none)
catalog_price_is_active_example = catalog_price_is_active before 35 "openai" "mini" table

abbrev nobody : PreferencesTable
nobody owner = none

abbrev offered : List CatalogEntry
offered = entry_of large ∷ entry_of current ∷ []

both_offered : get_managed_catalog before 35 table ≡ offered
unfolding get_managed_catalog entry_of is_allowlisted
both_offered = refl

fresh_defaults-Callable_example :
    (Callable 35 table "openai" "large"
      × Callable 35 table "openai" "large"
      × Callable 35 table "openai" "large")
    × ((catalog : List CatalogEntry)
        → get_preferences catalog 7
            (get_preferences (get_managed_catalog before 35 table) 7 nobody).1
          ≡ get_preferences (get_managed_catalog before 35 table) 7 nobody)
unfolding get_preferences default_entry get_managed_catalog entry_of resolve_models is_allowlisted
fresh_defaults-Callable_example =
    fresh_defaults-Callable before 35 7 table nobody (entry_of large) (entry_of current ∷ []) refl
      both_offered
