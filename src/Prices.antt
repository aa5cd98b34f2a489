-- ===== src/Prices.antt =====
-- llm-gateway/priceBook.ts, and getManagedCatalog of llm-gateway/modelCatalog.ts: the prices that
-- are active, and the models that can be called. The order of texts of the database is an argument.
-- UNIQUE(provider, model, effective_from) leaves no ties in the order of dates.
use arivion.Prelude.{
  ℕ, String, Bool, true, false, not, ◌&&◌, Option, none, some, List, [], ◌∷◌, map, select, str_eq,
  ltb, leb, if◌then◌else◌,
}
use arivion.Credit.Types.{PriceRow}
use arivion.Credit.Gateway.{is_allowlisted}
pub mod Search
pub mod Dates
pub mod Catalog
pub mod Preferences
pub mod Defaults

-- a row of agent_model_price_book
pub record PriceEntry : Type 0 where
  pub price : PriceRow
  pub effective_from : ℕ
  pub effective_to : Option ℕ

abbrev is_open : ℕ → Option ℕ → Bool
is_open now none = true
is_open now (some end) = ltb now end

-- the condition on dates of both queries
abbrev pub is_active : ℕ → PriceEntry → Bool
is_active now e = leb e.effective_from now && is_open now e.effective_to

abbrev pub is_model : String → String → PriceEntry → Bool
is_model provider model e = str_eq e.price.provider provider && str_eq e.price.model model

-- `ORDER BY effective_from DESC`
unfoldable pub insert_by_date : PriceEntry → List PriceEntry → List PriceEntry
insert_by_date e [] = e ∷ []
insert_by_date e (x ∷ xs) =
    if leb x.effective_from e.effective_from then e ∷ (x ∷ xs) else x ∷ insert_by_date e xs

unfoldable pub by_date : List PriceEntry → List PriceEntry
unfolding insert_by_date
by_date [] = []
by_date (e ∷ es) = insert_by_date e (by_date es)

-- `LIMIT 1`
abbrev pub first : List PriceEntry → Option PriceEntry
first [] = none
first (e ∷ es) = some e

unfoldable pub get_active_price : ℕ → String → String → List PriceEntry → Option PriceEntry
unfolding by_date
get_active_price now provider model table =
    first (by_date (select (is_model provider model) (select (is_active now) table)))

-- `DISTINCT ON (provider, model)`: the first row of each
unfoldable pub distinct_on_model : List PriceEntry → List PriceEntry
distinct_on_model [] = []
distinct_on_model (e ∷ es) =
    e ∷ select (λ x. not (is_model e.price.provider e.price.model x)) (distinct_on_model es)

-- an entry of the catalogue, without the source of the price
pub record CatalogEntry : Type 0 where
  pub provider : String
  pub model : String
  pub provider_label : Option String
  pub input_micro_usd_per_mtoken : ℕ
  pub cached_input_micro_usd_per_mtoken : Option ℕ
  pub output_micro_usd_per_mtoken : ℕ

-- `PROVIDER_REGISTRY[provider].label`, undefined for an inherited name
unfoldable provider_label : String → Option String
provider_label provider =
    if str_eq provider "mock"
    then some "Mock (deterministic, local/test only)"
    else if str_eq provider "openai"
    then some "OpenAI"
    else if str_eq provider "anthropic"
    then some "Anthropic"
    else none

unfoldable pub entry_of : PriceEntry → CatalogEntry
unfolding provider_label
entry_of e = record {
  provider = e.price.provider;
  model = e.price.model;
  provider_label = provider_label e.price.provider;
  input_micro_usd_per_mtoken = e.price.input_micro_usd_per_mtoken;
  cached_input_micro_usd_per_mtoken = e.price.cached_input_micro_usd_per_mtoken;
  output_micro_usd_per_mtoken = e.price.output_micro_usd_per_mtoken;
}

module _ (before : String → String → Bool) where
  abbrev pub comes_first : PriceEntry → PriceEntry → Bool
  comes_first a b =
      if str_eq a.price.provider b.price.provider
      then before a.price.model b.price.model
      else before a.price.provider b.price.provider

  -- `ORDER BY provider, model`
  unfoldable pub insert_by_model : PriceEntry → List PriceEntry → List PriceEntry
  insert_by_model e [] = e ∷ []
  insert_by_model e (x ∷ xs) = if comes_first e x then e ∷ (x ∷ xs) else x ∷ insert_by_model e xs

  unfoldable pub by_model : List PriceEntry → List PriceEntry
  unfolding insert_by_model
  by_model [] = []
  by_model (e ∷ es) = insert_by_model e (by_model es)

  unfoldable pub list_active_prices : ℕ → List PriceEntry → List PriceEntry
  unfolding by_date distinct_on_model by_model
  list_active_prices now table =
      by_model (distinct_on_model (by_date (select (is_active now) table)))

  unfoldable pub get_managed_catalog : ℕ → List PriceEntry → List CatalogEntry
  unfolding list_active_prices
  get_managed_catalog now table =
      map entry_of (select (λ e. is_allowlisted e.price.provider) (list_active_prices now table))
