-- ===== src/Prices/Preferences.antt =====
-- The model preferences of an owner (llm-gateway/modelCatalog.ts: resolveModels, getPreferences,
-- updatePreferences), the table agent_model_preferences as a row for each owner.
use arivion.Prelude.{
  ℕ, String, Bool, not, ◌==◌, Option, none, some, List, [], ◌∷◌, str_eq, if◌then◌else◌,
}
use mathlib.Core.Option
use arivion.Prices.{CatalogEntry}
use arivion.Prices.Search.{find, entry_for}

pub record ModelPreferences : Type 0 where
  pub owner_id : ℕ
  pub default_provider_mode : String
  pub default_provider : String
  pub default_model : String
  pub planner_model : Option String
  pub actor_model : Option String
  pub triage_model : Option String
  pub embedding_model : Option String
  pub fallback_policy : String

abbrev pub PreferencesTable : Type 0
PreferencesTable = ℕ → Option ModelPreferences

pub record Models : Type 0 where
  pub planner : String
  pub actor : String
  pub triage : String

-- `COALESCE` and `??`
abbrev coalesce : Option String → String → String
coalesce none b = b
coalesce (some a) b = a

unfoldable pub resolve_models : ModelPreferences → Models
resolve_models prefs = record {
  planner = coalesce prefs.planner_model prefs.default_model;
  actor = coalesce prefs.actor_model prefs.default_model;
  triage = coalesce prefs.triage_model prefs.default_model;
}

-- `FALLBACK_DEFAULT`
abbrev pub fallback_provider : String
fallback_provider = "openai"

abbrev pub fallback_model : String
fallback_model = "gpt-5-mini"

abbrev pub head : List CatalogEntry → Option CatalogEntry
head [] = none
head (c ∷ cs) = some c

abbrev pub is_from_openai : CatalogEntry → Bool
is_from_openai c = str_eq c.provider "openai"

abbrev pub is_not_mock : CatalogEntry → Bool
is_not_mock c = not (str_eq c.provider "mock")

-- the entry from which the defaults of a new owner are made
unfoldable pub default_entry : List CatalogEntry → Option CatalogEntry
unfolding Option.or_else
default_entry catalog = Option.or_else (entry_for fallback_provider fallback_model catalog) (
    Option.or_else (find is_from_openai catalog)
      (Option.or_else (find is_not_mock catalog) (head catalog)))

abbrev provider_in : Option CatalogEntry → String
provider_in none = fallback_provider
provider_in (some c) = c.provider

abbrev model_in : Option CatalogEntry → String
model_in none = fallback_model
model_in (some c) = c.model

-- a new row, with the defaults of the table's columns
abbrev pub new_row : ℕ → Option CatalogEntry → ModelPreferences
new_row owner priced = record {
  owner_id = owner;
  default_provider_mode = "managed";
  default_provider = provider_in priced;
  default_model = model_in priced;
  planner_model = none;
  actor_model = none;
  triage_model = none;
  embedding_model = none;
  fallback_policy = "ask";
}

abbrev pub put_row : ℕ → ModelPreferences → PreferencesTable → PreferencesTable
put_row owner row table id = if owner == id then some row else table id

-- `INSERT ... ON CONFLICT (owner_id) DO UPDATE SET updated_at = now() RETURNING *`
unfoldable pub insert_row :
    ModelPreferences
    → Option ModelPreferences
    → PreferencesTable
    → ModelPreferences × PreferencesTable
insert_row row none table = (row, put_row row.owner_id row table)
insert_row row (some existing) table = (existing, table)

-- the part of getPreferences after the query that found no row
unfoldable pub create_preferences :
    List CatalogEntry → ℕ → PreferencesTable → ModelPreferences × PreferencesTable
unfolding default_entry insert_row
create_preferences catalog owner table =
    insert_row (new_row owner (default_entry catalog)) (table owner) table

abbrev found_or :
    List CatalogEntry
    → ℕ
    → Option ModelPreferences
    → PreferencesTable
    → ModelPreferences × PreferencesTable
found_or catalog owner none table = create_preferences catalog owner table
found_or catalog owner (some existing) table = (existing, table)

unfoldable pub get_preferences :
    List CatalogEntry → ℕ → PreferencesTable → ModelPreferences × PreferencesTable
unfolding create_preferences
get_preferences catalog owner table = found_or catalog owner (table owner) table

-- `Partial<Omit<ModelPreferences, "owner_id">>`
pub record PreferencesPatch : Type 0 where
  pub default_provider_mode : Option String
  pub default_provider : Option String
  pub default_model : Option String
  pub planner_model : Option String
  pub actor_model : Option String
  pub triage_model : Option String
  pub embedding_model : Option String
  pub fallback_policy : Option String

unfoldable patched : PreferencesPatch → ModelPreferences → ModelPreferences
unfolding Option.or_else
patched patch row = record {
  owner_id = row.owner_id;
  default_provider_mode = coalesce patch.default_provider_mode row.default_provider_mode;
  default_provider = coalesce patch.default_provider row.default_provider;
  default_model = coalesce patch.default_model row.default_model;
  planner_model = Option.or_else patch.planner_model row.planner_model;
  actor_model = Option.or_else patch.actor_model row.actor_model;
  triage_model = Option.or_else patch.triage_model row.triage_model;
  embedding_model = Option.or_else patch.embedding_model row.embedding_model;
  fallback_policy = coalesce patch.fallback_policy row.fallback_policy;
}

unfoldable update_preferences :
    List CatalogEntry
    → ℕ
    → PreferencesPatch
    → PreferencesTable
    → ModelPreferences × PreferencesTable
unfolding get_preferences patched
update_preferences catalog owner patch table =
    let read = get_preferences catalog owner table in
    let row = patched patch read.0 in (row, put_row owner row read.1)
