-- ===== src/Prices/Defaults.antt =====
-- The defaults of a new owner can be called (llm-gateway/modelCatalog.ts: getPreferences).
use arivion.Prelude.{
  arith, ℕ, String, Bool, true, false, ◌==◌, Option, none, some, List, [], ◌∷◌, ◌≡◌, refl, sym, ap,
  ◌∙◌, str_eq_refl, if◌then◌else◌, Bool-cases, Option-cases, eq_of_some-eq, inl, inr, ◌==◌,
}
use mathlib.Core.Option
use arivion.Credit.Gateway.{is_allowlisted}
use arivion.Prices.{CatalogEntry, PriceEntry, get_managed_catalog, get_active_price, entry_of}
use arivion.Prices.Search.{find, offers, entry_for, clash}
use arivion.Prices.Catalog.{catalog_price_is_active}
use arivion.Prices.Preferences.{
  ModelPreferences, PreferencesTable, resolve_models, default_entry, head, is_from_openai,
  is_not_mock, fallback_provider, fallback_model, get_preferences, create_preferences, insert_row,
  new_row, put_row,
}

-- What one search finds, a search for less finds too.
find-found {ℓ} :
    {A : Type ℓ} (q r : A → Bool) (x : A) (xs : List A)
    → find q xs ≡ some x
    → r x ≡ true
    → (y : A) × (find r xs ≡ some y)
find-found q r x [] e t = absurd (Option.none-ne-some x e)
find-found q r x (y ∷ ys) e t = elim (Bool-cases (r y)) [
  | inl here ↦ (y, rw here)
  | inr there ↦ elim (Bool-cases (q y)) [
    | inl k ↦
        let same : y ≡ x = eq_of_some-eq (rw k at e) in
        absurd (clash (r x) t (sym (ap r same) ∙ there))
    | inr k ↦ let rest = find-found q r x ys (rw k at e) t in (rest.0, rw there rest.1)
  ]
]

-- The catalogue has the model of an entry that a search finds in it.
abbrev IsOffered : List CatalogEntry → Option CatalogEntry → Type 0
IsOffered catalog o =
    (d : CatalogEntry) × (o ≡ some d)
    × ((y : CatalogEntry) × (entry_for d.provider d.model catalog ≡ some y))

found-IsOffered :
    (q : CatalogEntry → Bool) (d : CatalogEntry) (catalog : List CatalogEntry)
    → find q catalog ≡ some d
    → IsOffered catalog (some d)
found-IsOffered q d catalog e = (
  d,
  refl,
  find-found q (offers d.provider d.model) d catalog e
      (rw (str_eq_refl d.provider, str_eq_refl d.model) refl),
)

or_else-IsOffered :
    (q : CatalogEntry → Bool) (catalog : List CatalogEntry) (o : Option CatalogEntry)
    → IsOffered catalog o
    → IsOffered catalog (Option.or_else (find q catalog) o)
unfolding Option.or_else
or_else-IsOffered q catalog o offered = elim (Option-cases (find q catalog)) [
  | inl e ↦ rw e offered
  | inr (d, e) ↦ rw e (found-IsOffered q d catalog e)
]

head-IsOffered : (c : CatalogEntry) (cs : List CatalogEntry) → IsOffered (c ∷ cs) (head (c ∷ cs))
head-IsOffered c cs = (c, refl, (c, rw (str_eq_refl c.provider, str_eq_refl c.model) refl))

default_entry-IsOffered :
    (c : CatalogEntry) (cs : List CatalogEntry) → IsOffered (c ∷ cs) (default_entry (c ∷ cs))
unfolding default_entry
default_entry-IsOffered c cs =
    or_else-IsOffered (offers fallback_provider fallback_model) (c ∷ cs) _ (
      or_else-IsOffered is_from_openai (c ∷ cs) _
        (or_else-IsOffered is_not_mock (c ∷ cs) _ (head-IsOffered c cs)))

-- The gateway accepts the provider, and has a price for the model.
abbrev pub Callable : ℕ → List PriceEntry → String → String → Type 0
Callable now table provider model =
    (is_allowlisted provider ≡ true)
    × ((e : PriceEntry) × (get_active_price now provider model table ≡ some e))

allowed_price :
    (b : Bool) (o : Option PriceEntry) (d : CatalogEntry)
    → Option.map entry_of (if b then o else none) ≡ some d
    → (b ≡ true) × ((e : PriceEntry) × (o ≡ some e))
allowed_price false o d e = absurd (Option.none-ne-some d e)
allowed_price true none d e = absurd (Option.none-ne-some d e)
allowed_price true (some p) d e = (refl, (p, refl))

first_read :
    (catalog : List CatalogEntry) (owner : ℕ) (stored : PreferencesTable) (d : CatalogEntry)
    → stored owner ≡ none
    → default_entry catalog ≡ some d
    → get_preferences catalog owner stored
      ≡ (new_row owner (some d), put_row owner (new_row owner (some d)) stored)
unfolding get_preferences create_preferences insert_row
first_read catalog owner stored d fresh e = rw (fresh, fresh, e) refl

same_owner : (n : ℕ) → (n == n) ≡ true
same_owner n = ground arith

later_read :
    (catalog : List CatalogEntry) (owner : ℕ) (stored : PreferencesTable) (row : ModelPreferences)
    → get_preferences catalog owner (put_row owner row stored) ≡ (row, put_row owner row stored)
unfolding get_preferences
later_read catalog owner stored row = rw (same_owner owner) refl

module _ (before : String → String → Bool) where
  offered-Callable :
      (now : ℕ) (table : List PriceEntry) (provider model : String) (d : CatalogEntry)
      → entry_for provider model (get_managed_catalog before now table) ≡ some d
      → Callable now table provider model
  offered-Callable now table provider model d e =
      allowed_price (is_allowlisted provider) (get_active_price now provider model table) d
        (sym (catalog_price_is_active before now provider model table) ∙ e)

  -- If an owner has no preferences and the catalogue is not empty, the first read of the preferences
  -- gives an allowlisted provider and, for each of the three roles, a model of it that has an active
  -- price. Later reads give the same preferences, whatever the catalogue is then.
  pub fresh_defaults-Callable :
      (now owner : ℕ) (table : List PriceEntry) (stored : PreferencesTable) (c : CatalogEntry)
      (cs : List CatalogEntry)
      → stored owner ≡ none
      → get_managed_catalog before now table ≡ c ∷ cs
      → let read = get_preferences (get_managed_catalog before now table) owner stored in
        let models = resolve_models read.0 in
        let provider = read.0.default_provider in
        (Callable now table provider models.planner
          × Callable now table provider models.actor
          × Callable now table provider models.triage)
        × ((catalog : List CatalogEntry) → get_preferences catalog owner read.1 ≡ read)
  unfolding get_preferences resolve_models
  fresh_defaults-Callable now owner table stored c cs fresh listed =
      let (d, e, (y, offered)) = default_entry-IsOffered c cs in
      let callable =
        offered-Callable now table d.provider d.model y (ap (entry_for _ _) listed ∙ offered) in
      rw (first_read _ owner stored d fresh (ap default_entry listed ∙ e)) (
        (callable, callable, callable),
        λ catalog. later_read catalog owner stored (new_row owner (some d)),
      )
