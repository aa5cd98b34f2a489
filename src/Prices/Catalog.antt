-- ===== src/Prices/Catalog.antt =====
-- The catalogue lists the price that getActivePrice gives (llm-gateway/priceBook.ts, modelCatalog.ts).
use arivion.Prelude.{
  ℕ, String, ◌≡◌, refl, ap, ◌∙◌, Bool, true, false, not, Option, none, some, List, [], ◌∷◌, select,
  str_eq, eq_iff, if◌then◌else◌, Bool-cases, if-case, and_true, inl, inr, arith,
}
use mathlib.Core.Path.{subst}
use mathlib.Core.Option
use arivion.Credit.Gateway.{is_allowlisted}
use arivion.Prices.{
  PriceEntry, is_active, is_model, by_date, first, get_active_price, distinct_on_model,
  insert_by_model, comes_first, by_model, list_active_prices, get_managed_catalog, entry_of,
}
use arivion.Prices.Search.{find, entry_for, find-map, find-first, clash}
use arivion.Prices.Dates.{select-by_date}

kept_other :
    (provider model : String) (e x : PriceEntry)
    → is_model provider model e ≡ false
    → is_model provider model x ≡ true
    → is_model e.price.provider e.price.model x ≡ false
kept_other provider model e x other here = ground (
  arith,
  eq_iff e.price.provider provider,
  eq_iff e.price.model model,
  eq_iff x.price.provider provider,
  eq_iff x.price.model model,
  eq_iff x.price.provider e.price.provider,
  eq_iff x.price.model e.price.model,
)

-- Another model stays when the rows of a model are left out.
find-select :
    (provider model : String) (e : PriceEntry) (es : List PriceEntry)
    → is_model provider model e ≡ false
    → find
        (is_model provider model)
        (select (λ x. not (is_model e.price.provider e.price.model x)) es)
      ≡ find (is_model provider model) es
find-select provider model e [] other = refl
find-select provider model e (x ∷ xs) other = elim (Bool-cases (is_model provider model x)) [
  | inl here ↦ rw (kept_other provider model e x other here, here)
  | inr there ↦ elim (Bool-cases (is_model e.price.provider e.price.model x)) [
    | inl gone ↦ rw (gone, there) (find-select provider model e xs other)
    | inr stays ↦ rw (stays, there) (find-select provider model e xs other)
  ]
]

find-distinct :
    (provider model : String) (es : List PriceEntry)
    → find (is_model provider model) (distinct_on_model es) ≡ find (is_model provider model) es
unfolding distinct_on_model
find-distinct provider model [] = refl
find-distinct provider model (e ∷ es) = elim (Bool-cases (is_model provider model e)) [
  | inl here ↦ rw here
  | inr other ↦
      rw other (
        find-select provider model e (distinct_on_model es) other ∙ find-distinct provider model es)
]

-- No two rows are of one model.
abbrev IsUnique : List PriceEntry → Type 0
IsUnique [] = Unit
IsUnique (e ∷ es) = (find (is_model e.price.provider e.price.model) es ≡ none) × IsUnique es

find-select-none :
    (q r : PriceEntry → Bool) (es : List PriceEntry)
    → find q es ≡ none
    → find q (select r es) ≡ none
find-select-none q r [] h = refl
find-select-none q r (x ∷ xs) h = elim (Bool-cases (q x)) [
  | inl t ↦ let impossible = rw t at h in cc
  | inr f ↦
      let rest = find-select-none q r xs (rw f at h) in
      if-case {A = List PriceEntry} (λ ys. find q ys ≡ none) (r x) _ _ (λ kept. rw f rest)
        (λ gone. rest)
]

select-IsUnique :
    (r : PriceEntry → Bool) (es : List PriceEntry) → IsUnique es → IsUnique (select r es)
select-IsUnique r [] u = tt
select-IsUnique r (x ∷ xs) (new, u) =
    if-case {A = List PriceEntry} IsUnique (r x) _ _
      (λ kept. (
        find-select-none (is_model x.price.provider x.price.model) r xs new,
        select-IsUnique r xs u,
      ))
      (λ gone. select-IsUnique r xs u)

find-select-not :
    (q : PriceEntry → Bool) (es : List PriceEntry) → find q (select (λ x. not (q x)) es) ≡ none
find-select-not q [] = refl
find-select-not q (x ∷ xs) = elim (Bool-cases (q x)) [
  | inl t ↦ rw t (find-select-not q xs)
  | inr f ↦ rw f (rw f (find-select-not q xs))
]

distinct-IsUnique : (es : List PriceEntry) → IsUnique (distinct_on_model es)
unfolding distinct_on_model
distinct-IsUnique [] = tt
distinct-IsUnique (e ∷ es) = (
  find-select-not (is_model e.price.provider e.price.model) (distinct_on_model es),
  select-IsUnique _ (distinct_on_model es) (distinct-IsUnique es),
)

only_one :
    (provider model : String) (e : PriceEntry) (es : List PriceEntry)
    → is_model provider model e ≡ true
    → find (is_model e.price.provider e.price.model) es ≡ none
    → find (is_model provider model) es ≡ none
only_one provider model e es here new =
    let (p, m) = and_true (str_eq e.price.provider provider) _ here in
    subst (λ t. find (is_model t model) es ≡ none) ((eq_iff e.price.provider provider).0 p)
      (subst (λ t. find (is_model e.price.provider t) es ≡ none) ((eq_iff e.price.model model).0 m)
        new)

find-registered :
    (registered : String → Bool) (provider model : String) (es : List PriceEntry)
    → find (is_model provider model) (select (λ e. registered e.price.provider) es)
      ≡ (if registered provider then find (is_model provider model) es else none)
find-registered registered provider model [] =
    if-case {A = Option PriceEntry} (λ o. none ≡ o) (registered provider) none none (λ t. refl)
      (λ f. refl)
find-registered registered provider model (x ∷ xs) = elim (Bool-cases (is_model provider model x)) [
  | inl here ↦
      let same : registered x.price.provider ≡ registered provider = ap registered (
        (eq_iff x.price.provider provider).0
          (and_true (str_eq x.price.provider provider) _ here).0) in
      elim (Bool-cases (registered provider)) [
        | inl t ↦ rw (same, t) (rw (here))
        | inr f ↦ rw (same, f) (find-registered registered provider model xs ∙ rw f)
      ]
  | inr there ↦
      if-case {A = List PriceEntry}
        (λ ys.
          find (is_model provider model) ys
          ≡ (if registered provider then find (is_model provider model) (x ∷ xs) else none))
        (registered x.price.provider) _ _
        (λ kept. rw there (find-registered registered provider model xs))
        (λ gone. rw there (find-registered registered provider model xs))
]

module _ (before : String → String → Bool) where
  find-insert :
      (q : PriceEntry → Bool) (e : PriceEntry) (es : List PriceEntry)
      → (q e ≡ true → find q es ≡ none)
      → find q (insert_by_model before e es) ≡ find q (e ∷ es)
  unfolding insert_by_model
  find-insert q e [] only = refl
  find-insert q e (x ∷ xs) only =
      if-case {A = List PriceEntry} (λ ys. find q ys ≡ find q (e ∷ (x ∷ xs)))
        (comes_first before e x) _ _ (λ first. refl)
        (λ later. elim (Bool-cases (q e)) [
          | inl t ↦ elim (Bool-cases (q x)) [
            | inl k ↦ let impossible = rw k at (only t) in cc
            | inr k ↦ rw (k, t) (find-insert q e xs (λ h. rw k at (only h)) ∙ rw t)
          ]
          | inr t ↦ rw t (
              ap (λ o. if q x then some x else o)
                (find-insert q e xs (λ h. absurd (clash (q e) h t)) ∙ rw t))
        ])

  find-by_model :
      (provider model : String) (es : List PriceEntry)
      → IsUnique es
      → find (is_model provider model) (by_model before es) ≡ find (is_model provider model) es
  unfolding by_model
  find-by_model provider model [] u = refl
  find-by_model provider model (e ∷ es) (new, u) =
      find-insert (is_model provider model) e (by_model before es)
        (λ here. find-by_model provider model es u ∙ only_one provider model e es here new)
      ∙ ap (λ o. if is_model provider model e then some e else o)
          (find-by_model provider model es u)

  listed_price_is_active :
      (now : ℕ) (provider model : String) (table : List PriceEntry)
      → find (is_model provider model) (list_active_prices before now table)
        ≡ get_active_price now provider model table
  unfolding list_active_prices get_active_price
  listed_price_is_active now provider model table =
      let active = by_date (select (is_active now) table) in
      find-by_model provider model (distinct_on_model active) (distinct-IsUnique active)
      ∙ find-distinct provider model active
      ∙ find-first (is_model provider model) active
      ∙ ap first (select-by_date (is_model provider model) (select (is_active now) table))

  -- What the catalogue has for a provider and a model is the entry of the price that getActivePrice
  -- gives, and nothing if that gives none or the provider is not allowlisted. So the models that are
  -- offered are those of the allowlist that can be charged, at the price at which they are charged.
  pub catalog_price_is_active :
      (now : ℕ) (provider model : String) (table : List PriceEntry)
      → entry_for provider model (get_managed_catalog before now table)
        ≡ Option.map entry_of
            (if is_allowlisted provider then get_active_price now provider model table else none)
  unfolding get_managed_catalog entry_of
  catalog_price_is_active now provider model table =
      let listed = list_active_prices before now table in
      find-map _ entry_of (select (λ e. is_allowlisted e.price.provider) listed)
      ∙ ap (Option.map entry_of) (
          find-registered is_allowlisted provider model listed
          ∙ ap (λ o. if is_allowlisted provider then o else none)
              (listed_price_is_active now provider model table))
