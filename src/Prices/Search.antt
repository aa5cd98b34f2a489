-- ===== src/Prices/Search.antt =====
-- Searches of the catalogue and of a table of prices (llm-gateway/modelCatalog.ts).
use arivion.Prelude.{
  String, ◌≡◌, refl, Bool, true, false, ◌&&◌, Option, none, some, List, [], ◌∷◌, map, select,
  str_eq, if◌then◌else◌, Bool-cases, inl, inr,
}
use mathlib.Core.Option
use arivion.Prices.{PriceEntry, first, CatalogEntry}

abbrev pub find {ℓ} : {A : Type ℓ} → (A → Bool) → List A → Option A
find q [] = none
find q (e ∷ es) = if q e then some e else find q es

abbrev pub offers : String → String → CatalogEntry → Bool
offers provider model c = str_eq c.provider provider && str_eq c.model model

-- the search of the catalogue in getPreferences, `c.provider === ... && c.model === ...`
abbrev pub entry_for : String → String → List CatalogEntry → Option CatalogEntry
entry_for provider model = find (offers provider model)

pub find-map {ℓ ℓ'} :
    {A : Type ℓ} {B : Type ℓ'}
    → (q : B → Bool) (f : A → B) (xs : List A)
    → find q (map f xs) ≡ Option.map f (find (λ x. q (f x)) xs)
find-map q f [] = refl
find-map q f (x ∷ xs) = elim (Bool-cases (q (f x))) [
  | inl t ↦ rw t
  | inr t ↦ rw t (find-map q f xs)
]

pub find-first : (q : PriceEntry → Bool) (es : List PriceEntry) → find q es ≡ first (select q es)
find-first q [] = refl
find-first q (e ∷ es) = elim (Bool-cases (q e)) [ inl t ↦ rw t | inr t ↦ rw t (find-first q es) ]

pub clash : (b : Bool) → b ≡ true → b ≡ false → ⊥
clash true h e = cc
clash false h e = cc
