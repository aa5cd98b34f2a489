-- ===== src/Prelude/Lists.antt =====
-- Lists measured by native numbers, and the loops `some`, `includes`, `filter` and `reduce`.
use Prim.Native.Nat.{ℕ, zero, suc, ◌+◌}
use Prim.Native.String.{String}
use mathlib.Core.Path.{◌≡◌, refl, subst}
use mathlib.Core.Bool.{Bool, false, ◌||◌}
use mathlib.Core.Option.{Option, none, some}
use mathlib.Core.List.{List, [], ◌∷◌, ◌++◌}
use text.Mathlib.Text.{◌==◌ as str_eq}
use mathlib.Core.Logic.{inl, inr}
use arivion.Prelude.Tests.{if◌then◌else◌, eq_of_some-eq, Bool-cases}

module _ {ℓ} {A : Type ℓ} where
  abbrev pub length : List A → ℕ
  length [] = 0
  length (x ∷ xs) = suc (length xs)

  abbrev pub get_elem? : List A → ℕ → Option A
  get_elem? [] i = none
  get_elem? (x ∷ xs) zero = some x
  get_elem? (x ∷ xs) (suc i) = get_elem? xs i

  abbrev pub take : ℕ → List A → List A
  take zero xs = []
  take (suc n) [] = []
  take (suc n) (x ∷ xs) = x ∷ take n xs

  -- `xs.some(p)`
  abbrev pub any : (A → Bool) → List A → Bool
  any p [] = false
  any p (x ∷ xs) = p x || any p xs

  -- `xs.filter(p).length`
  abbrev pub count : (A → Bool) → List A → ℕ
  count p [] = 0
  count p (x ∷ xs) = (if p x then 1 else 0) + count p xs

-- `P` holds of each entry.
abbrev pub All {ℓ κ} : {A : Type ℓ} → (A → Type κ) → List A → Type κ
All P [] = Unit
All P (x ∷ xs) = P x × All P xs

pub All-get_elem? {ℓ κ} :
    {A : Type ℓ} (P : A → Type κ) (xs : List A) (i : ℕ) (x : A)
    → All P xs
    → get_elem? xs i ≡ some x
    → P x
All-get_elem? P [] i x all at = cc
All-get_elem? P (y ∷ ys) zero x all at = subst P (eq_of_some-eq at) all.0
All-get_elem? P (y ∷ ys) (suc i) x all at = All-get_elem? P ys i x all.1 at

pub All-mono {ℓ κ} :
    {A : Type ℓ} (P Q : A → Type κ) (xs : List A) → ((x : A) → P x → Q x) → All P xs → All Q xs
All-mono P Q [] step all = tt
All-mono P Q (x ∷ xs) step all = (step x all.0, All-mono P Q xs step all.1)

pub All-intro {ℓ κ} :
    {A : Type ℓ} (P : A → Type κ) (xs : List A)
    → ((i : ℕ) (x : A) → get_elem? xs i ≡ some x → P x)
    → All P xs
All-intro P [] at = tt
All-intro P (x ∷ xs) at = (at 0 x refl, All-intro P xs (λ i. at (suc i)))

pub All-prefix {ℓ κ} : {A : Type ℓ} (P : A → Type κ) (xs ys : List A) → All P (xs ++ ys) → All P xs
All-prefix P [] ys all = tt
All-prefix P (x ∷ xs) ys all = (all.0, All-prefix P xs ys all.1)

-- `xs.filter(p)`
abbrev pub select {ℓ} : {A : Type ℓ} → (A → Bool) → List A → List A
select p [] = []
select p (x ∷ xs) = if p x then x ∷ select p xs else select p xs

pub All-select {ℓ κ} :
    {A : Type ℓ} (P : A → Type κ) (p : A → Bool) (xs : List A) → All P xs → All P (select p xs)
All-select P p [] all = tt
All-select P p (x ∷ xs) all = elim (Bool-cases (p x)) [
  | inl t ↦ rw t (all.0, All-select P p xs all.1)
  | inr t ↦ rw t (All-select P p xs all.1)
]

pub select-nil {ℓ} :
    {A : Type ℓ} (p : A → Bool) (xs : List A) → All (λ x. p x ≡ false) xs → select p xs ≡ []
select-nil p [] all = refl
select-nil p (x ∷ xs) all = rw all.0 (select-nil p xs all.1)

pub append-cancel_left {ℓ} : {A : Type ℓ} (xs ys zs : List A) → xs ++ ys ≡ xs ++ zs → ys ≡ zs
append-cancel_left [] ys zs e = e
append-cancel_left (x ∷ xs) ys zs e = append-cancel_left xs ys zs cc

-- `xs.includes(k)`, and `set.has(k)`
abbrev pub includes : List String → String → Bool
includes xs k = any (λ x. str_eq x k) xs
