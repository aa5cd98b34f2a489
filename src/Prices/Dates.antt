-- ===== src/Prices/Dates.antt =====
-- Selecting rows commutes with ordering them by date (llm-gateway/priceBook.ts).
use arivion.Prelude.{
  ℕ, ◌≤◌, ◌≡◌, refl, sym, ap, ◌∙◌, Bool, true, false, List, [], ◌∷◌, All, All-mono, All-select,
  select, leb, leb→le, leb→gt, leb_of_le, if◌then◌else◌, Bool-cases, inl, inr, arith,
}
use arivion.Prices.{PriceEntry, insert_by_date, by_date}

-- Dates do not rise.
abbrev IsSorted : List PriceEntry → Type 0
IsSorted [] = Unit
IsSorted (e ∷ es) = All (λ x. x.effective_from ≤ e.effective_from) es × IsSorted es

older :
    (e x : PriceEntry) (xs : List PriceEntry)
    → x.effective_from ≤ e.effective_from
    → All (λ y. y.effective_from ≤ x.effective_from) xs
    → All (λ y. y.effective_from ≤ e.effective_from) xs
older e x xs le all =
    All-mono (λ y. y.effective_from ≤ x.effective_from) (λ y. y.effective_from ≤ e.effective_from)
      xs (λ y h. omega arith) all

insert-All :
    (n : ℕ) (e : PriceEntry) (es : List PriceEntry)
    → e.effective_from ≤ n
    → All (λ x. x.effective_from ≤ n) es
    → All (λ x. x.effective_from ≤ n) (insert_by_date e es)
unfolding insert_by_date
insert-All n e [] le all = (le, tt)
insert-All n e (x ∷ xs) le (here, all) = elim (Bool-cases (leb x.effective_from e.effective_from)) [
  | inl t ↦ rw t (le, (here, all))
  | inr t ↦ rw t (here, insert-All n e xs le all)
]

insert-IsSorted :
    (e : PriceEntry) (es : List PriceEntry) → IsSorted es → IsSorted (insert_by_date e es)
unfolding insert_by_date
insert-IsSorted e [] s = (tt, tt)
insert-IsSorted e (x ∷ xs) (all, s) = elim (Bool-cases (leb x.effective_from e.effective_from)) [
  | inl t ↦
      let le = leb→le _ _ t in
      rw t (
        (
          le,
          All-mono (λ y. y.effective_from ≤ x.effective_from)
              (λ y. y.effective_from ≤ e.effective_from) xs (λ y h. omega arith) all,
        ),
        (all, s),
      )
  | inr t ↦
      let gt = leb→gt _ _ t in
      rw t (insert-All x.effective_from e xs (omega arith) all, insert-IsSorted e xs s)
]

by_date-IsSorted : (es : List PriceEntry) → IsSorted (by_date es)
unfolding by_date
by_date-IsSorted [] = tt
by_date-IsSorted (e ∷ es) = insert-IsSorted e (by_date es) (by_date-IsSorted es)

insert_front :
    (e : PriceEntry) (es : List PriceEntry)
    → All (λ x. x.effective_from ≤ e.effective_from) es
    → insert_by_date e es ≡ e ∷ es
unfolding insert_by_date
insert_front e [] all = refl
insert_front e (x ∷ xs) (le, all) = rw (leb_of_le x.effective_from e.effective_from le)

module _ (q : PriceEntry → Bool) where
  select-insert_kept :
      (e : PriceEntry) (es : List PriceEntry)
      → q e ≡ true
      → IsSorted es
      → select q (insert_by_date e es) ≡ insert_by_date e (select q es)
  unfolding insert_by_date
  select-insert_kept e [] t s = rw t
  select-insert_kept e (x ∷ xs) t (all, s) =
      elim (Bool-cases (leb x.effective_from e.effective_from)) [
        | inl le ↦
            rw (le, t)
              (sym (
                insert_front e (select q (x ∷ xs)) (
                  All-select (λ y. y.effective_from ≤ e.effective_from) q (x ∷ xs)
                    (leb→le _ _ le, older e x xs (leb→le _ _ le) all))))
        | inr gt ↦ elim (Bool-cases (q x)) [
          | inl k ↦ rw (gt, k) (rw gt (ap (λ ys. x ∷ ys) (select-insert_kept e xs t s)))
          | inr k ↦ rw (gt, k) (select-insert_kept e xs t s)
        ]
      ]

  select-insert_left :
      (e : PriceEntry) (es : List PriceEntry)
      → q e ≡ false
      → select q (insert_by_date e es) ≡ select q es
  unfolding insert_by_date
  select-insert_left e [] f = rw f
  select-insert_left e (x ∷ xs) f = elim (Bool-cases (leb x.effective_from e.effective_from)) [
    | inl le ↦ rw (le, f)
    | inr gt ↦ rw gt (ap (λ ys. if q x then x ∷ ys else ys) (select-insert_left e xs f))
  ]

  pub select-by_date : (es : List PriceEntry) → select q (by_date es) ≡ by_date (select q es)
  unfolding by_date
  select-by_date [] = refl
  select-by_date (e ∷ es) = elim (Bool-cases (q e)) [
    | inl t ↦ rw t (
        select-insert_kept e (by_date es) t (by_date-IsSorted es)
        ∙ ap (insert_by_date e) (select-by_date es))
    | inr f ↦ rw f (select-insert_left e (by_date es) f ∙ select-by_date es)
  ]
