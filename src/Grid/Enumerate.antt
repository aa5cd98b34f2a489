-- ===== src/Grid/Enumerate.antt =====
-- The candidates of generateGridCandidates (index.ts of apps/api/src) are the combinations of the
-- values of the keys.
use arivion.Prelude.{
  true, ◌+◌, ℕ, zero, suc, ◌≤◌, ◌<◌, String, ◌≡◌, refl, sym, ap, ◌∙◌, Option, none, some, List, [],
  ◌∷◌, ◌++◌, map, length, take, get_elem?, All, ltb, Bool-cases, inl, inr, arith,
}
use arivion.Grid.{
  axis_loop, axis_of, Cursor, Params, params_at, carry, advance, grid_loop, at_zero, candidates_of,
  axes_onto, axes_of, generate_grid_candidates, SearchRange, Axis, Doubles,
}

module _ {N : Type 0} where
  -- one value of the axis before each of the candidates
  abbrev with_values : String → List N → Params N → List (Params N)
  with_values key [] p = []
  with_values key (v ∷ vs) p = ((key, some v) ∷ p) ∷ with_values key vs p

  abbrev with_axis : Axis N → List (Params N) → List (Params N)
  with_axis axis [] = []
  with_axis axis (p ∷ ps) = with_values axis.key axis.values p ++ with_axis axis ps

  -- all combinations of the values of the axes, the first axis running fastest
  abbrev pub combinations : List (Axis N) → List (Params N)
  combinations [] = [] ∷ []
  combinations (axis ∷ axes) = with_axis axis (combinations axes)

  abbrev drop : ℕ → List N → List N
  drop zero vs = vs
  drop (suc n) [] = []
  drop (suc n) (v ∷ vs) = drop n vs

  -- the combinations after the one at a cursor
  abbrev after : Cursor N → List (Params N)
  after [] = []
  after ((c, axis) ∷ rest) =
      with_values axis.key (drop (suc c) axis.values) (params_at rest)
      ++ with_axis axis (after rest)

  abbrev IsInside : Cursor N → Type 0
  IsInside cursor = All (λ e. e.0 < length e.1.values) cursor

  abbrev after_next : Option (Cursor N) → List (Params N)
  after_next none = []
  after_next (some next) = params_at next ∷ after next

  drop_some :
      (c : ℕ) (vs : List N) (key : String) (p : Params N)
      → c < length vs
      → with_values key (drop c vs) p
        ≡ ((key, get_elem? vs c) ∷ p) ∷ with_values key (drop (suc c) vs) p
  drop_some c [] key p lt = absurd (omega arith)
  drop_some zero (v ∷ vs) key p lt = refl
  drop_some (suc c) (v ∷ vs) key p lt = drop_some c vs key p (omega arith)

  drop_all : (n : ℕ) (vs : List N) → length vs ≤ n → drop n vs ≡ []
  drop_all zero [] le = refl
  drop_all (suc n) [] le = refl
  drop_all zero (v ∷ vs) le = absurd (omega arith)
  drop_all (suc n) (v ∷ vs) le = drop_all n vs (omega arith)

  first_values :
      (axis : Axis N) (next : Cursor N)
      → 0 < length axis.values
      → with_axis axis (params_at next ∷ after next)
        ≡ params_at ((0, axis) ∷ next) ∷ after ((0, axis) ∷ next)
  unfolding params_at
  first_values axis next pos =
      ap (λ ps. ps ++ with_axis axis (after next))
        (drop_some 0 axis.values axis.key (params_at next) pos)

  after_next-carry :
      (axis : Axis N) (o : Option (Cursor N))
      → 0 < length axis.values
      → with_axis axis (after_next o) ≡ after_next (carry axis o)
  after_next-carry axis none pos = refl
  after_next-carry axis (some next) pos = first_values axis next pos

  after-advance : (cursor : Cursor N) → IsInside cursor → after cursor ≡ after_next (advance cursor)
  unfolding advance params_at
  after-advance [] inside = refl
  after-advance ((c, axis) ∷ rest) (lt, inside) =
      elim (Bool-cases (ltb (suc c) (length axis.values))) [
        | inl more ↦ rw more (
            ap (λ ps. ps ++ with_axis axis (after rest))
              (drop_some (suc c) axis.values axis.key (params_at rest) (ground arith)))
        | inr full ↦ rw full (
            ap (λ vs. with_values axis.key vs (params_at rest) ++ with_axis axis (after rest))
              (drop_all (suc c) axis.values (ground arith))
            ∙ ap (with_axis axis) (after-advance rest inside)
            ∙ after_next-carry axis (advance rest) (omega arith))
      ]

  abbrev AllInside : Option (Cursor N) → Type 0
  AllInside none = Unit
  AllInside (some next) = IsInside next

  carry-AllInside :
      (axis : Axis N) (o : Option (Cursor N))
      → 0 < length axis.values
      → AllInside o
      → AllInside (carry axis o)
  carry-AllInside axis none pos h = tt
  carry-AllInside axis (some next) pos h = (pos, h)

  advance-AllInside : (cursor : Cursor N) → IsInside cursor → AllInside (advance cursor)
  unfolding advance
  advance-AllInside [] inside = tt
  advance-AllInside ((c, axis) ∷ rest) (lt, inside) =
      elim (Bool-cases (ltb (suc c) (length axis.values))) [
        | inl more ↦ rw more (ground arith, inside)
        | inr full ↦
            rw full
              (carry-AllInside axis (advance rest) (omega arith) (advance-AllInside rest inside))
      ]

  rest-take :
      (left : ℕ) (o : Option (Cursor N))
      → AllInside o
      → ((next : Cursor N)
          → IsInside next
          → grid_loop left next ≡ take left (params_at next ∷ after next))
      → elim o as (λ x. List (Params N)) [ none ↦ [] | some next ↦ grid_loop left next ]
        ≡ take left (after_next o)
  rest-take zero none h ih = refl
  rest-take (suc left) none h ih = refl
  rest-take left (some next) h ih = ih next h

  grid_loop-take :
      (left : ℕ) (cursor : Cursor N)
      → IsInside cursor
      → grid_loop left cursor ≡ take left (params_at cursor ∷ after cursor)
  unfolding grid_loop
  grid_loop-take zero cursor inside = refl
  grid_loop-take (suc left) cursor inside =
      ap (λ ps. params_at cursor ∷ ps)
        (rest-take left (advance cursor) (advance-AllInside cursor inside)
            (λ next h. grid_loop-take left next h)
          ∙ ap (take left) (sym (after-advance cursor inside)))

  at_zero-IsInside :
      (axes : List (Axis N)) → All (λ a. 0 < length a.values) axes → IsInside (map at_zero axes)
  at_zero-IsInside [] all = tt
  at_zero-IsInside (axis ∷ axes) (pos, all) = (pos, at_zero-IsInside axes all)

  combinations-at_zero :
      (axes : List (Axis N))
      → All (λ a. 0 < length a.values) axes
      → combinations axes ≡ params_at (map at_zero axes) ∷ after (map at_zero axes)
  unfolding params_at
  combinations-at_zero [] all = refl
  combinations-at_zero (axis ∷ axes) (pos, all) =
      ap (with_axis axis) (combinations-at_zero axes all) ∙ first_values axis (map at_zero axes) pos

  candidates_of-take :
      (axes : List (Axis N)) (limit : ℕ)
      → 0 < length axes
      → All (λ a. 0 < length a.values) axes
      → candidates_of axes limit ≡ take limit (combinations axes)
  unfolding candidates_of
  candidates_of-take [] limit some_key all = absurd (omega arith)
  candidates_of-take (axis ∷ axes) limit some_key all =
      grid_loop-take limit (map at_zero (axis ∷ axes)) (at_zero-IsInside (axis ∷ axes) all)
      ∙ ap (take limit) (sym (combinations-at_zero (axis ∷ axes) all))

  axis_loop-has_value :
      (D : Doubles N) (r : SearchRange N) (left : ℕ) (v : N)
      → 0 < left
      → D.within v r.max ≡ true
      → 0 < length (axis_loop D r left v)
  unfolding axis_loop
  axis_loop-has_value D r zero v pos inside = absurd (omega arith)
  axis_loop-has_value D r (suc left) v pos inside = rw inside (omega arith)

  axis_of-has_value :
      (D : Doubles N) (e : String × SearchRange N)
      → D.within e.1.min e.1.max ≡ true
      → 0 < length (axis_of D e).values
  unfolding axis_of
  axis_of-has_value D (key, r) inside = axis_loop-has_value D r 2001 r.min (omega arith) inside

  axes_onto-have_values :
      (D : Doubles N) (space : List (String × SearchRange N)) (axes : List (Axis N))
      → All (λ e. D.within e.1.min e.1.max ≡ true) space
      → All (λ a. 0 < length a.values) axes
      → All (λ a. 0 < length a.values) (axes_onto D space axes)
  unfolding axes_onto
  axes_onto-have_values D [] axes inside all = all
  axes_onto-have_values D (e ∷ space) axes (here, inside) all =
      axes_onto-have_values D space (axis_of D e ∷ axes) inside (axis_of-has_value D e here, all)

  length-axes_onto :
      (D : Doubles N) (space : List (String × SearchRange N)) (axes : List (Axis N))
      → length (axes_onto D space axes) ≡ length space + length axes
  unfolding axes_onto
  length-axes_onto D [] axes = omega arith
  length-axes_onto D (e ∷ space) axes = omega (arith, length-axes_onto D space (axis_of D e ∷ axes))

  -- The candidates are the combinations of one value for each key, each position of a value once,
  -- the last key running fastest, as far as the limit. Conditions: there is a key, and no range has its
  -- minimum beyond its maximum.
  pub candidates_enumerate :
      (D : Doubles N) (space : List (String × SearchRange N)) (limit : ℕ)
      → 0 < length space
      → All (λ e. D.within e.1.min e.1.max ≡ true) space
      → generate_grid_candidates D space limit ≡ take limit (combinations (axes_of D space))
  unfolding generate_grid_candidates axes_of
  candidates_enumerate D space limit some_key inside =
      candidates_of-take (axes_of D space) limit (omega (arith, length-axes_onto D space []))
        (axes_onto-have_values D space [] inside tt)
