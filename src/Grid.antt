-- ===== src/Grid.antt =====
-- generateGridCandidates of index.ts of apps/api/src: the candidates of an optimizer run. Doubles are
-- the argument `N`. The placeholder metrics, a hash of the parameters, are not modelled. The keys are
-- in the order of `Object.keys`; the axes have the last key first, as the loop on `idx` goes.
use arivion.Prelude.{
  true, ◌+◌, ℕ, zero, suc, ◌≤◌, ◌<◌, String, ◌≡◌, refl, sym, ap, ◌∙◌, Bool, Option, none, some,
  List, [], ◌∷◌, ◌++◌, map, length, take, get_elem?, All, ltb, if◌then◌else◌, Bool-cases, inl, inr,
  arith,
}
pub mod Enumerate

-- the range of a key
pub record SearchRange (N : Type 0) : Type 0 where
  pub min : N
  pub max : N
  pub step : N

-- a key and its values
pub record Axis (N : Type 0) : Type 0 where
  pub key : String
  pub values : List N

-- `v += step`, `v <= max + 1e-12` and `Number(v.toFixed(10))`
pub record Doubles (N : Type 0) : Type 0 where
  pub plus : N → N → N
  pub within : N → N → Bool
  pub round : N → N

-- the loop over `v`, which breaks once it has 2001 values
unfoldable pub axis_loop : {N : Type 0} → Doubles N → SearchRange N → ℕ → N → List N
axis_loop D r zero v = []
axis_loop D r (suc left) v =
    if D.within v r.max then D.round v ∷ axis_loop D r left (D.plus v r.step) else []

unfoldable pub axis_of : {N : Type 0} → Doubles N → String × SearchRange N → Axis N
unfolding axis_loop
axis_of D (key, r) = record { key = key; values = axis_loop D r 2001 r.min }

-- The cursor is kept with the last key first, the order in which the loop on `idx` goes.
abbrev pub Cursor : Type 0 → Type 0
Cursor N = List (ℕ × Axis N)

abbrev pub Params : Type 0 → Type 0
Params N = List (String × Option N)

module _ {N : Type 0} where
  -- `params[keys[i]] = values[i][cursor[i]]`, `none` where that is undefined
  unfoldable pub params_at : Cursor N → Params N
  params_at [] = []
  params_at ((c, axis) ∷ rest) = (axis.key, get_elem? axis.values c) ∷ params_at rest

  -- `cursor[idx] = 0`, before the keys that the loop has gone on to
  abbrev pub carry : Axis N → Option (Cursor N) → Option (Cursor N)
  carry axis none = none
  carry axis (some next) = some ((0, axis) ∷ next)

  -- the loop on `idx`; `none` is an `idx` below 0
  unfoldable pub advance : Cursor N → Option (Cursor N)
  advance [] = none
  advance ((c, axis) ∷ rest) =
      if ltb (suc c) (length axis.values)
      then some ((suc c, axis) ∷ rest)
      else carry axis (advance rest)

  -- `while (out.length < limit)`, by the candidates that are left
  unfoldable pub grid_loop : ℕ → Cursor N → List (Params N)
  unfolding params_at advance
  grid_loop zero cursor = []
  grid_loop (suc left) cursor =
      params_at cursor ∷ elim (advance cursor) [ none ↦ [] | some next ↦ grid_loop left next ]

  abbrev pub at_zero : Axis N → ℕ × Axis N
  at_zero axis = (0, axis)

  -- the candidates of the values of the keys
  unfoldable pub candidates_of : List (Axis N) → ℕ → List (Params N)
  unfolding grid_loop
  candidates_of [] limit = []
  candidates_of (axis ∷ axes) limit = grid_loop limit (map at_zero (axis ∷ axes))

  -- the axes of the keys that are left, in front of those before
  unfoldable pub axes_onto :
      Doubles N → List (String × SearchRange N) → List (Axis N) → List (Axis N)
  unfolding axis_of
  axes_onto D [] axes = axes
  axes_onto D (e ∷ space) axes = axes_onto D space (axis_of D e ∷ axes)

  -- `values`, with the last key first
  unfoldable pub axes_of : Doubles N → List (String × SearchRange N) → List (Axis N)
  unfolding axes_onto
  axes_of D space = axes_onto D space []

  unfoldable pub generate_grid_candidates :
      Doubles N → List (String × SearchRange N) → ℕ → List (Params N)
  unfolding candidates_of axes_of
  generate_grid_candidates D space limit = candidates_of (axes_of D space) limit
