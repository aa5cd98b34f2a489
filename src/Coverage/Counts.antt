-- ===== src/Coverage/Counts.antt =====
-- How many of the bars of a window a list of times has: the counts of scanCoverage (lib/gapScanner.ts).
use arivion.Prelude.{
  same_number, ℕ, zero, suc, ◌+◌, ◌≤◌, ◌<◌, ◌≡◌, refl, sym, ap, ◌∙◌, true, false, List, [], ◌∷◌,
  select, All, length, count, ◌==◌, Bool-cases, inl, inr, arith,
}
use mathlib.Core.Path.{subst}
use arivion.Coverage.Scan.{has, distinct}
use arivion.Coverage.Ranges.{bars, is_missing}

-- No entry occurs twice.
abbrev IsDistinct : List ℕ → Type 0
IsDistinct [] = Unit
IsDistinct (x ∷ xs) = (has xs x ≡ false) × IsDistinct xs

abbrev pub AreIn : List ℕ → List ℕ → Type 0
AreIn window xs = All (λ x. has window x ≡ true) xs

pub distinct-IsDistinct :
    (times seen : List ℕ) (d : ℕ) → IsDistinct seen → IsDistinct (distinct times seen d).0
unfolding distinct
distinct-IsDistinct [] seen d h = h
distinct-IsDistinct (t ∷ times) seen d h = elim (Bool-cases (has seen t)) [
  | inl old ↦ rw (old, distinct) (distinct-IsDistinct times seen (suc d) h)
  | inr new ↦ rw (new, distinct) (distinct-IsDistinct times (t ∷ seen) d (new, h))
]

pub distinct-AreIn :
    (window times seen : List ℕ) (d : ℕ)
    → AreIn window seen
    → AreIn window times
    → AreIn window (distinct times seen d).0
unfolding distinct
distinct-AreIn window [] seen d h all = h
distinct-AreIn window (t ∷ times) seen d h (first, all) = elim (Bool-cases (has seen t)) [
  | inl old ↦ rw (old, distinct) (distinct-AreIn window times seen (suc d) h all)
  | inr new ↦ rw (new, distinct) (distinct-AreIn window times (t ∷ seen) d (first, h) all)
]

pub length-distinct :
    (times seen : List ℕ) (d : ℕ)
    → length (distinct times seen d).0 + (distinct times seen d).1 ≡ length seen + d + length times
unfolding distinct
length-distinct [] seen d = omega arith
length-distinct (t ∷ times) seen d = elim (Bool-cases (has seen t)) [
  | inl old ↦ rw (old, distinct) (omega (arith, length-distinct times seen (suc d)))
  | inr new ↦ rw (new, distinct) (omega (arith, length-distinct times (t ∷ seen) d))
]

elsewhere : (x w : ℕ) (ws : List ℕ) → (x == w) ≡ false → has (w ∷ ws) x ≡ true → has ws x ≡ true
elsewhere x w ws e h = ground arith

count_none : (window : List ℕ) → count (has []) window ≡ 0
count_none [] = refl
count_none (w ∷ ws) = omega (arith, count_none ws)

count_absent :
    (x : ℕ) (xs window : List ℕ)
    → has window x ≡ false
    → count (has (x ∷ xs)) window ≡ count (has xs) window
count_absent x xs [] h = refl
count_absent x xs (w ∷ ws) h = ground (arith, count_absent x xs ws)

count_new :
    (x : ℕ) (xs window : List ℕ)
    → IsDistinct window
    → has window x ≡ true
    → has xs x ≡ false
    → count (has (x ∷ xs)) window ≡ suc (count (has xs) window)
count_new x xs [] d h new = cc
count_new x xs (w ∷ ws) (only, d) h new = elim (Bool-cases (x == w)) [
  | inl e ↦
      let eq = same_number x w e in
      let gone : has ws x ≡ false = subst (λ u. has ws u ≡ false) (sym eq) only in
      let lacks : has xs w ≡ false = subst (λ u. has xs u ≡ false) eq new in
      rw (e, lacks) (omega (arith, count_absent x xs ws gone))
  | inr e ↦ let later = elsewhere x w ws e h in rw e (omega (arith, count_new x xs ws d later new))
]

pub count-has :
    (xs window : List ℕ)
    → IsDistinct window
    → IsDistinct xs
    → AreIn window xs
    → count (has xs) window ≡ length xs
count-has [] window d h all = count_none window
count-has (x ∷ xs) window d (new, h) (here, all) =
    count_new x xs window d here new ∙ ap suc (count-has xs window d h all)

pub count-select :
    (seen window : List ℕ)
    → count (has seen) window + length (select (is_missing seen) window) ≡ length window
count-select seen [] = omega arith
count-select seen (w ∷ ws) = elim (Bool-cases (has seen w)) [
  | inl t ↦ rw t (omega (arith, count-select seen ws))
  | inr t ↦ rw t (omega (arith, count-select seen ws))
]

pub length-bars : (step n ts : ℕ) → length (bars step n ts) ≡ n
unfolding bars
length-bars step zero ts = refl
length-bars step (suc n) ts = ap suc (length-bars step n (ts + step))

before_bars : (step n ts u : ℕ) → u < ts → has (bars step n ts) u ≡ false
unfolding bars
before_bars step zero ts u lt = refl
before_bars step (suc n) ts u lt = ground (arith, before_bars step n (ts + step) u)

pub bars-IsDistinct : (step n ts : ℕ) → 0 < step → IsDistinct (bars step n ts)
unfolding bars
bars-IsDistinct step zero ts pos = tt
bars-IsDistinct step (suc n) ts pos =
    (before_bars step n (ts + step) ts (omega arith), bars-IsDistinct step n (ts + step) pos)

count-le : (xs window : List ℕ) → count (has xs) window ≤ length window
count-le xs window = omega (arith, count-select xs window)

-- All bars are there if as many are there as the window has.
pub all_there :
    (xs window : List ℕ) (k : ℕ)
    → length window ≤ count (has xs) window
    → has window k ≡ true
    → has xs k ≡ true
all_there xs [] k le here = cc
all_there xs (w ∷ ws) k le here = elim (Bool-cases (has xs w)) [
  | inl t ↦
      let rest : length ws ≤ count (has xs) ws = omega (arith, rw t at le) in
      elim (Bool-cases (w == k)) [
        | inl e ↦ subst (λ u. has xs u ≡ true) (same_number w k e) t
        | inr e ↦ all_there xs ws k rest (rw e at here)
      ]
  | inr t ↦ absurd (omega (arith, rw t at le, count-le xs ws))
]
