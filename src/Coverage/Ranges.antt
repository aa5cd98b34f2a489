-- ===== src/Coverage/Ranges.antt =====
-- The missing ranges of scanCoverage (lib/gapScanner.ts) against the list of missing times.
use arivion.Prelude.{
  leb_of_le, leb_of_gt, leb→le, leb→gt, ℕ, zero, suc, ◌+◌, ◌-◌, ◌*◌, ◌/◌, ◌≤◌, ◌<◌, ◌≡◌, refl, sym,
  ap, ◌∙◌, Bool, true, false, not, Option, none, some, List, [], ◌∷◌, ◌++◌, select, leb, Bool-cases,
  inl, inr, arith,
}
use mathlib.Core.List.{append-nil, append_assoc}
use native.Mathlib.Nat.{mul-div_cancel, mul-sub, mul_comm}
use arivion.Coverage.Scan.{TsRange, RangeState, has, close_range, visit, scan_loop, count_expected}

-- the times of `n` bars from `ts`
unfoldable pub bars : ℕ → ℕ → ℕ → List ℕ
bars step zero ts = []
bars step (suc n) ts = ts ∷ bars step n (ts + step)

-- the bars of a range, both ends included
abbrev expand : ℕ → TsRange → List ℕ
expand step r = bars step (suc ((r.end_ts - r.start_ts) / step)) r.start_ts

abbrev pub expand_all : ℕ → List TsRange → List ℕ
expand_all step [] = []
expand_all step (r ∷ rs) = expand step r ++ expand_all step rs

abbrev pub is_missing : List ℕ → ℕ → Bool
is_missing seen ts = not (has seen ts)

expand_all-append :
    (step : ℕ) (rs qs : List TsRange)
    → expand_all step (rs ++ qs) ≡ expand_all step rs ++ expand_all step qs
expand_all-append step [] qs = refl
expand_all-append step (r ∷ rs) qs =
    ap (λ t. expand step r ++ t) (expand_all-append step rs qs)
    ∙ sym (append_assoc (expand step r) (expand_all step rs) (expand_all step qs))

mul_suc : (n step : ℕ) → suc n * step ≡ n * step + step
mul_suc n step = grind arith

bars-snoc : (step n ts : ℕ) → bars step n ts ++ (ts + n * step) ∷ [] ≡ bars step (suc n) ts
unfolding bars
bars-snoc step zero ts = ap (λ t. t ∷ []) (omega arith)
bars-snoc step (suc n) ts =
    ap (λ xs. ts ∷ xs)
      (ap (λ t. bars step n (ts + step) ++ t ∷ []) (omega (arith, mul_suc n step))
        ∙ bars-snoc step n (ts + step))

one : (step ts : ℕ) → bars step 1 ts ≡ ts ∷ []
unfolding bars
one step ts = refl

select-cons :
    (p : ℕ → Bool) (x : ℕ) (xs : List ℕ) → select p (x ∷ []) ++ select p xs ≡ select p (x ∷ xs)
select-cons p x xs = elim (Bool-cases (p x)) [ inl t ↦ rw t refl | inr t ↦ rw t refl ]

module _ (step : ℕ) (pos : 0 < step) where
  expand-eq :
      (a p k : ℕ)
      → p ≡ a + k * step
      → expand step (record { start_ts = a; end_ts = p }) ≡ bars step (suc k) a
  expand-eq a p k e =
      ap (λ n. bars step (suc n) a) (ap (λ d. d / step) (omega arith) ∙ mul-div_cancel k pos)

  -- the bars of the range that is open
  abbrev pub pending : Option ℕ → Option ℕ → List ℕ
  pending (some a) (some p) = expand step (record { start_ts = a; end_ts = p })
  pending start prev = []

  -- An open range ends one step before the next time.
  abbrev pub Fits : ℕ → Option ℕ → Option ℕ → Type 0
  Fits ts none none = Unit
  Fits ts (some a) (some p) = (k : ℕ) × (p ≡ a + k * step) × (ts ≡ a + suc k * step)
  Fits ts start prev = ⊥

  abbrev FitsAt : ℕ → RangeState → Type 0
  FitsAt ts s = Fits ts s.range_start s.prev_missing

  -- the missing bars that a state stands for
  abbrev so_far : RangeState → List ℕ
  so_far s = expand_all step s.missing_ranges ++ pending s.range_start s.prev_missing

  abbrev pub state_of : List TsRange → Option ℕ → Option ℕ → RangeState
  state_of ranges start prev = record {
    range_start = start;
    prev_missing = prev;
    missing_ranges = ranges;
  }

  pub close-so_far :
      (ranges : List TsRange) (start prev : Option ℕ) (ts : ℕ)
      → Fits ts start prev
      → (expand_all step (close_range (state_of ranges start prev)).missing_ranges
          ≡ so_far (state_of ranges start prev))
        × ((close_range (state_of ranges start prev)).range_start ≡ none)
        × ((close_range (state_of ranges start prev)).prev_missing ≡ none)
  unfolding close_range
  close-so_far ranges none none ts f = (sym (append-nil _), refl, refl)
  close-so_far ranges (some a) (some p) ts f = (
    expand_all-append step ranges (record { start_ts = a; end_ts = p } ∷ [])
        ∙ ap (λ t. expand_all step ranges ++ t) (append-nil _),
    refl,
    refl,
  )
  close-so_far ranges none (some p) ts f = absurd f
  close-so_far ranges (some a) none ts f = absurd f

  open-so_far :
      (seen : List ℕ) (ranges : List TsRange) (start prev : Option ℕ) (ts : ℕ)
      → has seen ts ≡ false
      → Fits ts start prev
      → (so_far (visit seen ts (state_of ranges start prev))
          ≡ so_far (state_of ranges start prev) ++ ts ∷ [])
        × FitsAt (ts + step) (visit seen ts (state_of ranges start prev))
  unfolding visit
  open-so_far seen ranges none none ts new f = rw new (
    ap (λ t. expand_all step ranges ++ t) (expand-eq ts ts 0 (omega arith) ∙ one step ts)
        ∙ ap (λ t. t ++ ts ∷ []) (sym (append-nil _)),
    (0, omega arith, omega (arith, mul_suc 0 step)),
  )
  open-so_far seen ranges (some a) (some p) ts new (k, before, now) = rw new (
    ap (λ t. expand_all step ranges ++ t)
          (expand-eq a ts (suc k) now
            ∙ sym (bars-snoc step (suc k) a)
            ∙ ap (λ t. bars step (suc k) a ++ t ∷ []) (sym now)
            ∙ ap (λ t. t ++ ts ∷ []) (sym (expand-eq a p k before)))
        ∙ sym (append_assoc (expand_all step ranges) (pending (some a) (some p)) (ts ∷ [])),
    (suc k, now, omega (arith, mul_suc (suc k) step)),
  )
  open-so_far seen ranges none (some p) ts new f = absurd f
  open-so_far seen ranges (some a) none ts new f = absurd f

  keep-so_far :
      (seen : List ℕ) (ranges : List TsRange) (start prev : Option ℕ) (ts : ℕ)
      → has seen ts ≡ true
      → Fits ts start prev
      → (so_far (visit seen ts (state_of ranges start prev))
          ≡ so_far (state_of ranges start prev) ++ [])
        × FitsAt (ts + step) (visit seen ts (state_of ranges start prev))
  unfolding visit close_range
  keep-so_far seen ranges none none ts old f = rw old (sym (append-nil _), tt)
  keep-so_far seen ranges (some a) (some p) ts old f =
      rw old
        (append-nil _ ∙ (close-so_far ranges (some a) (some p) ts f).0 ∙ sym (append-nil _), tt)
  keep-so_far seen ranges none (some p) ts old f = absurd f
  keep-so_far seen ranges (some a) none ts old f = absurd f

  visit-so_far :
      (seen : List ℕ) (s : RangeState) (ts : ℕ)
      → FitsAt ts s
      → (so_far (visit seen ts s) ≡ so_far s ++ select (is_missing seen) (ts ∷ []))
        × FitsAt (ts + step) (visit seen ts s)
  visit-so_far seen s ts f = elim (Bool-cases (has seen ts)) [
    | inl old ↦ rw old (keep-so_far seen s.missing_ranges s.range_start s.prev_missing ts old f)
    | inr new ↦ rw new (open-so_far seen s.missing_ranges s.range_start s.prev_missing ts new f)
  ]

  -- `n` times are left up to `end`.
  abbrev Left : ℕ → ℕ → ℕ → Type 0
  Left end zero ts = end < ts
  Left end (suc n) ts = (ts ≤ end) × Left end n (ts + step)

  abbrev pub Scanned : List ℕ → ℕ → ℕ → RangeState → Option RangeState → Type 0
  Scanned seen n ts s none = ⊥
  Scanned seen n ts s (some s') =
      (so_far s' ≡ so_far s ++ select (is_missing seen) (bars step n ts))
      × ((ts' : ℕ) × FitsAt ts' s')

  Scanned-visit :
      (seen : List ℕ) (n ts : ℕ) (s : RangeState) (r : Option RangeState)
      → FitsAt ts s
      → Scanned seen n (ts + step) (visit seen ts s) r
      → Scanned seen (suc n) ts s r
  unfolding bars
  Scanned-visit seen n ts s none f h = absurd h
  Scanned-visit seen n ts s (some s') f (all, fits) = (
    all
        ∙ ap (λ t. t ++ select (is_missing seen) (bars step n (ts + step)))
            (visit-so_far seen s ts f).0
        ∙ append_assoc (so_far s) _ _
        ∙ ap (λ t. so_far s ++ t) (select-cons (is_missing seen) ts (bars step n (ts + step))),
    fits,
  )

  pub scan_loop-Scanned :
      (seen : List ℕ) (end fuel n ts : ℕ) (s : RangeState)
      → n < fuel
      → Left end n ts
      → FitsAt ts s
      → Scanned seen n ts s (scan_loop seen step end fuel ts s)
  unfolding scan_loop bars
  scan_loop-Scanned seen end zero n ts s enough left f = absurd (omega arith)
  scan_loop-Scanned seen end (suc fuel) zero ts s enough left f =
      rw (leb_of_gt ts end left) (sym (append-nil _), (ts, f))
  scan_loop-Scanned seen end (suc fuel) (suc n) ts s enough (le, left) f =
      rw (leb_of_le ts end le) (
        Scanned-visit seen n ts s (scan_loop seen step end fuel (ts + step) (visit seen ts s)) f (
          scan_loop-Scanned seen end fuel n (ts + step) (visit seen ts s) (omega arith) left
            (visit-so_far seen s ts f).1))

  Left-of_eq : (n ts end : ℕ) → ts + n * step ≡ end → Left end (suc n) ts
  Left-of_eq zero ts end e = (omega arith, omega arith)
  Left-of_eq (suc n) ts end e =
      (omega arith, Left-of_eq n (ts + step) end (omega (arith, mul_suc n step)))

  last_bar :
      (a b : ℕ) → a * step ≤ b * step → a * step + (b * step - a * step) / step * step ≡ b * step
  last_bar a b le =
      let gap : b * step - a * step ≡ (b - a) * step =
        omega (arith, mul-sub step b a, mul_comm step (b - a), mul_comm step b, mul_comm step a) in
      ap (λ d. a * step + d / step * step) gap
      ∙ ap (λ q. a * step + q * step) (mul-div_cancel (b - a) pos)
      ∙ ap (λ d. a * step + d) (sym gap)
      ∙ omega arith

  -- between aligned times
  pub Left-count :
      (a b : ℕ) → Left (b * step) (count_expected (a * step) (b * step) step) (a * step)
  unfolding count_expected
  Left-count a b = elim (Bool-cases (leb (a * step) (b * step))) [
    | inl le ↦
        rw le (Left-of_eq _ (a * step) (b * step) (last_bar a b (leb→le (a * step) (b * step) le)))
    | inr gt ↦ rw gt (leb→gt (a * step) (b * step) gt)
  ]
