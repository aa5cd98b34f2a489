-- ===== src/Backoff.antt =====
-- mcp/backoff.ts: withBackoff, which retries the calls of MCP tools. The outcome of each call is an
-- argument, and so is the jitter, `Math.floor(Math.random() * (expo / 2))` of the attempt and of
-- `expo`. A sleep may be half a millisecond more than a whole number, so delays are doubled.
use arivion.Prelude.{
  ℕ, zero, suc, ◌+◌, ◌*◌, ◌≤◌, ◌<◌, min, ◌≡◌, refl, ap, ◌∙◌, ◌⊎◌, inl, inr, Bool, true, false, not,
  ◌||◌, Option, none, some, List, [], ◌∷◌, length, All, ltb, if◌then◌else◌, Bool-cases, arith,
}

-- `fn()`: it resolves or rejects
pub data Outcome (A E : Type 0) : Type 0 where
  returned : A → Outcome A E
  thrown : E → Outcome A E

-- `sleep` is not here: its arguments are the delays that the result lists.
pub record BackoffOptions (E : Type 0) : Type 0 where
  pub retries : Option ℕ
  pub base_ms : Option ℕ
  pub max_ms : Option ℕ
  pub is_retryable : E → Bool

-- `2 ** n`
unfoldable pub two_pow : ℕ → ℕ
two_pow zero = 1
two_pow (suc n) = 2 * two_pow n

-- `x ?? y`
abbrev or_default : Option ℕ → ℕ → ℕ
or_default none d = d
or_default (some n) d = n

no_call : (k attempt n : ℕ) → attempt ≤ k → k < n → n ≡ attempt → ⊥
no_call k attempt n from below here = omega arith

at_or_after : (attempt k : ℕ) → attempt ≤ k → k ≡ attempt ⊎ suc attempt ≤ k
at_or_after attempt k from = omega arith

module _ {E : Type 0} (opts : BackoffOptions E) where
  abbrev retries_of : ℕ
  retries_of = or_default opts.retries 4

  abbrev base_of : ℕ
  base_of = or_default opts.base_ms 200

  abbrev max_of : ℕ
  max_of = or_default opts.max_ms 5000

  -- of the attempts before this one, which the source has counted already
  abbrev pub expo : ℕ → ℕ
  expo attempt = min max_of (base_of * two_pow attempt)

  -- whether the error is thrown on
  abbrev gives_up : ℕ → E → Bool
  gives_up attempt err = ltb retries_of (suc attempt) || not (opts.is_retryable err)

  module _ {A : Type 0} (fn : ℕ → Outcome A E) (jitter : ℕ → ℕ → ℕ) where
    -- twice the argument of `sleep`
    abbrev delay : ℕ → ℕ
    delay attempt = expo attempt + 2 * jitter attempt (expo attempt)

    abbrev slept : ℕ → Option (Outcome A E × List ℕ) → Option (Outcome A E × List ℕ)
    slept d none = none
    slept d (some (o, ds)) = some (o, d ∷ ds)

    -- one round of the loop, with what the next rounds would give
    abbrev tried : ℕ → Outcome A E → Option (Outcome A E × List ℕ) → Option (Outcome A E × List ℕ)
    tried attempt (returned a) rest = some (returned a, [])
    tried attempt (thrown err) rest =
        if gives_up attempt err then some (thrown err, []) else slept (delay attempt) rest

    -- The calls are numbered from zero, so `attempt` is the number of the call. The result is how
    -- the promise settles, with the delays.
    unfoldable pub attempts : ℕ → ℕ → Option (Outcome A E × List ℕ)
    attempts zero attempt = none
    attempts (suc fuel) attempt =
        let rest = attempts fuel (suc attempt) in tried attempt (fn attempt) rest

    unfoldable pub with_backoff : Option (Outcome A E × List ℕ)
    unfolding attempts
    with_backoff = attempts (suc retries_of) 0

    -- whether another call follows
    abbrev goes_on : ℕ → Outcome A E → Bool
    goes_on attempt (returned a) = false
    goes_on attempt (thrown err) = not (gives_up attempt err)

    -- The loop, begun at call `attempt`, ends with the outcome of call `n`: another call followed
    -- each one before, none follows this one, and every delay is within twice the longest.
    abbrev pub Ends : ℕ → ℕ → Outcome A E → List ℕ → Type 0
    Ends attempt n outcome delays =
        n ≤ retries_of
        × fn n ≡ outcome
        × goes_on n outcome ≡ false
        × ((k : ℕ) → attempt ≤ k → k < n → goes_on k (fn k) ≡ true)
        × All (λ d. d ≤ 2 * max_of) delays

    -- A promise that settles, after as many sleeps as there are calls before the last one.
    abbrev SettlesFrom : ℕ → Option (Outcome A E × List ℕ) → Type 0
    SettlesFrom attempt none = ⊥
    SettlesFrom attempt (some (outcome, delays)) =
        (n : ℕ) → n ≡ length delays + attempt → Ends attempt n outcome delays

    abbrev pub Settles : Option (Outcome A E × List ℕ) → Type 0
    Settles none = ⊥
    Settles (some (outcome, delays)) = Ends 0 (length delays) outcome delays

    -- `Math.floor(r * (expo / 2))` for `r` below 1
    abbrev FitsJitter : Type 0
    FitsJitter = (attempt e : ℕ) → 2 * jitter attempt e ≤ e

    delay_bound : FitsJitter → (attempt : ℕ) → delay attempt ≤ 2 * max_of
    delay_bound fits attempt = let fit = fits attempt (expo attempt) in omega (arith)

    goes_on-at :
        (attempt : ℕ) (err : E)
        → fn attempt ≡ thrown err
        → gives_up attempt err ≡ false
        → (k : ℕ) → k ≡ attempt
        → goes_on k (fn k) ≡ true
    goes_on-at attempt err at on k same = rw same (rw at (ap not on))

    slept-SettlesFrom :
        (attempt : ℕ) (err : E) (rest : Option (Outcome A E × List ℕ))
        → FitsJitter
        → fn attempt ≡ thrown err
        → gives_up attempt err ≡ false
        → SettlesFrom (suc attempt) rest
        → SettlesFrom attempt (slept (delay attempt) rest)
    slept-SettlesFrom attempt err none fits at on later = later
    slept-SettlesFrom attempt err (some (o, ds)) fits at on later = λ n is_last.
        let (le, call, ends, before, short) = later n (omega arith) in
        (
          le,
          call,
          ends,
          (λ k from below. elim (at_or_after attempt k from) [
            | inl same ↦ goes_on-at attempt err at on k same
            | inr next ↦ before k next below
          ]),
          (delay_bound fits attempt, short),
        )

    tried-SettlesFrom :
        (attempt : ℕ) (o : Outcome A E) (rest : Option (Outcome A E × List ℕ))
        → FitsJitter
        → attempt ≤ retries_of
        → fn attempt ≡ o
        → (suc attempt ≤ retries_of → SettlesFrom (suc attempt) rest)
        → SettlesFrom attempt (tried attempt o rest)
    tried-SettlesFrom attempt (returned a) rest fits le at later = λ n is_last.
        let here : n ≡ attempt = omega arith in
        (
          omega arith,
          ap fn here ∙ at,
          refl,
          (λ k from below. absurd (no_call k attempt n from below here)),
          tt,
        )
    tried-SettlesFrom attempt (thrown err) rest fits le at later =
        elim (Bool-cases (gives_up attempt err)) [
          | inl stop ↦ rw stop (λ n is_last.
              let here : n ≡ attempt = omega arith in
              (
                omega arith,
                ap fn here ∙ at,
                rw here (ap not stop),
                (λ k from below. absurd (no_call k attempt n from below here)),
                tt,
              ))
          | inr on ↦ rw on (slept-SettlesFrom attempt err rest fits at on (later (ground arith)))
        ]

    attempts-SettlesFrom :
        (fuel attempt : ℕ)
        → FitsJitter
        → attempt ≤ retries_of
        → fuel + attempt ≡ suc retries_of
        → SettlesFrom attempt (attempts fuel attempt)
    unfolding attempts
    attempts-SettlesFrom zero attempt fits le enough = omega arith
    attempts-SettlesFrom (suc fuel) attempt fits le enough =
        tried-SettlesFrom attempt (fn attempt) (attempts fuel (suc attempt)) fits le refl
          (λ next. attempts-SettlesFrom fuel (suc attempt) fits next (omega arith))

    SettlesFrom-Settles : (r : Option (Outcome A E × List ℕ)) → SettlesFrom 0 r → Settles r
    SettlesFrom-Settles none from = from
    SettlesFrom-Settles (some (o, ds)) from = from (length ds) (omega arith)

    -- `withBackoff` settles, after at most `retries` retries: with the outcome of the first call that
    -- returns, throws an error that may not be retried, or throws when no retry is left. It sleeps
    -- once for each call before that one, and never longer than `maxMs`. Condition: the jitter is at
    -- most half of `expo`, as `Math.random() < 1` makes it.
    pub with_backoff-Settles : FitsJitter → Settles with_backoff
    unfolding with_backoff
    with_backoff-Settles fits =
        SettlesFrom-Settles with_backoff
          (attempts-SettlesFrom (suc retries_of) 0 fits (omega arith) (omega arith))
