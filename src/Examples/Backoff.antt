-- ===== src/Examples/Backoff.antt =====
-- The theorem of withBackoff, at a tool that answers at the third call.
use arivion.Prelude.{ℕ, zero, suc, ◌/◌, ◌≡◌, refl, none, some, [], ◌∷◌, String, str_eq, arith}
use arivion.Backoff.{
  Outcome, returned, thrown, BackoffOptions, with_backoff, attempts, two_pow, Settles,
  with_backoff-Settles,
}

abbrev busy_twice : ℕ → Outcome String String
busy_twice zero = thrown "429"
busy_twice (suc zero) = thrown "429"
busy_twice (suc (suc call)) = returned "ok"

abbrev patient : BackoffOptions String
patient = record {
  retries = none;
  base_ms = none;
  max_ms = some 300;
  is_retryable = λ err. str_eq err "429";
}

abbrev quarter : ℕ → ℕ → ℕ
quarter attempt expo = expo / 4

-- sleeps of 150 and 225 milliseconds
test_busy : with_backoff patient busy_twice quarter ≡ some (returned "ok", 300 ∷ 450 ∷ [])
unfolding with_backoff attempts two_pow
test_busy = refl

with_backoff-Settles_example :
    Settles patient busy_twice quarter (with_backoff patient busy_twice quarter)
with_backoff-Settles_example =
    with_backoff-Settles patient busy_twice quarter (λ attempt e. omega (arith))
