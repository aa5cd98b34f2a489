-- ===== src/Coverage/Interval.antt =====
-- lib/interval.ts of apps/api/src: the intervals of candles. `none` stands for the error that is
-- thrown. An interval that names a property of Object.prototype is outside the model.
use arivion.Prelude.{ℕ, ◌*◌, ◌/◌, String, Option, none, some, List, [], ◌∷◌, str_eq, if◌then◌else◌}

unfoldable pub interval_minutes : List (String × ℕ)
interval_minutes =
    ("1", 1)
    ∷ ("3", 3)
    ∷ ("5", 5)
    ∷ ("15", 15)
    ∷ ("30", 30)
    ∷ ("60", 60)
    ∷ ("120", 120)
    ∷ ("240", 240)
    ∷ ("360", 360)
    ∷ ("720", 720)
    ∷ ("D", 1440)
    ∷ ("1d", 1440)
    ∷ ("W", 10080)
    ∷ ("1w", 10080)
    ∷ ("1h", 60)
    ∷ ("4h", 240)
    ∷ []

unfoldable pub minutes_in : String → List (String × ℕ) → Option ℕ
minutes_in interval [] = none
minutes_in interval ((k, mins) ∷ rest) =
    if str_eq k interval then some mins else minutes_in interval rest

abbrev pub in_ms : Option ℕ → Option ℕ
in_ms none = none
in_ms (some mins) = some (mins * 60000)

unfoldable pub interval_to_ms : String → Option ℕ
unfolding minutes_in interval_minutes
interval_to_ms interval = in_ms (minutes_in interval interval_minutes)

-- `alignTsToInterval`, of the step that `intervalToMs` gives
unfoldable pub align_ts : ℕ → ℕ → ℕ
align_ts ts step = ts / step * step
