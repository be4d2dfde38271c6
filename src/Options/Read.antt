-- ===== src/Options/Read.antt =====
-- custom_components/carnet_scolaire/options.py: `bounded_option`, with the ranges and defaults of const.py.
-- A finite float is a whole number of millionths, so that seconds come in microseconds.
use ha_pronote_ng.Prelude.{ℕ, ◌*◌, ◌/◌, Bool, true, false, Option, none, some, if◌then◌else◌}
use ha_pronote_ng.Prelude.Int.{ℤ, pos, ltb_ℤ}
use ha_pronote_ng.Const.{Tier, second}

-- The keys of the options that are numbers.
pub data Key : Type 0 where
  min_request_interval max_requests_per_hour burst_size max_requests_per_day max_wait
        max_logins_per_day max_failed_logins_per_hour credentials_hold bootstrap_hold backoff_base
        backoff_max homework_horizon wake_margin stale_after master_tick connect_timeout
        read_timeout :
      Key
  tier_interval : Tier → Key

-- A float
pub data Number : Type 0 where
  finite : (millionths : ℤ) → Number
  plus_infinity minus_infinity nan : Number

-- What `float(value)` makes of a stored value: a float, `TypeError` or `ValueError`, or, of an integer
-- past the largest float, `OverflowError`.
pub data Stored : Type 0 where
  number : Number → Stored
  unreadable too_large : Stored

-- `x < y`
unfoldable pub less : Number → Number → Bool
less nan y = false
less x nan = false
less plus_infinity y = false
less minus_infinity minus_infinity = false
less minus_infinity y = true
less (finite a) (finite b) = ltb_ℤ a b
less (finite a) plus_infinity = true
less (finite a) minus_infinity = false

-- `max(x, y)`, which is `x` unless `y` is greater
abbrev pub larger : Number → Number → Number
larger x y = if less x y then y else x

-- `min(x, y)`, which is `x` unless `y` is less
abbrev pub smaller : Number → Number → Number
smaller x y = if less y x then y else x

abbrev pub ones : ℕ → ℕ
ones n = n * second

-- `OPTION_RANGES`, in millionths; the keys of intervals are not in it.
unfoldable pub option_range : Key → Option (ℕ × ℕ)
option_range min_request_interval = some (200000, ones 10)
option_range max_requests_per_hour = some (ones 30, ones 2000)
option_range burst_size = some (ones 5, ones 100)
option_range max_requests_per_day = some (ones 100, ones 20000)
option_range max_wait = some (ones 5, ones 300)
option_range max_logins_per_day = some (ones 5, ones 500)
option_range max_failed_logins_per_hour = some (ones 1, ones 10)
option_range credentials_hold = some (ones 300, ones 86400)
option_range bootstrap_hold = some (ones 600, ones 86400)
option_range backoff_base = some (ones 5, ones 300)
option_range backoff_max = some (ones 60, ones 21600)
option_range homework_horizon = some (ones 1, ones 365)
option_range wake_margin = some (ones 0, ones 300)
option_range stale_after = some (ones 2, ones 48)
option_range master_tick = some (ones 1, ones 60)
option_range connect_timeout = some (ones 5, ones 120)
option_range read_timeout = some (ones 10, ones 300)
option_range (tier_interval tier) = none

-- `TIER_INTERVAL_RANGE`
abbrev pub tier_interval_range : ℕ × ℕ
tier_interval_range = (ones 1, ones 1440)

-- The clamp of `bounded_option`
unfoldable pub clamped : Option (ℕ × ℕ) → Number → Number
clamped none x = x
clamped (some (low, high)) x = smaller (larger x (finite (pos low))) (finite (pos high))

-- `bounds`, or what `OPTION_RANGES` has
abbrev pub range_of : Option (ℕ × ℕ) → Key → Option (ℕ × ℕ)
range_of none key = option_range key
range_of (some range) key = some range

-- `bounded_option`, on what is stored under the key; the default is in millionths. `none` is an exception.
unfoldable pub bounded_option :
    (Key → Option Stored) → Key → (default : ℕ) → (bounds : Option (ℕ × ℕ)) → Option Number
bounded_option options key default bounds = elim (options key) [
  | none ↦ some (clamped (range_of bounds key) (finite (pos default)))
  | some (number x) ↦ some (clamped (range_of bounds key) x)
  | some unreadable ↦ some (finite (pos default))
  | some too_large ↦ none
]

-- `int(x)`; `none` where it raises, and for a negative number, which no option here has.
unfoldable pub int : Option Number → Option ℕ
int (some (finite (pos n))) = some (n / second)
int x = none

-- `float(x)` as a duration of the model; `none` where there is none, as for `nan`.
unfoldable pub duration : Option Number → Option ℕ
duration (some (finite (pos n))) = some n
duration x = none
