-- ===== src/Options/Tests.antt =====
-- custom_components/carnet_scolaire/options.py: concrete options.
use ha_pronote_ng.Prelude.{
  ℕ, ◌*◌, ◌≡◌, refl, true, Option, none, some, String, str_eq, arith, if◌then◌else◌,
}
use ha_pronote_ng.Prelude.Int.{pos, negsuc}
use ha_pronote_ng.Const.{hour}
use ha_pronote_ng.Limiter.State.{RateLimitConfig}
use ha_pronote_ng.Options.Read.{
  Key, finite, plus_infinity, nan, Stored, number, unreadable, less, ones, option_range, clamped,
  bounded_option, int,
}
use ha_pronote_ng.Options.Read as Read
use ha_pronote_ng.Options.Config.{Options, a_text, build_rate_limit_config}
use ha_pronote_ng.Options.Clamp.{is_clean}
use ha_pronote_ng.Options.Ranges.{IsWithinRanges, build_rate_limit_config-IsWithinRanges}

-- A store that was edited by hand.
abbrev stored : Key → Option Stored
stored Read.max_requests_per_hour = some (number (finite (pos 0)))
stored Read.min_request_interval = some (number (finite (negsuc 4999999)))
stored Read.burst_size = some (number plus_infinity)
stored Read.max_requests_per_day = some unreadable
stored key = none

stored_clean : (key : Key) → is_clean (stored key) ≡ true
stored_clean key = ground arith

abbrev reads : String → Option ℕ
reads s =
    if str_eq s "22:00:00"
    then some (22 * hour)
    else if str_eq s "06:00:00"
    then some (6 * hour)
    else none

abbrev edited : Options
edited = record {
  numbers = stored;
  quiet_hours_enabled = none;
  quiet_start = some (a_text "soon");
  quiet_end = none;
  tier_enabled = λ tier. none;
}

build_rate_limit_config-IsWithinRanges_example :
    (c : RateLimitConfig) × (build_rate_limit_config reads edited ≡ some c) × IsWithinRanges c
build_rate_limit_config-IsWithinRanges_example =
    build_rate_limit_config-IsWithinRanges reads edited (record {
      numbers = stored_clean;
      opening = 22 * hour;
      closing = 6 * hour;
      opens = refl;
      closes = refl;
    })

-- A cap of no requests an hour becomes one of thirty.
no_calls_raised : int (bounded_option stored Read.max_requests_per_hour (ones 240) none) ≡ some 30
unfolding int bounded_option clamped less option_range
no_calls_raised = refl

-- `nan` passes the clamp, and `int` raises.
nan_passes :
    bounded_option (λ key. some (number nan)) Read.max_requests_per_hour (ones 240) none ≡ some nan
unfolding bounded_option clamped less option_range
nan_passes = refl

nan_raises :
    int (bounded_option (λ key. some (number nan)) Read.max_requests_per_hour (ones 240) none)
    ≡ none
unfolding int bounded_option clamped less option_range
nan_raises = refl
