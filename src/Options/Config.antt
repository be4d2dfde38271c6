-- ===== src/Options/Config.antt =====
-- custom_components/carnet_scolaire/options.py: `build_rate_limit_config`, `tier_intervals`, `tier_enabled`.
-- The parameter reads a text as `time.fromisoformat` does; `none` is its `ValueError`.
use ha_pronote_ng.Prelude.{ℕ, Bool, true, Option, none, some, some_or, String, ◌>>=◌}
use ha_pronote_ng.Const.{Tier}
use ha_pronote_ng.Limiter.State.{RateLimitConfig}
use ha_pronote_ng.Options.Read.{
  Key, Stored, ones, tier_interval_range, bounded_option, int, duration,
}
use ha_pronote_ng.Options.Read as Read

-- A time that is stored, or the text of what is stored
pub data StoredTime : Type 0 where
  a_time : ℕ → StoredTime
  a_text : String → StoredTime

-- The options; a flag is the truth of what is stored.
pub record Options : Type 0 where
  pub numbers : Key → Option Stored
  pub quiet_hours_enabled : Option Bool
  pub quiet_start : Option StoredTime
  pub quiet_end : Option StoredTime
  pub tier_enabled : Tier → Option Bool

-- `try: return x except ValueError: return y`
abbrev pub first_of : Option ℕ → Option ℕ → Option ℕ
first_of (some t) y = some t
first_of none y = y

-- `_as_time`, for a text of its own where nothing is stored
unfoldable pub as_time : (String → Option ℕ) → Option StoredTime → (fallback : String) → Option ℕ
as_time fromisoformat none fallback = first_of (fromisoformat "None") (fromisoformat fallback)
as_time fromisoformat (some (a_time t)) fallback = some t
as_time fromisoformat (some (a_text s)) fallback =
    first_of (fromisoformat s) (fromisoformat fallback)

-- `build_rate_limit_config`; `none` where it raises, and where a duration is no number.
unfoldable pub build_rate_limit_config : (String → Option ℕ) → Options → Option RateLimitConfig
build_rate_limit_config fromisoformat options = do
  let read = λ (key : Key) (default : ℕ). bounded_option options.numbers key default none
  interval ← duration (read Read.min_request_interval (ones 1))
  per_hour ← int (read Read.max_requests_per_hour (ones 240))
  burst ← int (read Read.burst_size (ones 20))
  per_day ← int (read Read.max_requests_per_day (ones 2000))
  wait ← duration (read Read.max_wait (ones 60))
  logins ← int (read Read.max_logins_per_day (ones 24))
  failed ← int (read Read.max_failed_logins_per_hour (ones 3))
  credentials ← duration (read Read.credentials_hold (ones 3600))
  bootstrap ← duration (read Read.bootstrap_hold (ones 3600))
  base ← duration (read Read.backoff_base (ones 30))
  most ← duration (read Read.backoff_max (ones 3600))
  opens ← as_time fromisoformat options.quiet_start "22:00:00"
  closes ← as_time fromisoformat options.quiet_end "06:00:00"
  some (record {
    min_request_interval = interval;
    max_requests_per_hour = per_hour;
    burst_size = burst;
    max_requests_per_day = per_day;
    max_wait = wait;
    max_logins_per_day = logins;
    max_failed_logins_per_hour = failed;
    credentials_hold = credentials;
    bootstrap_hold = bootstrap;
    backoff_base = base;
    backoff_max = most;
    quiet_hours_enabled = some_or options.quiet_hours_enabled true;
    quiet_start = opens;
    quiet_end = closes;
  })

-- An entry of `tier_intervals`, whose default is in minutes; `none` where it raises.
unfoldable pub interval_of : Options → Tier → (default : ℕ) → Option ℕ
interval_of options tier default = int (
    bounded_option options.numbers (Read.tier_interval tier) (ones default)
      (some tier_interval_range))

-- `tier_enabled`, for a tier of `DEFAULT_TIER_INTERVALS`
abbrev pub is_enabled : Options → Tier → Bool
is_enabled options tier = some_or (options.tier_enabled tier) true
