-- ===== src/Limiter/State.antt =====
-- custom_components/carnet_scolaire/ratelimit.py: the configuration, the reasons and verdicts, and
-- the state of `RateLimiter`. Tokens are counted in units of which one request costs `hour`, so
-- that one microsecond brings exactly `max_requests_per_hour` units.
use ha_pronote_ng.Prelude.{
  ℕ, ◌*◌, ◌/◌, ◌%◌, max, Bool, true, false, Option, none, some, List, [], ltb,
}
use ha_pronote_ng.Prelude.Int.{ℤ, pos, sub_ℕ}
use ha_pronote_ng.Prelude.Dict.{Counts}
use ha_pronote_ng.Const.{hour, day_length, Priority, critical, gesture, high, normal, low}

pub data LoginOutcome : Type 0 where
  success bad_credentials transport bootstrap mfa_required undecodable : LoginOutcome

pub data DeferReason : Type 0 where
  hourly_budget daily_cap quiet_hours backoff credentials_hold bootstrap_hold login_cap mfa_hold :
      DeferReason

-- `_HOLD_SEVERITY.get(reason, 0)`
unfoldable pub hold_severity : DeferReason → ℕ
hold_severity backoff = 1
hold_severity mfa_hold = 2
hold_severity bootstrap_hold = 3
hold_severity credentials_hold = 4
hold_severity _ = 0

-- `_SHED_THRESHOLD`, in tenths of the daily cap; `none` is the infinite threshold.
unfoldable pub shed_threshold : Priority → Option ℕ
shed_threshold critical = none
shed_threshold gesture = some 10
shed_threshold high = some 10
shed_threshold normal = some 8
shed_threshold low = some 6

-- `LOWEST_SHED_THRESHOLD`
abbrev pub lowest_shed_threshold : ℕ
lowest_shed_threshold = 6

-- `CAP_WARNING_FRACTION`
abbrev pub cap_warning_fraction : ℕ
cap_warning_fraction = 8

-- `REQUESTS_PER_LOGIN`
abbrev pub requests_per_login : ℕ
requests_per_login = 5

pub record RateLimitConfig : Type 0 where
  pub min_request_interval : ℕ
  pub max_requests_per_hour : ℕ
  pub burst_size : ℕ
  pub max_requests_per_day : ℕ
  pub max_wait : ℕ
  pub max_logins_per_day : ℕ
  pub max_failed_logins_per_hour : ℕ
  pub credentials_hold : ℕ
  pub bootstrap_hold : ℕ
  pub backoff_base : ℕ
  pub backoff_max : ℕ
  pub quiet_hours_enabled : Bool
  pub quiet_start : ℕ
  pub quiet_end : ℕ

-- A wait: a number of microseconds, or `float("inf")`.
pub data Delay : Type 0 where
  ticks : ℕ → Delay
  forever : Delay

-- `max(a, b)`
unfoldable pub max_delay : ℕ → Delay → Delay
max_delay a (ticks b) = ticks (max a b)
max_delay a forever = forever

-- `wait > limit`
unfoldable pub exceeds : Delay → ℕ → Bool
exceeds (ticks a) limit = ltb limit a
exceeds forever limit = true

pub record Verdict : Type 0 where
  pub allowed : Bool
  pub wait : Delay
  pub reason : Option DeferReason

abbrev pub allow : Delay → Verdict
allow w = record { allowed = true; wait = w; reason = none }

abbrev pub refuse : Delay → DeferReason → Verdict
refuse w r = record { allowed = false; wait = w; reason = some r }

-- What a method reads of the injected clocks: the monotonic one, the local wall clock in
-- microseconds since an origin at midnight, and the time zone, which takes a local instant to UTC.
pub record Reading : Type 0 where
  pub clock : ℕ
  pub now : ℕ
  pub zone : ℕ → ℕ

-- `self._now().date()`
abbrev pub date : Reading → ℕ
date t = t.now / day_length

-- `self._now().timetz().replace(tzinfo=None)`
abbrev pub time_of_day : Reading → ℕ
time_of_day t = t.now % day_length

pub record RateLimiter : Type 0 where
  pub config : RateLimitConfig
  pub last_call : ℤ
  pub tokens : ℤ
  pub refilled : ℕ
  pub day : ℕ
  pub calls_today : ℕ
  pub calls_by_tier : Counts
  pub logins_today : ℕ
  pub failed_logins : List ℕ
  pub login_charged : Option ℕ
  pub consecutive_failures : ℕ
  pub hold_until : Option ℕ
  pub hold_reason : Option DeferReason
  pub shed_reason : Option DeferReason
  pub throttled_since : Option ℕ
  pub cap_warning_open : Bool
  pub batch_started : Option ℕ
  pub batch_started_in_quiet : Bool

-- `RateLimiter.__init__`
unfoldable pub init : RateLimitConfig → Reading → RateLimiter
init c t = record {
  config = c;
  last_call = sub_ℕ t.clock c.min_request_interval;
  tokens = pos (c.burst_size * hour);
  refilled = t.clock;
  day = date t;
  calls_today = 0;
  calls_by_tier = [];
  logins_today = 0;
  failed_logins = [];
  login_charged = none;
  consecutive_failures = 0;
  hold_until = none;
  hold_reason = none;
  shed_reason = none;
  throttled_since = none;
  cap_warning_open = false;
  batch_started = none;
  batch_started_in_quiet = false;
}
