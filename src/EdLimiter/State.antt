-- ===== src/EdLimiter/State.antt =====
-- custom_components/carnet_scolaire/connectors/ecoledirecte/ed_limiter.py: the state of
-- `EdRateLimiter`, its day boundary, its bucket, its holds, its quiet hours and its batches. Tokens
-- and instants have the units of ratelimit.py, and a draw `r` of the generator is `r / 2 ** 53`.
use ha_pronote_ng.Prelude.{
  ℕ, zero, suc, ◌+◌, ◌-◌, ◌*◌, ◌/◌, Bool, true, false, not, ◌&&◌, ◌||◌, Option, none, some, List,
  [], String, ltb, leb, ◌==◌, keep, if◌then◌else◌,
}
use ha_pronote_ng.Prelude.Int.{ℤ, pos, pos_part, sub_ℕ, ◌+ℤ◌, ◌-ℤ◌, leb_ℤ, min_ℤ}
use ha_pronote_ng.Prelude.Dict.{Counts, bump}
use ha_pronote_ng.Const.{hour, second, day_length}
use ha_pronote_ng.Limiter.State.{
  RateLimitConfig, DeferReason, Delay, ticks, forever, max_delay, Reading, date, time_of_day,
}
use ha_pronote_ng.Limiter.Layers.{div_up}
use ha_pronote_ng.Limiter.Quiet.{quiet_at, overlap}

pub record EdRateLimiter : Type 0 where
  pub config : RateLimitConfig
  pub last_call : ℤ
  pub tokens : ℤ
  pub refilled : ℕ
  pub day : ℕ
  pub calls_today : ℕ
  pub calls_by_tier : Counts
  pub logins_today : ℕ
  pub failed_logins : List ℕ
  pub hold_until : Option ℕ
  pub hold_reason : Option DeferReason
  pub consecutive_failures : ℕ
  pub throttled_since : Option ℕ
  pub cap_warning_open : Bool
  pub batch_started : Option ℕ
  pub batch_started_in_quiet : Bool

-- `EdRateLimiter.__init__`
unfoldable pub init : RateLimitConfig → Reading → EdRateLimiter
init c t = record {
  config = c;
  last_call = sub_ℕ t.clock c.min_request_interval;
  tokens = pos (c.burst_size * hour);
  refilled = t.clock;
  day = date t;
  calls_today = 0;
  calls_by_tier = [];
  logins_today = 0;
  failed_logins = [];
  hold_until = none;
  hold_reason = none;
  consecutive_failures = 0;
  throttled_since = none;
  cap_warning_open = false;
  batch_started = none;
  batch_started_in_quiet = false;
}

-- `_roll_day`
unfoldable pub roll_day : Reading → EdRateLimiter → EdRateLimiter
roll_day t s =
    if ltb s.day (date t)
    then record s {
      day = date t;
      calls_today = 0;
      calls_by_tier = [];
      logins_today = 0;
      cap_warning_open = false;
    }
    else record s { day = date t }

-- `_refill`
unfoldable pub refill : Reading → EdRateLimiter → EdRateLimiter
refill t s =
    let rate = s.config.max_requests_per_hour in
    record s {
      tokens =
          min_ℤ (pos (s.config.burst_size * hour))
            (s.tokens +ℤ sub_ℕ (t.clock * rate) (s.refilled * rate));
      refilled = t.clock;
    }

-- `spacing` of `_wait`
unfoldable pub spacing : Reading → EdRateLimiter → ℕ
spacing t s = pos_part (pos s.config.min_request_interval +ℤ s.last_call -ℤ pos t.clock)

-- `bucket` of `_wait`, once the bucket is refilled
unfoldable pub bucket : ℕ → EdRateLimiter → Delay
bucket cost s =
    if leb_ℤ (pos (cost * hour)) s.tokens
    then ticks 0
    else if s.config.max_requests_per_hour == 0
    then forever
    else ticks (div_up (pos_part (pos (cost * hour) -ℤ s.tokens)) s.config.max_requests_per_hour)

-- `_wait`
unfoldable pub wait : Reading → ℕ → EdRateLimiter → EdRateLimiter × Delay
wait t cost s = (refill t s, max_delay (spacing t s) (bucket cost (refill t s)))

-- `_record`
unfoldable pub record_cost : Reading → String → ℕ → EdRateLimiter → EdRateLimiter
record_cost t key cost s0 =
    let s = refill t (roll_day t s0) in
    record s {
      calls_today = s.calls_today + cost;
      calls_by_tier = bump key cost s.calls_by_tier;
      tokens = s.tokens -ℤ pos (cost * hour);
      last_call = pos t.clock;
    }

-- `_hold_active`
unfoldable pub hold_active : Reading → EdRateLimiter → EdRateLimiter × Bool
hold_active t s = elim s.hold_until [
  | none ↦ (s, false)
  | some until ↦
      if ltb t.clock until
      then (s, true)
      else (record s { hold_until = none; hold_reason = none; throttled_since = none }, false)
]

-- `max(0.0, (self._hold_until or self._clock()) - self._clock())`
unfoldable pub hold_remaining : Reading → EdRateLimiter → ℕ
hold_remaining t s = elim s.hold_until [ none ↦ 0 | some until ↦ until - t.clock ]

-- `self._throttled_since or self._now()`
abbrev pub since : Reading → Option ℕ → Option ℕ
since t none = some t.now
since t (some at) = some at

-- `_start_hold`
unfoldable pub start_hold : Reading → DeferReason → ℕ → EdRateLimiter → EdRateLimiter
start_hold t reason seconds s = record s {
  hold_reason = some reason;
  hold_until = some (t.clock + seconds);
  throttled_since = since t s.throttled_since;
}

-- `_prune_failed_logins`
unfoldable pub prune_failed_logins : Reading → EdRateLimiter → EdRateLimiter
prune_failed_logins t s = record s {
  failed_logins = keep (λ at. ltb t.clock (at + hour)) s.failed_logins;
}

-- `_in_quiet_hours`, which makes the tests of ratelimit.py
unfoldable pub in_quiet_hours : Reading → EdRateLimiter → Bool
in_quiet_hours t s = quiet_at s.config (time_of_day t)

-- `begin_batch`
unfoldable pub begin_batch : Reading → EdRateLimiter → EdRateLimiter
begin_batch t s = record s {
  batch_started = some t.clock;
  batch_started_in_quiet = in_quiet_hours t s;
}

-- `end_batch`
unfoldable pub end_batch : EdRateLimiter → EdRateLimiter
end_batch s = record s { batch_started = none; batch_started_in_quiet = false }

-- `_batch_may_finish`
unfoldable pub batch_may_finish : Reading → EdRateLimiter → Bool
batch_may_finish t s = elim s.batch_started [
  | none ↦ false
  | some started ↦ not s.batch_started_in_quiet && leb (t.clock - started) (300 * second)
]

-- The loop of `quiet_seconds_between`, over the days from `day` on that are left.
unfoldable pub quiet_days : RateLimitConfig → Reading → ℕ → ℕ → ℕ → ℕ → ℕ
quiet_days c t start end zero day = 0
quiet_days c t start end (suc left) day =
    overlap c t start end day + quiet_days c t start end left (day + 1)

-- `quiet_seconds_between`; the loop runs once for each day from the eve of `start` to `end`
unfoldable pub quiet_seconds_between : RateLimitConfig → Reading → ℕ → ℕ → ℕ
quiet_seconds_between c t start end =
    if not c.quiet_hours_enabled || leb end start
    then 0
    else quiet_days c t start end (end / day_length + 1 - (start / day_length - 1))
        (start / day_length - 1)
