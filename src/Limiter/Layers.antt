-- ===== src/Limiter/Layers.antt =====
-- custom_components/carnet_scolaire/ratelimit.py: the day boundary and the daily cap, the token
-- bucket, and the spacing of requests. A wait is rounded up to the next microsecond.
use ha_pronote_ng.Prelude.{ℕ, ◌+◌, ◌-◌, ◌*◌, ◌/◌, Bool, false, [], ltb, leb, ◌==◌, if◌then◌else◌}
use ha_pronote_ng.Prelude.Int.{pos, pos_part, sub_ℕ, ◌+ℤ◌, ◌-ℤ◌, leb_ℤ, min_ℤ}
use ha_pronote_ng.Const.{hour}
use ha_pronote_ng.Limiter.State.{RateLimiter, Reading, date, Delay, ticks, forever}

-- `_roll_day`
unfoldable pub roll_day : Reading → RateLimiter → RateLimiter
roll_day t s =
    if date t == s.day
    then s
    else if ltb (date t) s.day
    then record s { day = date t }
    else record s {
      day = date t;
      calls_today = 0;
      calls_by_tier = [];
      logins_today = 0;
      cap_warning_open = false;
    }

-- A fraction of the daily cap, as a quotient.
pub record Fraction : Type 0 where
  pub spent : ℕ
  pub cap : ℕ

-- `_cap_fraction`, once the day is rolled
unfoldable pub cap_fraction : RateLimiter → Fraction
cap_fraction s =
    if s.config.max_requests_per_day == 0
    then record { spent = 1; cap = 1 }
    else record { spent = s.calls_today; cap = s.config.max_requests_per_day }

-- `fraction >= tenths / 10`
unfoldable pub reaches : Fraction → ℕ → Bool
reaches f tenths = leb (tenths * f.cap) (10 * f.spent)

-- `_refill`
unfoldable pub refill : Reading → RateLimiter → RateLimiter
refill t s =
    let rate = s.config.max_requests_per_hour in
    record s {
      tokens =
          min_ℤ (pos (s.config.burst_size * hour))
            (s.tokens +ℤ sub_ℕ (t.clock * rate) (s.refilled * rate));
      refilled = t.clock;
    }

-- The least number of microseconds in which `rate` units each add up to `units`.
unfoldable pub div_up : ℕ → ℕ → ℕ
div_up units rate = (units + (rate - 1)) / rate

-- `_token_wait`, once the bucket is refilled
unfoldable pub token_wait : ℕ → RateLimiter → Delay
unfolding div_up
token_wait count s =
    if leb_ℤ (pos (count * hour)) s.tokens
    then ticks 0
    else if s.config.max_requests_per_hour == 0
    then forever
    else ticks (div_up (pos_part (pos (count * hour) -ℤ s.tokens)) s.config.max_requests_per_hour)

-- `_spacing_wait`
unfoldable pub spacing_wait : Reading → RateLimiter → ℕ
spacing_wait t s = pos_part (pos s.config.min_request_interval +ℤ s.last_call -ℤ pos t.clock)
