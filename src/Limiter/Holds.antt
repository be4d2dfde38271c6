-- ===== src/Limiter/Holds.antt =====
-- custom_components/carnet_scolaire/ratelimit.py: holds, the throttled flag and the backoff. A draw
-- `r` of the generator stands for `random() = r / 2 ** 53`.
use ha_pronote_ng.Prelude.{
  ℕ, ◌+◌, ◌-◌, ◌*◌, ◌/◌, ◌^◌, min, max, Bool, true, false, ◌&&◌, Option, none, some, ltb, leb, ◌==◌,
  is_some, some_or, if◌then◌else◌,
}
use ha_pronote_ng.Limiter.State.{
  RateLimiter, Reading, DeferReason, hold_severity, lowest_shed_threshold,
}
use ha_pronote_ng.Limiter.Layers.{roll_day, cap_fraction, reaches}

-- Whether the hold, if there is one, still runs at a reading of the monotonic clock.
abbrev pub hold_runs : ℕ → Option ℕ → Bool
hold_runs clock none = false
hold_runs clock (some until) = ltb clock until

-- `_hold_active`: the new state, in which an expired hold is forgotten, and the answer
unfoldable pub hold_active : Reading → RateLimiter → RateLimiter × Bool
hold_active t s = elim s.hold_until [
  | none ↦ (s, false)
  | some until ↦
      if leb until t.clock
      then (record s { hold_until = none; hold_reason = none }, false)
      else (s, true)
]

-- `_hold_remaining`
unfoldable pub hold_remaining : Reading → RateLimiter → ℕ
hold_remaining t s = elim s.hold_until [ none ↦ 0 | some until ↦ until - t.clock ]

-- `_mark_throttled`
unfoldable pub mark_throttled : Reading → RateLimiter → RateLimiter
mark_throttled t s = record s {
  throttled_since = if is_some s.throttled_since then s.throttled_since else some t.now;
}

-- The test of `_start_hold`: the running hold is worse than the new one.
unfoldable pub worse_hold : RateLimiter → DeferReason → Bool
worse_hold s reason = ltb (hold_severity reason) (hold_severity (some_or s.hold_reason reason))

-- `_start_hold`
unfoldable pub start_hold : Reading → DeferReason → ℕ → RateLimiter → RateLimiter
start_hold t reason seconds s0 =
    let (s, active) = hold_active t s0 in
    if active && worse_hold s reason
    then mark_throttled t
        (record s { hold_until = some (max (some_or s.hold_until 0) (t.clock + seconds)) })
    else mark_throttled t
        (record s { hold_until = some (t.clock + seconds); hold_reason = some reason })

-- The end of `_maybe_clear_throttled`, past its first test.
unfoldable pub clear_unless_capped : RateLimiter → RateLimiter
clear_unless_capped s =
    if reaches (cap_fraction s) lowest_shed_threshold
    then s
    else if leb s.config.max_logins_per_day s.logins_today
    then s
    else record s { shed_reason = none; throttled_since = none }

-- `_maybe_clear_throttled`
unfoldable pub maybe_clear_throttled : Reading → RateLimiter → RateLimiter
maybe_clear_throttled t s0 =
    let (s, active) = hold_active t s0 in if active then s else clear_unless_capped (roll_day t s)

-- `_MAX_BACKOFF_EXPONENT`
abbrev pub max_backoff_exponent : ℕ
max_backoff_exponent = 40

-- `nominal * (0.5 + random())`
unfoldable pub jitter : ℕ → ℕ → ℕ
jitter nominal r = nominal * (2 ^ 52 + r) / 2 ^ 53

-- The delay of `backoff_delay` before the jitter.
unfoldable pub backoff_nominal : RateLimiter → ℕ
backoff_nominal s =
    min s.config.backoff_max
      (s.config.backoff_base * 2 ^ min (s.consecutive_failures - 1) max_backoff_exponent)

-- `backoff_delay`
unfoldable pub backoff_delay : ℕ → RateLimiter → ℕ
backoff_delay r s = if s.consecutive_failures == 0 then 0 else jitter (backoff_nominal s) r

-- `retry_delay`, with the draws of its two calls of the generator
unfoldable pub retry_delay : ℕ → ℕ → RateLimiter → ℕ
retry_delay r r' s =
    if ltb 0 (backoff_delay r s) then backoff_delay r s else jitter s.config.backoff_base r'
