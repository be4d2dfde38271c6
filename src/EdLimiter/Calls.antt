-- ===== src/EdLimiter/Calls.antt =====
-- custom_components/carnet_scolaire/connectors/ecoledirecte/ed_limiter.py: the verdict on a request,
-- its admission, and the failures and successes of the transport.
use ha_pronote_ng.Prelude.{
  ℕ, ◌+◌, ◌-◌, ◌*◌, ◌^◌, min, Bool, true, false, not, ◌&&◌, Option, none, some, String, leb, ◌==◌,
  some_or, if◌then◌else◌,
}
use ha_pronote_ng.Const.{Priority, quiet_hours_exempt}
use ha_pronote_ng.Limiter.State.{
  DeferReason, hourly_budget, daily_cap, quiet_hours, backoff, shed_threshold, cap_warning_fraction,
  Delay, ticks, exceeds, Verdict, allow, refuse, Reading,
}
use ha_pronote_ng.Limiter.Quiet.{seconds_to_midnight, seconds_to_quiet_end}
use ha_pronote_ng.Limiter.Holds.{jitter}
use ha_pronote_ng.EdLimiter.State.{
  EdRateLimiter, roll_day, wait, record_cost, hold_active, hold_remaining, since, start_hold,
  in_quiet_hours, batch_may_finish,
}

-- `calls_today / max_requests_per_day >= tenths / 10`, for a cap that is not zero
unfoldable pub reaches : EdRateLimiter → ℕ → Bool
reaches s tenths = leb (tenths * s.config.max_requests_per_day) (10 * s.calls_today)

-- `fraction >= _SHED_THRESHOLD[priority]`, whose thresholds are those of ratelimit.py
unfoldable pub sheds : Priority → EdRateLimiter → Bool
sheds priority s = elim (shed_threshold priority) [ none ↦ false | some tenths ↦ reaches s tenths ]

-- `_verdict`, from the wait on
unfoldable pub verdict_wait : Reading → ℕ → EdRateLimiter → EdRateLimiter × Verdict
verdict_wait t cost s0 =
    let (s, w) = wait t cost s0 in
    if exceeds w s.config.max_wait
    then (record s { throttled_since = since t s.throttled_since }, refuse w hourly_budget)
    else (s, allow w)

-- `_verdict`, from the fraction on, with a cap that is not zero
unfoldable pub verdict_cap : Reading → Priority → ℕ → EdRateLimiter → EdRateLimiter × Verdict
verdict_cap t priority cost s0 =
    let s = record s0 {
      cap_warning_open = if reaches s0 cap_warning_fraction then true else s0.cap_warning_open;
    } in
    if sheds priority s
    then (
      record s { throttled_since = since t s.throttled_since },
      refuse (ticks (seconds_to_midnight t)) daily_cap,
    )
    else verdict_wait t cost s

-- `_verdict`, from the division by the daily cap on: `none` for the verdict is `ZeroDivisionError`.
unfoldable pub verdict_today :
    Reading → Priority → ℕ → EdRateLimiter → EdRateLimiter × Option Verdict
verdict_today t priority cost s0 =
    if s0.config.max_requests_per_day == 0
    then (s0, none)
    else let (s, v) = verdict_cap t priority cost s0 in (s, some v)

-- `_verdict`
unfoldable pub verdict : Reading → Priority → ℕ → EdRateLimiter → EdRateLimiter × Option Verdict
verdict t priority cost s0 =
    let (s, held) = hold_active t s0 in
    if held
    then (s, some (refuse (ticks (hold_remaining t s)) (some_or s.hold_reason backoff)))
    else if not (quiet_hours_exempt priority) && in_quiet_hours t s && not (batch_may_finish t s)
    then (s, some (refuse (ticks (seconds_to_quiet_end s.config t)) quiet_hours))
    else verdict_today t priority cost (roll_day t s)

-- How `_admit` ends, under its lock: refused, a sleep that never ends, an exception, or admitted at
-- the end of the sleep.
pub data Admission : Type 0 where
  admitted : EdRateLimiter → Admission
  deferred : EdRateLimiter → Delay → DeferReason → Admission
  asleep crashed : EdRateLimiter → Admission

-- `_admit`, past the verdict: the requests are recorded at the reading `woken n` that follows a sleep of
-- `n` microseconds.
unfoldable pub admit_verdict :
    Reading → (ℕ → Reading) → String → ℕ → EdRateLimiter × Option Verdict → Admission
admit_verdict t woken key cost (s, none) = Admission.crashed s
admit_verdict t woken key cost (s, some v) =
    if v.allowed
    then elim v.wait [
      | Delay.forever ↦ Admission.asleep s
      | ticks n ↦ Admission.admitted (record_cost (woken n) key cost s)
    ]
    else Admission.deferred s v.wait (some_or v.reason hourly_budget)

-- `_admit`; `woken n` is the reading once a sleep of `n` microseconds is over
unfoldable pub admit : Reading → (ℕ → Reading) → String → Priority → ℕ → EdRateLimiter → Admission
admit t woken key priority cost s = admit_verdict t woken key cost (verdict t priority cost s)

-- `note_success`
unfoldable pub note_success : EdRateLimiter → EdRateLimiter
note_success s0 =
    let s = record s0 { consecutive_failures = 0 } in
    elim s.hold_reason [
      | some DeferReason.backoff ↦ record s {
        hold_until = none;
        hold_reason = none;
        throttled_since = none;
      }
      | _ ↦ s
    ]

-- What the least integer is that `float` refuses with `OverflowError`, of those that are powers of two.
abbrev pub float_limit : ℕ
float_limit = 2 ^ 1024

-- `float(n)` for a power of two, which it holds exactly; `none` is `OverflowError`.
unfoldable pub float_of : ℕ → Option ℕ
float_of n = if leb float_limit n then none else some n

-- The nominal delay of `note_transport_failure`: the power of two becomes a float in the product.
unfoldable pub nominal_delay : EdRateLimiter → Option ℕ
nominal_delay s = elim (float_of (2 ^ (s.consecutive_failures - 1))) [
  | none ↦ none
  | some factor ↦ some (min s.config.backoff_max (s.config.backoff_base * factor))
]

-- `note_transport_failure`, with the draw of its jitter: the new state, and whether it returns
unfoldable pub note_transport_failure : Reading → Bool → ℕ → EdRateLimiter → EdRateLimiter × Bool
note_transport_failure t bootstrap r s0 =
    let s = record s0 { consecutive_failures = s0.consecutive_failures + 1 } in
    elim (nominal_delay s) [
      | none ↦ (s, false)
      | some nominal ↦ (
        start_hold t (if bootstrap then DeferReason.bootstrap_hold else backoff) (jitter nominal r)
            s,
        true,
      )
    ]

-- `retry_delay`
unfoldable pub retry_delay : Reading → EdRateLimiter → EdRateLimiter × ℕ
retry_delay t s0 =
    let (s, active) = hold_active t s0 in
    (s, if active then hold_remaining t s else s.config.backoff_base)
