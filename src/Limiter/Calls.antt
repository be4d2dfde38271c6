-- ===== src/Limiter/Calls.antt =====
-- custom_components/carnet_scolaire/ratelimit.py: the decision on a call, the charge of requests,
-- and the failures and successes of the transport.
use ha_pronote_ng.Prelude.{
  ℕ, ◌+◌, ◌-◌, ◌*◌, Bool, true, false, not, ◌&&◌, none, some, String, ltb, some_or, if◌then◌else◌,
}
use ha_pronote_ng.Prelude.Int.{pos, ◌-ℤ◌}
use ha_pronote_ng.Prelude.Dict.{bump}
use ha_pronote_ng.Const.{hour, Priority, quiet_hours_exempt}
use ha_pronote_ng.Limiter.State.{
  RateLimiter, Reading, Verdict, allow, refuse, Delay, ticks, max_delay, exceeds, DeferReason,
  hourly_budget, daily_cap, quiet_hours, backoff, shed_threshold, cap_warning_fraction,
}
use ha_pronote_ng.Limiter.Layers.{roll_day, cap_fraction, reaches, refill, token_wait, spacing_wait}
use ha_pronote_ng.Limiter.Quiet.{
  in_quiet_hours, batch_may_finish, seconds_to_quiet_end, seconds_to_midnight,
}
use ha_pronote_ng.Limiter.Holds.{
  hold_active, hold_remaining, start_hold, mark_throttled, maybe_clear_throttled, backoff_delay,
}

-- `fraction >= _SHED_THRESHOLD[priority]`
unfoldable pub sheds : Priority → RateLimiter → Bool
sheds priority s = elim (shed_threshold priority) [
  | none ↦ false
  | some threshold ↦ reaches (cap_fraction s) threshold
]

-- The wait that spacing and the bucket ask of `cost` requests, with the bucket refilled.
unfoldable pub layers_wait : Reading → ℕ → RateLimiter → RateLimiter × Delay
layers_wait t cost s = (refill t s, max_delay (spacing_wait t s) (token_wait cost (refill t s)))

-- `check`, from the computation of the wait on
unfoldable pub check_wait : Reading → ℕ → RateLimiter → RateLimiter × Verdict
check_wait t cost s0 =
    let (s, wait) = layers_wait t cost s0 in
    if exceeds wait s.config.max_wait
    then (
      record (mark_throttled t s) { shed_reason = some hourly_budget },
      refuse wait hourly_budget,
    )
    else (s, allow wait)

-- `check`, from the daily cap on, with the day rolled
unfoldable pub check_cap : Reading → Priority → ℕ → RateLimiter → RateLimiter × Verdict
check_cap t priority cost s0 =
    let s = record s0 {
      cap_warning_open =
          if reaches (cap_fraction s0) cap_warning_fraction then true else s0.cap_warning_open;
    } in
    if sheds priority s
    then (
      record (mark_throttled t s) { shed_reason = some daily_cap },
      refuse (ticks (seconds_to_midnight t)) daily_cap,
    )
    else check_wait t cost s

-- `check`
unfoldable pub check : Reading → Priority → ℕ → RateLimiter → RateLimiter × Verdict
check t priority cost s0 =
    let (s, held) = hold_active t s0 in
    if held
    then (s, refuse (ticks (hold_remaining t s)) (some_or s.hold_reason backoff))
    else if not (quiet_hours_exempt priority) && in_quiet_hours t s && not (batch_may_finish t s)
    then (s, refuse (ticks (seconds_to_quiet_end s.config t)) quiet_hours)
    else check_cap t priority cost (roll_day t s)

-- The charge of `_record_requests`, with the day rolled and the bucket refilled.
unfoldable pub charge : Reading → String → ℕ → RateLimiter → RateLimiter
charge t tier count s = record s {
  calls_today = s.calls_today + count;
  calls_by_tier = bump tier count s.calls_by_tier;
  last_call = pos t.clock;
  tokens = s.tokens -ℤ pos (count * hour);
}

-- `_record_requests`, which `commit` calls
unfoldable pub record_requests : Reading → String → ℕ → RateLimiter → RateLimiter
record_requests t tier count s = charge t tier count (refill t (roll_day t s))

-- `reconcile`
unfoldable pub reconcile : Reading → String → ℕ → ℕ → RateLimiter → RateLimiter
reconcile t tier charged actual s =
    if ltb charged actual then record_requests t tier (actual - charged) s else s

-- `note_failure`, with the draw of its jitter
unfoldable pub note_failure : Reading → ℕ → RateLimiter → RateLimiter
note_failure t r s0 =
    let s = record s0 { consecutive_failures = s0.consecutive_failures + 1 } in
    start_hold t backoff (backoff_delay r s) s

-- The middle of `note_success`: a hold for backoff ends.
unfoldable pub end_backoff : RateLimiter → RateLimiter
end_backoff s = elim s.hold_reason [
  | some DeferReason.backoff ↦ record s { hold_until = none; hold_reason = none }
  | _ ↦ s
]

-- `note_success`
unfoldable pub note_success : Reading → RateLimiter → RateLimiter
note_success t s = maybe_clear_throttled t (end_backoff (record s { consecutive_failures = 0 }))
