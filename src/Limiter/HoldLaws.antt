-- ===== src/Limiter/HoldLaws.antt =====
-- custom_components/carnet_scolaire/ratelimit.py: one hold after another, and the delays of the
-- backoff.
use ha_pronote_ng.Limiter.Layers.{roll_day}
use native.Mathlib.Decide.{dec_lt}
use ha_pronote_ng.Prelude.{ℕ, ◌+◌, ◌*◌, ◌/◌, ◌^◌, ◌≤◌, ◌<◌, max, ◌≡◌, ◌≢◌, some, arith}
use ha_pronote_ng.Limiter.State.{RateLimiter, Reading, DeferReason, backoff, hold_severity}
use ha_pronote_ng.Limiter.Holds.{
  clear_unless_capped, maybe_clear_throttled, hold_active, mark_throttled, worse_hold, start_hold,
  jitter, backoff_nominal, backoff_delay, retry_delay,
}
use ha_pronote_ng.Limiter.Calls.{note_success, end_backoff}

-- While a hold for `old` runs, starting another leaves a hold that is at least as severe and that
-- lasts at least as long as the new one asks.
pub start_hold_keeps_severity :
    (t : Reading) (old new : DeferReason) (until seconds : ℕ) (s : RateLimiter)
    → s.hold_until ≡ some until
    → s.hold_reason ≡ some old
    → t.clock < until
    → (reason : DeferReason) × (until' : ℕ) × ((start_hold t new seconds s).hold_reason
        ≡ some reason)
      × ((start_hold t new seconds s).hold_until ≡ some until')
      × (hold_severity old ≤ hold_severity reason)
      × (t.clock + seconds ≤ until')
unfolding start_hold hold_active worse_hold mark_throttled
start_hold_keeps_severity t old new until seconds s u r running =
    elim (dec_lt (hold_severity new) (hold_severity old)) [
      | yes milder ↦
          (old, max until (t.clock + seconds), ground arith, ground arith, omega arith, omega arith)
      | no worse ↦ (new, t.clock + seconds, ground arith, ground arith, omega arith, omega arith)
    ]

-- The delay before the jitter.
pub jitter_bounds : (n r : ℕ) → r < 2 ^ 53 → (n / 2 ≤ jitter n r) × (2 * jitter n r ≤ 3 * n)
unfolding jitter
jitter_bounds n r h = (grind arith, grind arith)

backoff_nominal-le : (s : RateLimiter) → backoff_nominal s ≤ s.config.backoff_max
unfolding backoff_nominal
backoff_nominal-le s = omega arith

-- The delay of the `n`-th failure in a row lies between half of the nominal delay and one and a half
-- times it, and the nominal delay never passes `backoff_max`.
pub backoff_delay_bounds :
    (r : ℕ) (s : RateLimiter)
    → r < 2 ^ 53
    → 0 < s.consecutive_failures
    → (backoff_nominal s / 2 ≤ backoff_delay r s)
      × (2 * backoff_delay r s ≤ 3 * backoff_nominal s)
      × (2 * backoff_delay r s ≤ 3 * s.config.backoff_max)
unfolding backoff_delay
backoff_delay_bounds r s draw fails =
    let (lower, upper) = jitter_bounds (backoff_nominal s) r draw in
    let capped = backoff_nominal-le s in (ground arith, ground arith, ground arith)

-- The delay to retry is never zero, where the base of the backoff is two microseconds or more.
pub retry_delay_pos :
    (r r' : ℕ) (s : RateLimiter) → r' < 2 ^ 53 → 2 ≤ s.config.backoff_base → 0 < retry_delay r r' s
unfolding retry_delay
retry_delay_pos r r' s draw base =
    let (lower, upper) = jitter_bounds s.config.backoff_base r' draw in ground arith

-- The end of a success: the failure counter and the hold that is left.
abbrev SameHold : RateLimiter → RateLimiter → Type 0
SameHold s s' = (s'.hold_until ≡ s.hold_until) × (s'.consecutive_failures ≡ s.consecutive_failures)

roll_day-SameHold : (t : Reading) (s : RateLimiter) → SameHold s (roll_day t s)
unfolding roll_day
roll_day-SameHold t s = ground arith

clear_unless_capped-SameHold : (s : RateLimiter) → SameHold s (clear_unless_capped s)
unfolding clear_unless_capped
clear_unless_capped-SameHold s = ground arith

clear-running :
    (t : Reading) (until : ℕ) (s : RateLimiter)
    → s.hold_until ≡ some until
    → t.clock < until
    → maybe_clear_throttled t s ≡ s
unfolding maybe_clear_throttled hold_active
clear-running t until s u running = ground arith

-- A success leaves a running hold for any other reason as it is, and sets the count of failures to
-- zero.
pub note_success-other :
    (t : Reading) (old : DeferReason) (until : ℕ) (s : RateLimiter)
    → s.hold_until ≡ some until
    → s.hold_reason ≡ some old
    → old ≢ backoff
    → t.clock < until
    → ((note_success t s).hold_until ≡ some until)
      × ((note_success t s).hold_reason ≡ some old)
      × ((note_success t s).consecutive_failures ≡ 0)
unfolding note_success end_backoff
note_success-other t old until s u r ne running =
    ground (arith, clear-running t until (record s { consecutive_failures = 0 }) u running)
