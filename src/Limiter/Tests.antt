-- ===== src/Limiter/Tests.antt =====
-- custom_components/carnet_scolaire/ratelimit.py: concrete runs of the limiter.
use ha_pronote_ng.Limiter.Admission.Balance.{calls_today-run}
use ha_pronote_ng.Prelude.{
  ◌⊎◌, ℕ, ◌+◌, ◌-◌, ◌*◌, ◌/◌, ◌≤◌, ◌≡◌, refl, ◌↔◌, true, false, none, some, List, [], ◌∷◌, arith,
}
use ha_pronote_ng.Prelude.Int.{min_ℤ, ◌+ℤ◌, ◌-ℤ◌, pos, ◌≤ℤ◌}
use ha_pronote_ng.Prelude.Dict.{total}
use ha_pronote_ng.Const.{
  second, minute, hour, day_length, high, low, quiet_hours_exempt, priority_rank,
}
use ha_pronote_ng.Limiter.State.{
  exceeds, max_delay, shed_threshold, DeferReason, RateLimitConfig, RateLimiter, Reading, ticks,
  init, refuse, hold_severity, credentials_hold, backoff,
}
use ha_pronote_ng.Limiter.Layers.{
  refill, token_wait, roll_day, spacing_wait, cap_fraction, reaches, div_up,
}
use ha_pronote_ng.Limiter.Quiet.{
  batch_may_finish, quiet_at, quiet_walk, max_quiet_walk_days, in_quiet_hours,
}
use ha_pronote_ng.Limiter.Holds.{start_hold, hold_active}
use ha_pronote_ng.Limiter.Calls.{check, check_cap, check_wait, layers_wait, sheds}
use ha_pronote_ng.Limiter.Logins.{may_login, note_bad_credentials}
use ha_pronote_ng.Limiter.Handover.{export_state, import_state, malformed, same_day}
use ha_pronote_ng.Limiter.Admission.{Request, Event, run, start}
use ha_pronote_ng.Limiter.Admission.Spacing.{Spaced}
use ha_pronote_ng.Limiter.Admission.Interleaving.{Spaced-run}
use ha_pronote_ng.Limiter.Verdicts.{Passes, check-allowed-iff-Passes, check_mono}
use ha_pronote_ng.Limiter.Bucket.{token_wait_exact}
use ha_pronote_ng.Limiter.HoldLaws.{start_hold_keeps_severity}
use ha_pronote_ng.Limiter.LoginLaws.{MayLogin, may_login-allowed_iff, guard_refuses, guard_lets_go}
use ha_pronote_ng.Limiter.DayLaws.{quiet_walk_enough}
use ha_pronote_ng.Limiter.HandoverLaws.{adopt_hold, import-export_same_day, import-export_other_day}
use ha_pronote_ng.Limiter.HandoverErrors.{AnyOfToday, AnyPunitive, import_state-raises_iff}

abbrev config : RateLimitConfig
config = record {
  min_request_interval = 3 * second;
  max_requests_per_hour = 60;
  burst_size = 10;
  max_requests_per_day = 400;
  max_wait = 30 * second;
  max_logins_per_day = 10;
  max_failed_logins_per_hour = 2;
  credentials_hold = 6 * hour;
  bootstrap_hold = hour;
  backoff_base = minute;
  backoff_max = hour;
  quiet_hours_enabled = true;
  quiet_start = 22 * hour;
  quiet_end = 6 * hour;
}

-- Noon of the third day, and a number of microseconds later.
abbrev after : ℕ → Reading
after n = record { clock = 100 * hour + n; now = 2 * day_length + 12 * hour + n; zone = λ at. at }

abbrev fresh_limiter : RateLimiter
fresh_limiter = record {
  config = config;
  last_call = pos (90 * hour);
  tokens = pos (10 * hour);
  refilled = 100 * hour;
  day = 2;
  calls_today = 0;
  calls_by_tier = [];
  logins_today = 0;
  failed_logins = [];
  login_charged = none;
  consecutive_failures = 0;
  hold_until = none;
  hold_reason = none;
  shed_reason = none;
  throttled_since = none;
  cap_warning_open = false;
  batch_started = none;
  batch_started_in_quiet = false;
}

abbrev poll : Request
poll = Request.call "timetable" high 1

-- Two calls and a cancelled sleep: the second call sleeps out the spacing, and the third leaves only
-- once the second has left.
abbrev schedule : List (Reading × Event)
schedule =
    (after 0, Event.ask poll)
    ∷ (after second, Event.ask poll)
    ∷ (after second, Event.ask poll)
    ∷ (after (3 * second), Event.wake)
    ∷ (after (4 * second), Event.ask (Request.login 5))
    ∷ (after (5 * second), Event.cancelled)
    ∷ []

Spaced-run_example : Spaced (3 * second) (run schedule (start config (after 0))).sent
Spaced-run_example = Spaced-run config (after 0) schedule (ground arith)

calls_today-run_example :
    (run schedule (start config (after 0))).limiter.calls_today
    ≡ total (run schedule (start config (after 0))).limiter.calls_by_tier
calls_today-run_example = calls_today-run config (after 0) schedule

check-allowed-iff-Passes_example :
    ((check (after 0) low 1 fresh_limiter).1.allowed ≡ true) ↔ Passes (after 0) low 1 fresh_limiter
check-allowed-iff-Passes_example = check-allowed-iff-Passes (after 0) low 1 fresh_limiter

check_mono_example : (check (after 0) high 1 fresh_limiter).1.allowed ≡ true
unfolding check check_cap check_wait hold_active quiet_hours_exempt sheds shed_threshold layers_wait
    in_quiet_hours quiet_at spacing_wait token_wait roll_day refill cap_fraction reaches exceeds
    max_delay min_ℤ ◌+ℤ◌ ◌-ℤ◌ div_up priority_rank batch_may_finish
check_mono_example =
    check_mono (after 0) high low 1 fresh_limiter (ground arith)
      (λ (h : false ≡ true). ground arith) refl

-- The bucket is empty: a cost of 10 is out of reach for the wait that a call accepts.
abbrev drained : RateLimiter
drained = record fresh_limiter { tokens = pos 0 }

token_wait_exact_example :
    (pos (2 * hour) ≤ℤ (refill (after second) drained).tokens)
    ↔ (100 * hour + 2 * minute ≤ 100 * hour + second)
unfolding token_wait div_up ◌-ℤ◌
token_wait_exact_example =
    token_wait_exact (after second) 2 (2 * minute) drained (ground arith) (ground arith) refl

abbrev held : RateLimiter
held = record fresh_limiter { hold_until = some (101 * hour); hold_reason = some credentials_hold }

start_hold_keeps_severity_example :
    (reason : DeferReason) × (until' : ℕ) × ((start_hold
        (after 0)
        backoff
        (2 * hour)
        held).hold_reason
      ≡ some reason)
    × ((start_hold (after 0) backoff (2 * hour) held).hold_until ≡ some until')
    × (hold_severity credentials_hold ≤ hold_severity reason)
    × (100 * hour + 2 * hour ≤ until')
start_hold_keeps_severity_example =
    start_hold_keeps_severity (after 0) credentials_hold backoff (101 * hour) (2 * hour) held refl
      refl (ground arith)

abbrev failing : ℕ → RateLimiter
failing n = record fresh_limiter { consecutive_failures = n }

may_login-allowed_iff_example :
    ((may_login (after 0) 5 fresh_limiter).1.allowed ≡ true) ↔ MayLogin (after 0) fresh_limiter
may_login-allowed_iff_example = may_login-allowed_iff (after 0) 5 fresh_limiter

-- One failed login twenty minutes ago, and another now.
abbrev once_failed : RateLimiter
once_failed = record fresh_limiter { failed_logins = (100 * hour - 20 * minute) ∷ [] }

guard_refuses_example :
    (may_login (after hour) 5 (note_bad_credentials (after 0) true once_failed)).1
    ≡ refuse (ticks (106 * hour - 101 * hour)) credentials_hold
guard_refuses_example =
    guard_refuses (after 0) (after hour) 5 once_failed (ground arith) (ground arith)

guard_lets_go_example : (may_login (after hour) 5 once_failed).1.allowed ≡ true
unfolding roll_day
guard_lets_go_example =
    guard_lets_go (after hour) 5 once_failed refl (ground arith, tt) (ground arith) (ground arith)

quiet_walk_enough_example :
    quiet_walk config
      (after 0)
      (2 * day_length)
      (9 * day_length)
      (max_quiet_walk_days + 1 + 50)
      (2 * day_length / day_length - 1)
    ≡ quiet_walk config
        (after 0)
        (2 * day_length)
        (9 * day_length)
        (max_quiet_walk_days + 1)
        (2 * day_length / day_length - 1)
quiet_walk_enough_example =
    quiet_walk_enough config (after 0) (2 * day_length) (9 * day_length) 50 (ground arith)

import_state-raises_iff_example :
    let h = record (export_state (after 0) fresh_limiter).1 { tokens = malformed } in
    (import_state (after 0) (some h) fresh_limiter ≡ none)
    ↔ (((same_day h fresh_limiter ≡ true) × AnyOfToday h) ⊎ AnyPunitive h)
import_state-raises_iff_example =
    import_state-raises_iff (after 0)
      (record (export_state (after 0) fresh_limiter).1 { tokens = malformed }) fresh_limiter

import-export_same_day_example :
    let s' = (export_state (after 0) held).0 in
    import_state (after hour) (some (export_state (after 0) held).1) (init config (after hour))
    ≡ some (
        adopt_hold (after hour) s' (record (init config (after hour)) {
          calls_today = s'.calls_today;
          calls_by_tier = s'.calls_by_tier;
          logins_today = s'.logins_today;
          cap_warning_open = s'.cap_warning_open;
          tokens = s'.tokens;
          last_call = s'.last_call;
          refilled = s'.refilled;
          failed_logins = s'.failed_logins;
          consecutive_failures = s'.consecutive_failures;
        }))
import-export_same_day_example = import-export_same_day (after 0) (after hour) config held refl

import-export_other_day_example :
    let s' = (export_state (after 0) held).0 in
    import_state
      (after day_length)
      (some (export_state (after 0) held).1)
      (init config (after day_length))
    ≡ some (
        adopt_hold (after day_length) s' (record (init config (after day_length)) {
          failed_logins = s'.failed_logins;
          consecutive_failures = s'.consecutive_failures;
        }))
import-export_other_day_example =
    import-export_other_day (after 0) (after day_length) config held (λ same. ground arith)
