-- ===== src/Limiter/HandoverLaws.antt =====
-- custom_components/carnet_scolaire/ratelimit.py: what survives the hand-over from one limiter to the
-- next.
use ha_pronote_ng.Prelude.{
  ℕ, ◌≡◌, ◌≢◌, refl, ap, true, false, some, List, [], ◌∷◌, arith, ◌==◌, if◌then◌else◌,
}
use ha_pronote_ng.Limiter.State.{RateLimitConfig, RateLimiter, Reading, date, init}
use ha_pronote_ng.Limiter.Layers.{roll_day, refill}
use ha_pronote_ng.Limiter.Holds.{hold_runs}
use ha_pronote_ng.Limiter.Handover.{
  export_state, import_state, import_counters, import_punitive, import_hold, same_day, numbers,
  all_given,
}

numbers-all_given : (ns : List ℕ) → numbers (all_given ns) ≡ some ns
unfolding numbers
numbers-all_given [] = refl
numbers-all_given (n ∷ ns) = rw (numbers-all_given ns, numbers) refl

-- The hold of a previous limiter `s`, as the next one adopts it.
abbrev pub adopt_hold : Reading → RateLimiter → RateLimiter → RateLimiter
adopt_hold t s f =
    if hold_runs t.clock s.hold_until
    then record f { hold_until = s.hold_until; hold_reason = s.hold_reason }
    else f

day-roll_day : (t : Reading) (s : RateLimiter) → (refill t (roll_day t s)).day ≡ date t
unfolding refill roll_day
day-roll_day t s = ground arith

import_punitive-export :
    (t t' : Reading) (s f : RateLimiter)
    → import_punitive t' (export_state t s).1 f
      ≡ some (
          adopt_hold t' (export_state t s).0 (record f {
            failed_logins = (export_state t s).0.failed_logins;
            consecutive_failures = (export_state t s).0.consecutive_failures;
          }))
unfolding import_punitive import_hold export_state
import_punitive-export t t' s f = rw numbers-all_given (ground arith)

import_counters-export :
    (t : Reading) (s f : RateLimiter)
    → import_counters (export_state t s).1 f
      ≡ some (record f {
        calls_today = (export_state t s).0.calls_today;
        calls_by_tier = (export_state t s).0.calls_by_tier;
        logins_today = (export_state t s).0.logins_today;
        cap_warning_open = (export_state t s).0.cap_warning_open;
        tokens = (export_state t s).0.tokens;
        last_call = (export_state t s).0.last_call;
        refilled = (export_state t s).0.refilled;
      })
unfolding import_counters export_state
import_counters-export t s f = refl

same_day-export :
    (t t' : Reading) (c : RateLimitConfig) (s : RateLimiter)
    → same_day (export_state t s).1 (init c t') ≡ (date t == date t')
unfolding same_day export_state init
same_day-export t t' c s = ap (λ (d : ℕ). d == date t') (day-roll_day t s)

-- A limiter that takes over on the same day has every counter of the one before it, its bucket, its
-- spacing, its failed logins and failures in a row, and its hold if that still runs.
pub import-export_same_day :
    (t t' : Reading) (c : RateLimitConfig) (s : RateLimiter)
    → date t ≡ date t'
    → let s' = (export_state t s).0 in
      import_state t' (some (export_state t s).1) (init c t')
      ≡ some (
          adopt_hold t' s' (record (init c t') {
            calls_today = s'.calls_today;
            calls_by_tier = s'.calls_by_tier;
            logins_today = s'.logins_today;
            cap_warning_open = s'.cap_warning_open;
            tokens = s'.tokens;
            last_call = s'.last_call;
            refilled = s'.refilled;
            failed_logins = s'.failed_logins;
            consecutive_failures = s'.consecutive_failures;
          }))
unfolding import_state
import-export_same_day t t' c s same =
    let test : same_day (export_state t s).1 (init c t') ≡ true =
      ground (arith, same_day-export t t' c s) in
    rw (test, import_counters-export) (import_punitive-export t t' s _)

-- A limiter that takes over on another day begins with fresh counters and a full bucket, and keeps the
-- failed logins, the failures in a row and the hold that still runs.
pub import-export_other_day :
    (t t' : Reading) (c : RateLimitConfig) (s : RateLimiter)
    → date t ≢ date t'
    → let s' = (export_state t s).0 in
      import_state t' (some (export_state t s).1) (init c t')
      ≡ some (
          adopt_hold t' s' (record (init c t') {
            failed_logins = s'.failed_logins;
            consecutive_failures = s'.consecutive_failures;
          }))
unfolding import_state
import-export_other_day t t' c s other =
    let test : same_day (export_state t s).1 (init c t') ≡ false =
      ground (arith, same_day-export t t' c s) in
    rw test (import_punitive-export t t' s (init c t'))
