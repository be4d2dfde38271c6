-- ===== src/EdLimiter/Takeover.antt =====
-- custom_components/carnet_scolaire/connectors/ecoledirecte/ed_limiter.py: what a limiter takes over.
use ha_pronote_ng.Prelude.{ℕ, ◌≡◌, refl, true, some, List, [], ◌∷◌, ap, ◌==◌, arith, if◌then◌else◌}
use ha_pronote_ng.Limiter.State.{RateLimitConfig, Reading, date}
use ha_pronote_ng.Limiter.Handover.{convert}
use ha_pronote_ng.EdLimiter.Handover.{somes}
use ha_pronote_ng.Limiter.Holds.{hold_runs}
use ha_pronote_ng.EdLimiter.State.{EdRateLimiter, init, roll_day}
use ha_pronote_ng.EdLimiter.Handover.{
  export_state, floats, import_counters, import_hold, same_day, import_state,
}

floats-somes : (ns : List ℕ) → floats (somes ns) ≡ some ns
unfolding floats
floats-somes [] = refl
floats-somes (n ∷ ns) = rw (floats-somes ns) refl

-- The hold of a limiter, where it still runs.
abbrev pub adopt_hold : Reading → EdRateLimiter → EdRateLimiter → EdRateLimiter
adopt_hold t s f =
    if hold_runs t.clock s.hold_until
    then record f { hold_until = s.hold_until; hold_reason = s.hold_reason }
    else f

day-roll_day : (t : Reading) (s : EdRateLimiter) → (roll_day t s).day ≡ date t
unfolding roll_day
day-roll_day t s = ground arith

same_day-export :
    (t t' : Reading) (c : RateLimitConfig) (s : EdRateLimiter)
    → same_day (export_state t s).1 (init c t') ≡ (date t == date t')
unfolding same_day export_state init
same_day-export t t' c s = ap (λ (d : ℕ). d == date t') (day-roll_day t s)

-- A limiter that takes over on the same day has every counter of the one before it, its failed
-- logins, and its hold if that still runs; its bucket is full again, its spacing starts anew, and no
-- failure in a row is remembered.
pub ed_import-export_same_day :
    (t t' : Reading) (c : RateLimitConfig) (s : EdRateLimiter)
    → date t ≡ date t'
    → let s' = (export_state t s).0 in
      import_state t' (export_state t s).1 (init c t')
      ≡ some (
          adopt_hold t' s' (record (init c t') {
            calls_today = s'.calls_today;
            calls_by_tier = s'.calls_by_tier;
            logins_today = s'.logins_today;
            cap_warning_open = s'.cap_warning_open;
            failed_logins = s'.failed_logins;
          }))
unfolding import_state import_counters import_hold export_state convert
ed_import-export_same_day t t' c s same =
    let test : same_day (export_state t s).1 (init c t') ≡ true =
      ground (arith, same_day-export t t' c s) in
    rw (test, floats-somes) (ground arith)
