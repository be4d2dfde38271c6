-- ===== src/Limiter/Logins.antt =====
-- custom_components/carnet_scolaire/ratelimit.py: the accounting of logins. Each has a cost that is
-- charged when it is admitted, and an outcome that is noted when it ends.
use ha_pronote_ng.Prelude.{
  Option, ℕ, ◌+◌, ◌-◌, Bool, true, false, none, some, [], ◌∷◌, ◌++◌, String, ltb, leb, some_or,
  length, keep, if◌then◌else◌,
}
use ha_pronote_ng.Const.{hour}
use ha_pronote_ng.Limiter.State.{
  RateLimiter, Reading, Verdict, allow, refuse, ticks, DeferReason, LoginOutcome, success,
  bad_credentials, transport, bootstrap, mfa_required, undecodable,
}
use ha_pronote_ng.Limiter.Layers.{roll_day}
use ha_pronote_ng.Limiter.Quiet.{seconds_to_midnight}
use ha_pronote_ng.Limiter.Holds.{
  hold_active, hold_remaining, start_hold, mark_throttled, maybe_clear_throttled,
}
use ha_pronote_ng.Limiter.Calls.{layers_wait, record_requests, note_failure}

-- `LOGIN_COST_KEY`
abbrev pub login_cost_key : String
login_cost_key = "login"

-- `_prune_failed_logins`: `at > clock - 3600`
unfoldable pub prune_failed_logins : Reading → RateLimiter → RateLimiter
prune_failed_logins t s = record s {
  failed_logins = keep (λ at. ltb t.clock (at + hour)) s.failed_logins;
}

-- `may_login`, from the wait on
unfoldable pub admit_login : Reading → ℕ → RateLimiter → RateLimiter × Verdict
admit_login t cost s0 = let (s, wait) = layers_wait t cost s0 in (s, allow wait)

-- `may_login`, from the cap on logins on, with the day rolled
unfoldable pub may_login_today : Reading → ℕ → RateLimiter → RateLimiter × Verdict
may_login_today t cost s =
    if leb s.config.max_logins_per_day s.logins_today
    then (
      record (mark_throttled t s) { shed_reason = some DeferReason.login_cap },
      refuse (ticks (seconds_to_midnight t)) DeferReason.login_cap,
    )
    else admit_login t cost s

-- `may_login`, from the guard on failed logins on
unfoldable pub may_login_unheld : Reading → ℕ → RateLimiter → RateLimiter × Verdict
may_login_unheld t cost s0 =
    let s = prune_failed_logins t s0 in
    if leb s.config.max_failed_logins_per_hour (length s.failed_logins)
    then (
      start_hold t DeferReason.credentials_hold s.config.credentials_hold s,
      refuse (ticks s.config.credentials_hold) DeferReason.credentials_hold,
    )
    else may_login_today t cost (roll_day t s)

-- `may_login`
unfoldable pub may_login : Reading → ℕ → RateLimiter → RateLimiter × Verdict
may_login t cost s0 =
    let (s, held) = hold_active t s0 in
    if held
    then (s, refuse (ticks (hold_remaining t s)) (some_or s.hold_reason DeferReason.backoff))
    else may_login_unheld t cost s

-- `_commit_login`
unfoldable pub commit_login : Reading → ℕ → RateLimiter → RateLimiter
commit_login t cost s0 =
    let s = record_requests t login_cost_key cost s0 in
    record s { logins_today = s.logins_today + 1; login_charged = some cost }

-- `_note_bad_credentials`
unfoldable pub note_bad_credentials : Reading → Bool → RateLimiter → RateLimiter
note_bad_credentials t false s = s
note_bad_credentials t true s0 =
    let s =
      prune_failed_logins t (record s0 { failed_logins = s0.failed_logins ++ t.clock ∷ [] }) in
    if ltb (length s.failed_logins) s.config.max_failed_logins_per_hour
    then s
    else start_hold t DeferReason.credentials_hold s.config.credentials_hold s

-- The charge of `note_login`: in full, or what the attempt cost beyond its charge at admission.
unfoldable pub settle_charge : Reading → ℕ → RateLimiter → Option ℕ → RateLimiter
settle_charge t requests_used s none =
    let s' = record_requests t login_cost_key requests_used s in
    record s' { logins_today = s'.logins_today + 1 }
settle_charge t requests_used s (some charged) =
    if ltb charged requests_used
    then record_requests t login_cost_key (requests_used - charged) s
    else s

-- The first part of `note_login`
unfoldable pub settle_login : Reading → ℕ → RateLimiter → RateLimiter
settle_login t requests_used s =
    settle_charge t requests_used (record (roll_day t s) { login_charged = none }) s.login_charged

-- The second part of `note_login`: what the outcome means, with the draw of the backoff's jitter.
unfoldable pub apply_outcome : Reading → LoginOutcome → Bool → ℕ → RateLimiter → RateLimiter
apply_outcome t success guarded r s =
    maybe_clear_throttled t (record s { consecutive_failures = 0 })
apply_outcome t bad_credentials guarded r s = note_bad_credentials t guarded s
apply_outcome t bootstrap guarded r s =
    start_hold t DeferReason.bootstrap_hold s.config.bootstrap_hold s
apply_outcome t mfa_required guarded r s =
    start_hold t DeferReason.mfa_hold s.config.credentials_hold s
apply_outcome t undecodable guarded r s =
    start_hold t DeferReason.bootstrap_hold s.config.bootstrap_hold s
apply_outcome t transport guarded r s = note_failure t r s

-- `note_login`
unfoldable pub note_login : Reading → LoginOutcome → ℕ → Bool → ℕ → RateLimiter → RateLimiter
note_login t outcome requests_used guarded r s =
    apply_outcome t outcome guarded r (settle_login t requests_used s)

-- `reset_after_reauth`
unfoldable pub reset_after_reauth : RateLimiter → RateLimiter
reset_after_reauth s = record s {
  failed_logins = [];
  consecutive_failures = 0;
  hold_until = none;
  hold_reason = none;
  shed_reason = none;
  throttled_since = none;
}
