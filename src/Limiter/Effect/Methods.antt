-- ===== src/Limiter/Effect/Methods.antt =====
-- custom_components/carnet_scolaire/ratelimit.py: the effect of the methods that the session and the
-- tiers call.
use ha_pronote_ng.Limiter.Handover.{limiter_state, snapshot_counters}
use ha_pronote_ng.Prelude.{
  Option, ℕ, ◌+◌, ◌-◌, Bool, true, false, not, ◌&&◌, none, some, [], ◌∷◌, ◌++◌, String, ltb, leb,
  length, if◌then◌else◌, refl,
}
use ha_pronote_ng.Const.{Priority, quiet_hours_exempt}
use ha_pronote_ng.Limiter.State.{
  RateLimiter, Reading, DeferReason, LoginOutcome, success, bad_credentials, transport, bootstrap,
  mfa_required, undecodable, cap_warning_fraction,
}
use ha_pronote_ng.Limiter.Layers.{refill, roll_day, cap_fraction, reaches}
use ha_pronote_ng.Limiter.Quiet.{in_quiet_hours, batch_may_finish}
use ha_pronote_ng.Limiter.Holds.{hold_active, mark_throttled, backoff_delay}
use ha_pronote_ng.Limiter.Calls.{
  sheds, check_wait, check_cap, check, record_requests, reconcile, note_failure, end_backoff,
  note_success, layers_wait,
}
use ha_pronote_ng.Limiter.Logins.{
  login_cost_key, prune_failed_logins, admit_login, may_login_today, may_login_unheld, may_login,
  commit_login, note_bad_credentials, settle_charge, settle_login, apply_outcome, note_login,
}
use ha_pronote_ng.Limiter.Effect.{
  Effect, Effect-refl, Effect-trans, Effect-if, Effect-if_first, Effect-same, refill-Effect,
  roll_day-Effect, hold_active-Effect, start_hold-Effect, end_backoff-Effect,
  prune_failed_logins-Effect, check_wait-Effect, record_requests-Effect,
  maybe_clear_throttled-Effect,
}

module _ (t : Reading) (s : RateLimiter) where
  check_cap-Effect : (priority : Priority) (cost : ℕ) → Effect t s (check_cap t priority cost s).0
  unfolding check_cap mark_throttled
  check_cap-Effect priority cost =
      let s' = record s {
        cap_warning_open =
            if reaches (cap_fraction s) cap_warning_fraction then true else s.cap_warning_open;
      } in
      let e = Effect-same {t = t} s' refl refl (λ h. h) in
      Effect-if_first (sheds priority s') _ (check_wait t cost s')
        (Effect-same _ refl refl (λ h. h)) (Effect-trans e (check_wait-Effect t s' cost))

  pub reconcile-Effect :
      (tier : String) (charged actual : ℕ) → Effect t s (reconcile t tier charged actual s)
  unfolding reconcile
  reconcile-Effect tier charged actual =
      Effect-if (ltb charged actual) (record_requests t tier (actual - charged) s) s
        (record_requests-Effect t s tier (actual - charged)) (Effect-refl s)

  pub note_failure-Effect : (r : ℕ) → Effect t s (note_failure t r s)
  unfolding note_failure
  note_failure-Effect r =
      let s' = record s { consecutive_failures = s.consecutive_failures + 1 } in
      let e = start_hold-Effect t s' DeferReason.backoff (backoff_delay r s') in
      record { config = e.config; stamp = e.stamp; balanced = e.balanced }

  pub note_success-Effect : Effect t s (note_success t s)
  unfolding note_success
  note_success-Effect =
      let s' = record s { consecutive_failures = 0 } in
      let e =
        Effect-trans (end_backoff-Effect t s') (maybe_clear_throttled-Effect t (end_backoff s')) in
      record { config = e.config; stamp = e.stamp; balanced = e.balanced }

  pub commit_login-Effect : (cost : ℕ) → Effect t s (commit_login t cost s)
  unfolding commit_login
  commit_login-Effect cost =
      let e = record_requests-Effect t s login_cost_key cost in
      record { config = e.config; stamp = e.stamp; balanced = e.balanced }

module _ (t : Reading) (s : RateLimiter) where
  pub check-Effect : (priority : Priority) (cost : ℕ) → Effect t s (check t priority cost s).0
  unfolding check
  check-Effect priority cost =
      let (s', held) = hold_active t s in
      let e = hold_active-Effect t s in
      Effect-if_first held _ _ e (
        Effect-if_first
          (not (quiet_hours_exempt priority) && in_quiet_hours t s' && not (batch_may_finish t s'))
          _ _ e
          (Effect-trans e (
            Effect-trans (roll_day-Effect t s')
              (check_cap-Effect t (roll_day t s') priority cost))))

  may_login_today-Effect : (cost : ℕ) → Effect t s (may_login_today t cost s).0
  unfolding may_login_today admit_login layers_wait mark_throttled
  may_login_today-Effect cost =
      Effect-if_first (leb s.config.max_logins_per_day s.logins_today) _ _
        (Effect-same _ refl refl (λ h. h)) (refill-Effect t s)

  pub note_bad_credentials-Effect : (guarded : Bool) → Effect t s (note_bad_credentials t guarded s)
  unfolding note_bad_credentials
  note_bad_credentials-Effect false = Effect-refl s
  note_bad_credentials-Effect true =
      let s0 = record s { failed_logins = s.failed_logins ++ t.clock ∷ [] } in
      let s' = prune_failed_logins t s0 in
      let e =
        Effect-trans {t = t} (Effect-same s0 refl refl (λ h. h))
          (prune_failed_logins-Effect t s0) in
      Effect-if (ltb (length s'.failed_logins) s'.config.max_failed_logins_per_hour) _ _ e (
        Effect-trans e
          (start_hold-Effect t s' DeferReason.credentials_hold s'.config.credentials_hold))

module _ (t : Reading) (s : RateLimiter) where
  may_login_unheld-Effect : (cost : ℕ) → Effect t s (may_login_unheld t cost s).0
  unfolding may_login_unheld
  may_login_unheld-Effect cost =
      let s' = prune_failed_logins t s in
      let e = prune_failed_logins-Effect t s in
      Effect-if_first (leb s'.config.max_failed_logins_per_hour (length s'.failed_logins)) _ _
        (Effect-trans e
          (start_hold-Effect t s' DeferReason.credentials_hold s'.config.credentials_hold))
        (Effect-trans e
          (Effect-trans (roll_day-Effect t s') (may_login_today-Effect t (roll_day t s') cost)))

  settle_charge-Effect :
      (requests_used : ℕ) (charged : Option ℕ)
      → Effect t s (settle_charge t requests_used s charged)
  unfolding settle_charge
  settle_charge-Effect requests_used none =
      Effect-trans (record_requests-Effect t s login_cost_key requests_used)
        (Effect-same _ refl refl (λ h. h))
  settle_charge-Effect requests_used (some charged) =
      Effect-if (ltb charged requests_used) _ s
        (record_requests-Effect t s login_cost_key (requests_used - charged)) (Effect-refl s)

  apply_outcome-Effect :
      (outcome : LoginOutcome) (guarded : Bool) (r : ℕ)
      → Effect t s (apply_outcome t outcome guarded r s)
  unfolding apply_outcome
  apply_outcome-Effect success guarded r =
      let s' = record s { consecutive_failures = 0 } in
      Effect-trans {t = t} (Effect-same s' refl refl (λ h. h)) (maybe_clear_throttled-Effect t s')
  apply_outcome-Effect bad_credentials guarded r = note_bad_credentials-Effect t s guarded
  apply_outcome-Effect bootstrap guarded r = start_hold-Effect t s _ _
  apply_outcome-Effect mfa_required guarded r = start_hold-Effect t s _ _
  apply_outcome-Effect undecodable guarded r = start_hold-Effect t s _ _
  apply_outcome-Effect transport guarded r = note_failure-Effect t s r

module _ (t : Reading) (s : RateLimiter) where
  settle_login-Effect : (requests_used : ℕ) → Effect t s (settle_login t requests_used s)
  unfolding settle_login
  settle_login-Effect requests_used =
      let s' = record (roll_day t s) { login_charged = none } in
      Effect-trans (roll_day-Effect t s) (
        Effect-trans {t = t} (Effect-same s' refl refl (λ h. h))
          (settle_charge-Effect t s' requests_used s.login_charged))

module _ (t : Reading) (s : RateLimiter) where
  pub may_login-Effect : (cost : ℕ) → Effect t s (may_login t cost s).0
  unfolding may_login
  may_login-Effect cost =
      let (s', held) = hold_active t s in
      let e = hold_active-Effect t s in
      Effect-if_first held _ _ e (Effect-trans e (may_login_unheld-Effect t s' cost))

  pub note_login-Effect :
      (outcome : LoginOutcome) (requests_used : ℕ) (guarded : Bool) (r : ℕ)
      → Effect t s (note_login t outcome requests_used guarded r s)
  unfolding note_login
  note_login-Effect outcome requests_used guarded r =
      Effect-trans (settle_login-Effect t s requests_used)
        (apply_outcome-Effect t (settle_login t requests_used s) outcome guarded r)

  limiter_state-Effect : Effect t s (limiter_state t s).0
  unfolding limiter_state
  limiter_state-Effect = hold_active-Effect t s

module _ (t : Reading) (s : RateLimiter) where
  pub snapshot_counters-Effect : Effect t s (snapshot_counters t s).0
  unfolding snapshot_counters
  snapshot_counters-Effect =
      let rolled = roll_day t s in
      let refilled = refill t rolled in
      let settled = (hold_active t refilled).0 in
      Effect-trans (roll_day-Effect t s) (
        Effect-trans (refill-Effect t rolled) (
          Effect-trans (hold_active-Effect t refilled) (
            Effect-trans (prune_failed_logins-Effect t settled)
              (limiter_state-Effect t (prune_failed_logins t settled)))))
