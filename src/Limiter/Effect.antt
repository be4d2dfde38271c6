-- ===== src/Limiter/Effect.antt =====
-- custom_components/carnet_scolaire/ratelimit.py: what the operations of the limiter may do to its
-- configuration, to the stamp of the last call and to the counters of the day.
pub mod Methods
use ha_pronote_ng.Prelude.{
  ℕ, ◌+◌, ◌≡◌, refl, ◌∙◌, ◌⊎◌, inl, inr, Bool, true, false, none, some, String, arith,
  if◌then◌else◌,
}
use ha_pronote_ng.Prelude.Int.{pos}
use ha_pronote_ng.Prelude.Dict.{total, total-bump}
use ha_pronote_ng.Const.{Priority}
use ha_pronote_ng.Limiter.State.{RateLimiter, Reading, DeferReason, LoginOutcome}
use ha_pronote_ng.Limiter.State.{
  success, bad_credentials, transport, bootstrap, mfa_required, undecodable,
}
use ha_pronote_ng.Limiter.Layers.{roll_day, refill}
use ha_pronote_ng.Limiter.Holds.{
  hold_active, mark_throttled, start_hold, clear_unless_capped, maybe_clear_throttled,
}
use ha_pronote_ng.Limiter.Calls.{
  check_wait, check_cap, check, charge, record_requests, reconcile, note_failure, end_backoff,
  note_success, layers_wait,
}
use ha_pronote_ng.Limiter.Logins.{
  prune_failed_logins, may_login, commit_login, note_bad_credentials, settle_login, apply_outcome,
  note_login, reset_after_reauth,
}

-- The requests of the day are the sum over the tiers.
abbrev pub IsBalanced : RateLimiter → Type 0
IsBalanced s = total s.calls_by_tier ≡ s.calls_today

pub record Effect (t : Reading) (s s' : RateLimiter) : Type 0 where
  pub config : s'.config ≡ s.config
  pub stamp : (s'.last_call ≡ s.last_call) ⊎ (s'.last_call ≡ pos t.clock)
  pub balanced : IsBalanced s → IsBalanced s'

module _ {t : Reading} where
  pub Effect-refl : (s : RateLimiter) → Effect t s s
  Effect-refl s = record { config = refl; stamp = inl refl; balanced = λ h. h }

  pub Effect-trans : {s s' s'' : RateLimiter} → Effect t s s' → Effect t s' s'' → Effect t s s''
  Effect-trans e f = record {
    config = f.config ∙ e.config;
    stamp = ground (arith, e.stamp, f.stamp);
    balanced = λ h. f.balanced (e.balanced h);
  }

module _ (t : Reading) (s : RateLimiter) where
  pub roll_day-Effect : Effect t s (roll_day t s)
  unfolding roll_day total
  roll_day-Effect = record {
    config = ground arith;
    stamp = ground arith;
    balanced = λ h. ground arith;
  }

  pub refill-Effect : Effect t s (refill t s)
  unfolding refill
  refill-Effect = record { config = refl; stamp = inl refl; balanced = λ h. h }

  pub hold_active-Effect : Effect t s (hold_active t s).0
  unfolding hold_active
  hold_active-Effect = record {
    config = ground arith;
    stamp = ground arith;
    balanced = λ h. ground arith;
  }

  pub mark_throttled-Effect : Effect t s (mark_throttled t s)
  unfolding mark_throttled
  mark_throttled-Effect = record { config = refl; stamp = inl refl; balanced = λ h. h }

  pub charge-Effect : (tier : String) (count : ℕ) → Effect t s (charge t tier count s)
  unfolding charge
  charge-Effect tier count = record {
    config = refl;
    stamp = inr refl;
    balanced = λ h. omega (arith, total-bump tier count s.calls_by_tier);
  }

module _ {t : Reading} {s : RateLimiter} where
  pub Effect-if :
      (b : Bool) (x y : RateLimiter) → Effect t s x → Effect t s y → Effect t s (if b then x else y)
  Effect-if true x y e f = e
  Effect-if false x y e f = f

  pub Effect-if_first :
      {A : Type 0} (b : Bool) (x y : RateLimiter × A)
      → Effect t s x.0
      → Effect t s y.0
      → Effect t s (if b then x else y).0
  Effect-if_first true x y e f = e
  Effect-if_first false x y e f = f

  -- A change of fields that no claim is about.
  pub Effect-same :
      (s' : RateLimiter)
      → s'.config ≡ s.config
      → s'.last_call ≡ s.last_call
      → (IsBalanced s → IsBalanced s')
      → Effect t s s'
  Effect-same s' c l b = record { config = c; stamp = inl l; balanced = b }

module _ (t : Reading) (s : RateLimiter) where
  pub start_hold-Effect :
      (reason : DeferReason) (seconds : ℕ) → Effect t s (start_hold t reason seconds s)
  unfolding start_hold mark_throttled
  start_hold-Effect reason seconds =
      let e = hold_active-Effect t s in
      record {
        config = ground (arith, e.config);
        stamp = ground (arith, e.stamp);
        balanced = λ h. ground (arith, e.balanced h);
      }

  pub clear_unless_capped-Effect : Effect t s (clear_unless_capped s)
  unfolding clear_unless_capped
  clear_unless_capped-Effect = record {
    config = ground arith;
    stamp = ground arith;
    balanced = λ h. ground arith;
  }

  pub end_backoff-Effect : Effect t s (end_backoff s)
  unfolding end_backoff
  end_backoff-Effect = record {
    config = ground arith;
    stamp = ground arith;
    balanced = λ h. ground arith;
  }

  pub prune_failed_logins-Effect : Effect t s (prune_failed_logins t s)
  unfolding prune_failed_logins
  prune_failed_logins-Effect = record { config = refl; stamp = inl refl; balanced = λ h. h }

  pub reset_after_reauth-Effect : Effect t s (reset_after_reauth s)
  unfolding reset_after_reauth
  reset_after_reauth-Effect = record { config = refl; stamp = inl refl; balanced = λ h. h }

  pub check_wait-Effect : (cost : ℕ) → Effect t s (check_wait t cost s).0
  unfolding check_wait layers_wait mark_throttled refill
  check_wait-Effect cost = record {
    config = ground arith;
    stamp = ground arith;
    balanced = λ h. ground arith;
  }

  pub record_requests-Effect :
      (tier : String) (count : ℕ) → Effect t s (record_requests t tier count s)
  unfolding record_requests
  record_requests-Effect tier count = Effect-trans (roll_day-Effect t s) (
      Effect-trans (refill-Effect t (roll_day t s))
        (charge-Effect t (refill t (roll_day t s)) tier count))

module _ (t : Reading) (s : RateLimiter) where
  pub maybe_clear_throttled-Effect : Effect t s (maybe_clear_throttled t s)
  unfolding maybe_clear_throttled
  maybe_clear_throttled-Effect =
      let (s', active) = hold_active t s in
      Effect-trans (hold_active-Effect t s) (
        Effect-if active s' (clear_unless_capped (roll_day t s')) (Effect-refl s')
          (Effect-trans (roll_day-Effect t s') (clear_unless_capped-Effect t (roll_day t s'))))
