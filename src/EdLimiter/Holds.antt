-- ===== src/EdLimiter/Holds.antt =====
-- custom_components/carnet_scolaire/connectors/ecoledirecte/ed_limiter.py: what failures make of a hold.
use ha_pronote_ng.Limiter.Holds.{jitter}
use ha_pronote_ng.Limiter.HoldLaws.{jitter_bounds}
use ha_pronote_ng.Prelude.{
  ◌^◌, ◌*◌, min, ◌↔◌, refl, false, ℕ, ◌+◌, ◌≡◌, Bool, ◌-◌, ℕ, ◌+◌, ◌-◌, ◌≤◌, suc, ap, ◌∙◌, leb, ◌<◌,
  ◌≡◌, ◌↔◌, Bool, false, some, [], ◌∷◌, ◌++◌, arith, ltb, length, keep,
}
use native.Mathlib.Nat.{pow-le-pow_right, one-le-pow, pow-suc}
use ha_pronote_ng.Const.{hour, Priority}
use ha_pronote_ng.Limiter.State.{backoff, refuse, ticks, credentials_hold, ticks, refuse, Reading}
use ha_pronote_ng.EdLimiter.State.{
  EdRateLimiter, hold_active, hold_remaining, start_hold, prune_failed_logins,
}
use ha_pronote_ng.EdLimiter.Calls.{
  verdict, float_limit, float_of, nominal_delay, note_transport_failure,
}
use ha_pronote_ng.EdLimiter.Logins.{note_bad_credentials}

power_below : (k : ℕ) → k < 1024 → 2 ^ k < float_limit
power_below k h =
    let up : 2 ^ suc k ≤ 2 ^ 1024 = pow-le-pow_right (omega arith) {j = 1024} (omega arith) in
    let twice = pow-suc 2 k in let least = one-le-pow k 2 (omega arith) in omega arith

float_of-few : (k : ℕ) → k < 1024 → float_of (2 ^ k) ≡ some (2 ^ k)
unfolding float_of
float_of-few k h =
    let small : leb float_limit (2 ^ k) ≡ false = ground (arith, power_below k h) in rw small refl

-- The nominal delay once a failure has been counted.
module _ (s : EdRateLimiter) where
  counted : EdRateLimiter
  counted = record s { consecutive_failures = s.consecutive_failures + 1 }

  power_of : 2 ^ (s.consecutive_failures + 1 - 1) ≡ 2 ^ s.consecutive_failures
  power_of = ap (λ (k : ℕ). 2 ^ k) (omega arith)

  few_failures :
      s.consecutive_failures < 1024
      → nominal_delay counted
        ≡ some (min s.config.backoff_max (s.config.backoff_base * 2 ^ s.consecutive_failures))
  unfolding nominal_delay counted
  few_failures few =
      let e = ap float_of power_of ∙ float_of-few s.consecutive_failures few in
      rw (e, nominal_delay) refl

-- The guard on failed logins: after the failure that brings the last hour to the limit, every request
-- of any priority is refused until `credentials_hold` is over.
pub ed_guard_refuses :
    (t t' : Reading) (p : Priority) (cost : ℕ) (s : EdRateLimiter)
    → s.config.max_failed_logins_per_hour
      ≤ length (keep (λ at. ltb t.clock (at + hour)) (s.failed_logins ++ t.clock ∷ []))
    → t'.clock < t.clock + s.config.credentials_hold
    → (verdict t' p cost (note_bad_credentials t s)).1
      ≡ some (refuse (ticks (t.clock + s.config.credentials_hold - t'.clock)) credentials_hold)
unfolding verdict hold_active hold_remaining note_bad_credentials start_hold prune_failed_logins
ed_guard_refuses t t' p cost s full soon = ground arith

-- A transport failure that is not one of the bootstrap, before the 1025th in a row, replaces any hold that
-- runs, a longer one for bad credentials too: the hold for backoff that it leaves ends within one and a
-- half times `backoff_max`.
pub failure_replaces_hold :
    (t : Reading) (r : ℕ) (s : EdRateLimiter)
    → r < 2 ^ 53
    → s.consecutive_failures < 1024
    → (until : ℕ) × ((note_transport_failure t false r s).0.hold_until ≡ some until)
      × ((note_transport_failure t false r s).0.hold_reason ≡ some backoff)
      × (2 * (until - t.clock) ≤ 3 * s.config.backoff_max)
unfolding note_transport_failure start_hold counted
failure_replaces_hold t r s draw few =
    let nominal = min s.config.backoff_max (s.config.backoff_base * 2 ^ s.consecutive_failures) in
    let (lower, upper) = jitter_bounds nominal r draw in
    rw (few_failures s few, note_transport_failure)
      (t.clock + jitter nominal r, refl, refl, omega arith)
