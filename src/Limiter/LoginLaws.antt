-- ===== src/Limiter/LoginLaws.antt =====
-- custom_components/carnet_scolaire/ratelimit.py: which logins are admitted, the guard on failed
-- logins, and the counters of the day.
use ha_pronote_ng.Prelude.{
  ℕ, ◌+◌, ◌-◌, ◌≤◌, ◌<◌, ◌≡◌, ◌↔◌, refl, Bool, true, false, not, ◌&&◌, some, List, [], ◌∷◌, ◌++◌,
  arith, ltb, length, keep, All, length-append, lt→ltb,
}
use ha_pronote_ng.Const.{hour}
use ha_pronote_ng.Limiter.State.{
  RateLimiter, Reading, refuse, ticks, credentials_hold, hold_severity,
}
use ha_pronote_ng.Limiter.Layers.{roll_day}
use ha_pronote_ng.Limiter.Holds.{
  hold_runs, hold_active, hold_remaining, start_hold, worse_hold, mark_throttled,
}
use ha_pronote_ng.Limiter.Logins.{
  prune_failed_logins, admit_login, may_login_today, may_login_unheld, may_login,
  note_bad_credentials,
}

-- The failed logins of the hour that ends at a reading.
abbrev pub recent_failures : Reading → RateLimiter → List ℕ
recent_failures t s = keep (λ at. ltb t.clock (at + hour)) s.failed_logins

-- What a login has to pass.
pub record MayLogin (t : Reading) (s : RateLimiter) : Type 0 where
  pub unheld : hold_runs t.clock s.hold_until ≡ false
  pub unguarded : length (recent_failures t s) < s.config.max_failed_logins_per_hour
  pub uncapped : (roll_day t s).logins_today < s.config.max_logins_per_day

module _ (t : Reading) (cost : ℕ) (s : RateLimiter) where
  may_login-tests : (may_login t cost s).1.allowed ≡ (
      not (hold_runs t.clock s.hold_until)
      && (ltb (length (recent_failures t s)) s.config.max_failed_logins_per_hour
          && ltb (roll_day t s).logins_today s.config.max_logins_per_day))
  unfolding may_login may_login_unheld may_login_today admit_login hold_active prune_failed_logins
      roll_day
  may_login-tests = ground arith

module _ (t : Reading) (cost : ℕ) (s : RateLimiter) where
  may_login-MayLogin : (may_login t cost s).1.allowed ≡ true → MayLogin t s
  may_login-MayLogin h =
      let tests = may_login-tests t cost s in
      record { unheld = ground arith; unguarded = ground arith; uncapped = ground arith }

  MayLogin-may_login : MayLogin t s → (may_login t cost s).1.allowed ≡ true
  MayLogin-may_login m = ground (arith, may_login-tests t cost s)

-- A login is admitted exactly when no hold runs, fewer failures than the guard allows lie in the last
-- hour, and fewer logins than the cap were attempted today. No priority and no quiet hour plays a part.
pub may_login-allowed_iff :
    (t : Reading) (cost : ℕ) (s : RateLimiter)
    → ((may_login t cost s).1.allowed ≡ true) ↔ MayLogin t s
may_login-allowed_iff t cost s = (may_login-MayLogin t cost s, MayLogin-may_login t cost s)

keep-append : (p : ℕ → Bool) (xs ys : List ℕ) → keep p (xs ++ ys) ≡ keep p xs ++ keep p ys
keep-append p [] ys = refl
keep-append p (x ∷ xs) ys = ground (arith, keep-append p xs ys)

one_more :
    (t : Reading) (s : RateLimiter)
    → length (keep (λ at. ltb t.clock (at + hour)) (s.failed_logins ++ t.clock ∷ []))
      ≡ length (recent_failures t s) + 1
one_more t s =
    rw (keep-append (λ at. ltb t.clock (at + hour)) s.failed_logins (t.clock ∷ []), length-append)
      (rw (lt→ltb t.clock (t.clock + hour) (omega arith)) (omega arith))

-- No hold is worse than that for bad credentials.
start_hold-worst :
    (t : Reading) (seconds : ℕ) (s : RateLimiter)
    → ((start_hold t credentials_hold seconds s).hold_until ≡ some (t.clock + seconds))
      × ((start_hold t credentials_hold seconds s).hold_reason ≡ some credentials_hold)
unfolding start_hold hold_active worse_hold hold_severity mark_throttled
start_hold-worst t seconds s = ground arith

guard_trips :
    (t : Reading) (s : RateLimiter)
    → s.config.max_failed_logins_per_hour ≤ length (recent_failures t s) + 1
    → ((note_bad_credentials t true s).hold_until ≡ some (t.clock + s.config.credentials_hold))
      × ((note_bad_credentials t true s).hold_reason ≡ some credentials_hold)
unfolding note_bad_credentials prune_failed_logins
guard_trips t s h =
    let s' = prune_failed_logins t (record s { failed_logins = s.failed_logins ++ t.clock ∷ [] }) in
    ground (arith, one_more t s, start_hold-worst t s.config.credentials_hold s')

-- The guard on failed logins: the failure that brings the last hour to the limit stops every login
-- for `credentials_hold`, whatever its cost.
pub guard_refuses :
    (t t' : Reading) (cost : ℕ) (s : RateLimiter)
    → s.config.max_failed_logins_per_hour ≤ length (recent_failures t s) + 1
    → t'.clock < t.clock + s.config.credentials_hold
    → (may_login t' cost (note_bad_credentials t true s)).1
      ≡ refuse (ticks (t.clock + s.config.credentials_hold - t'.clock)) credentials_hold
unfolding may_login hold_active hold_remaining
guard_refuses t t' cost s full soon = let (until, reason) = guard_trips t s full in ground arith

none_recent :
    (t : Reading) (failures : List ℕ)
    → All (λ at. at + hour ≤ t.clock) failures
    → length (keep (λ at. ltb t.clock (at + hour)) failures) ≡ 0
none_recent t [] old = refl
none_recent t (at ∷ failures) old = ground (arith, none_recent t failures old.1)

-- The guard does not restart itself: at a reading at which no hold runs and every failed login is an
-- hour old or older, the guard turns no login away, only the cap of the day may.
pub guard_lets_go :
    (t : Reading) (cost : ℕ) (s : RateLimiter)
    → hold_runs t.clock s.hold_until ≡ false
    → All (λ at. at + hour ≤ t.clock) s.failed_logins
    → 0 < s.config.max_failed_logins_per_hour
    → (roll_day t s).logins_today < s.config.max_logins_per_day
    → (may_login t cost s).1.allowed ≡ true
guard_lets_go t cost s free old guarded uncapped =
    let none_left = none_recent t s.failed_logins old in
    MayLogin-may_login t cost s
      (record { unheld = free; unguarded = rw none_left guarded; uncapped = uncapped })
