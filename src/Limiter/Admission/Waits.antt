-- ===== src/Limiter/Admission/Waits.antt =====
-- custom_components/carnet_scolaire/ratelimit.py: the wait of an admitted request and the spacing
-- interval.
use ha_pronote_ng.Limiter.Quiet.{in_quiet_hours, batch_may_finish}
use ha_pronote_ng.Prelude.{
  subst, ℕ, ◌+◌, ◌≡◌, refl, Bool, true, false, not, ◌&&◌, arith, leb, length, if◌then◌else◌,
}
use ha_pronote_ng.Prelude.Int.{ℤ, pos, ◌+ℤ◌, ◌≤ℤ◌, int_laws}
use ha_pronote_ng.Const.{quiet_hours_exempt, Priority}
use ha_pronote_ng.Limiter.State.{
  RateLimitConfig, cap_warning_fraction, RateLimiter, Reading, Verdict, Delay, ticks, forever,
  max_delay,
}
use ha_pronote_ng.Limiter.Layers.{reaches, cap_fraction, roll_day, refill, spacing_wait, token_wait}
use ha_pronote_ng.Limiter.Holds.{hold_active}
use ha_pronote_ng.Limiter.Calls.{sheds, layers_wait, check_wait, check_cap, check}
use ha_pronote_ng.Limiter.Logins.{
  prune_failed_logins, admit_login, may_login_today, may_login_unheld, may_login,
}
use ha_pronote_ng.Limiter.Admission.{Request, call, login, decide}

-- The end of the spacing interval that runs in a state is at most an instant.
abbrev pub SpacedBy : RateLimiter → ℕ → Type 0
SpacedBy s at = pos s.config.min_request_interval +ℤ s.last_call ≤ℤ pos at

-- An admission in state `s` comes with a wait, if a finite one, that spaces it.
pub record Waits (t : Reading) (s : RateLimiter) (v : Verdict) : Type 0 where
  pub spaced : v.allowed ≡ true → (w : ℕ) → v.wait ≡ ticks w → SpacedBy s (t.clock + w)

ticks-injective : (a b : ℕ) → ticks a ≡ ticks b → a ≡ b
ticks-injective a b h = cc

spacing_of_max :
    (t : Reading) (s : RateLimiter) (d : Delay) (w : ℕ)
    → max_delay (spacing_wait t s) d ≡ ticks w
    → SpacedBy s (t.clock + w)
unfolding max_delay spacing_wait
spacing_of_max t s (ticks b) w h = omega (int_laws, ticks-injective _ w h)
spacing_of_max t s forever w h = cc

-- Steps that change neither the configuration nor the stamp of the last call.
abbrev SameStamp : RateLimiter → RateLimiter → Type 0
SameStamp s s' = (s'.config ≡ s.config) × (s'.last_call ≡ s.last_call)

module _ (t : Reading) (s : RateLimiter) where
  roll_day-SameStamp : SameStamp s (roll_day t s)
  unfolding roll_day
  roll_day-SameStamp = ground arith

  hold_active-SameStamp : SameStamp s (hold_active t s).0
  unfolding hold_active
  hold_active-SameStamp = ground arith

  prune_failed_logins-SameStamp : SameStamp s (prune_failed_logins t s)
  unfolding prune_failed_logins
  prune_failed_logins-SameStamp = (refl, refl)

  check_wait-Waits : (cost : ℕ) → Waits t s (check_wait t cost s).1
  unfolding check_wait layers_wait
  check_wait-Waits cost = record {
    spaced = λ a w h. spacing_of_max t s (token_wait cost (refill t s)) w (ground arith);
  }

  admit_login-Waits : (cost : ℕ) → Waits t s (admit_login t cost s).1
  unfolding admit_login layers_wait
  admit_login-Waits cost = record {
    spaced = λ a w h. spacing_of_max t s (token_wait cost (refill t s)) w h;
  }

module _ {t : Reading} {s : RateLimiter} where
  Waits-same : (s' : RateLimiter) (v : Verdict) → SameStamp s s' → Waits t s' v → Waits t s v
  Waits-same s' v (c, l) f = record {
    spaced = λ a w h.
        subst
          (λ (k : RateLimitConfig). pos k.min_request_interval +ℤ s.last_call ≤ℤ pos (t.clock + w))
          c
          (subst (λ (x : ℤ). pos s'.config.min_request_interval +ℤ x ≤ℤ pos (t.clock + w)) l
            (f.spaced a w h));
  }

  -- A refusal asks nothing.
  Waits-if :
      (b : Bool) (x y : RateLimiter × Verdict)
      → x.1.allowed ≡ false
      → Waits t s y.1
      → Waits t s (if b then x else y).1
  Waits-if true x y e f = record { spaced = λ a w h. cc }
  Waits-if false x y e f = f

module _ (t : Reading) (s : RateLimiter) where
  check_cap-Waits : (priority : Priority) (cost : ℕ) → Waits t s (check_cap t priority cost s).1
  unfolding check_cap
  check_cap-Waits priority cost =
      let s' = record s {
        cap_warning_open =
            if reaches (cap_fraction s) cap_warning_fraction then true else s.cap_warning_open;
      } in
      Waits-if (sheds priority s') _ _ refl
        (Waits-same s' _ (refl, refl) (check_wait-Waits t s' cost))

  may_login_today-Waits : (cost : ℕ) → Waits t s (may_login_today t cost s).1
  unfolding may_login_today
  may_login_today-Waits cost =
      Waits-if (leb s.config.max_logins_per_day s.logins_today) _ _ refl
        (admit_login-Waits t s cost)

module _ (t : Reading) (s : RateLimiter) where
  check-Waits : (priority : Priority) (cost : ℕ) → Waits t s (check t priority cost s).1
  unfolding check
  check-Waits priority cost =
      let (s', held) = hold_active t s in
      Waits-if held _ _ refl (
        Waits-if
          (not (quiet_hours_exempt priority) && in_quiet_hours t s' && not (batch_may_finish t s'))
          _ _ refl
          (Waits-same s' _ (hold_active-SameStamp t s) (
            Waits-same (roll_day t s') _ (roll_day-SameStamp t s')
              (check_cap-Waits t (roll_day t s') priority cost))))

  may_login_unheld-Waits : (cost : ℕ) → Waits t s (may_login_unheld t cost s).1
  unfolding may_login_unheld
  may_login_unheld-Waits cost =
      let s' = prune_failed_logins t s in
      Waits-if (leb s'.config.max_failed_logins_per_hour (length s'.failed_logins)) _ _ refl (
        Waits-same s' _ (prune_failed_logins-SameStamp t s) (
          Waits-same (roll_day t s') _ (roll_day-SameStamp t s')
            (may_login_today-Waits t (roll_day t s') cost)))

module _ (t : Reading) (s : RateLimiter) where
  may_login-Waits : (cost : ℕ) → Waits t s (may_login t cost s).1
  unfolding may_login
  may_login-Waits cost =
      let (s', held) = hold_active t s in
      Waits-if held _ _ refl
        (Waits-same s' _ (hold_active-SameStamp t s) (may_login_unheld-Waits t s' cost))

module _ (t : Reading) (s : RateLimiter) where
  pub decide-Waits : (q : Request) → Waits t s (decide t q s).1
  unfolding decide
  decide-Waits (call tier priority cost) = check-Waits t s priority cost
  decide-Waits (login cost) = may_login-Waits t s cost
