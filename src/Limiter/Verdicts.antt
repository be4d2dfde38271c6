-- ===== src/Limiter/Verdicts.antt =====
-- custom_components/carnet_scolaire/ratelimit.py: which calls `check` admits.
use mathlib.Core.Path.{ap₂}
use ha_pronote_ng.Prelude.{
  ◌||◌, ℕ, ◌*◌, ◌≤◌, ◌<◌, ◌≡◌, ◌⊎◌, ◌↔◌, refl, true, false, not, ◌&&◌, Option, none, some, arith,
  if◌then◌else◌,
}
use ha_pronote_ng.Const.{Priority, critical, priority_rank, quiet_hours_exempt}
use ha_pronote_ng.Limiter.State.{
  RateLimitConfig, cap_warning_fraction, RateLimiter, Reading, exceeds, hourly_budget,
  shed_threshold,
}
use ha_pronote_ng.Limiter.Layers.{roll_day, cap_fraction, reaches, refill, token_wait, spacing_wait}
use ha_pronote_ng.Limiter.Quiet.{in_quiet_hours, batch_may_finish}
use ha_pronote_ng.Limiter.Holds.{hold_runs, hold_active}
use ha_pronote_ng.Limiter.Calls.{sheds, layers_wait, check_wait, check_cap, check}

-- The lower a priority, the earlier it is shed.
sheds_mono :
    (p q : Priority) (s : RateLimiter)
    → priority_rank p ≤ priority_rank q
    → sheds p s ≡ true
    → sheds q s ≡ true
unfolding sheds shed_threshold reaches priority_rank
sheds_mono p q s le h = ground arith

-- Without a running hold, a critical call is refused for its wait alone: neither quiet hours nor the
-- daily cap turn it away.
pub check-critical :
    (t : Reading) (cost : ℕ) (s : RateLimiter)
    → s.hold_until ≡ none
    → (check t critical cost s).1.allowed ≡ false
    → (check t critical cost s).1.reason ≡ some hourly_budget
unfolding check check_cap check_wait hold_active quiet_hours_exempt sheds shed_threshold
check-critical t cost s free h = ground arith

check_cap_mono :
    (t : Reading) (p q : Priority) (cost : ℕ) (s : RateLimiter)
    → priority_rank p ≤ priority_rank q
    → (check_cap t q cost s).1.allowed ≡ true
    → (check_cap t p cost s).1.allowed ≡ true
unfolding check_cap
check_cap_mono t p q cost s le h =
    let s' = record s {
      cap_warning_open =
          if reaches (cap_fraction s) cap_warning_fraction then true else s.cap_warning_open;
    } in
    ground (arith, sheds_mono p q s' le)

-- The order of sacrifice: what admits a call of one priority admits, in the same state and for the
-- same cost, a call of every priority that ranks no lower and is exempt from quiet hours where the
-- other is.
pub check_mono :
    (t : Reading) (p q : Priority) (cost : ℕ) (s : RateLimiter)
    → priority_rank p ≤ priority_rank q
    → (quiet_hours_exempt q ≡ true → quiet_hours_exempt p ≡ true)
    → (check t q cost s).1.allowed ≡ true
    → (check t p cost s).1.allowed ≡ true
unfolding check
check_mono t p q cost s le exempt h =
    ground (arith, check_cap_mono t p q cost (roll_day t (hold_active t s).0) le)

-- The requests of a day are below the share of the cap that a threshold allows.
abbrev pub BelowShare : Option ℕ → ℕ → ℕ → Type 0
BelowShare none calls cap = Unit
BelowShare (some threshold) calls cap = 10 * calls < threshold * cap

-- What a call has to pass: no hold runs; quiet hours are off, exempt the priority, or let a batch
-- finish; the requests of the day are below the share of the cap that the priority may use; and the
-- wait is at most `max_wait`.
pub record Passes (t : Reading) (p : Priority) (cost : ℕ) (s : RateLimiter) : Type 0 where
  pub unheld : hold_runs t.clock s.hold_until ≡ false
  pub awake :
      (quiet_hours_exempt p ≡ true) ⊎ (in_quiet_hours t s ≡ false) ⊎ (batch_may_finish t s ≡ true)
  pub within :
      BelowShare (shed_threshold p) (roll_day t s).calls_today s.config.max_requests_per_day
  pub patient : exceeds (layers_wait t cost s).1 s.config.max_wait ≡ false

not-sheds :
    (p : Priority) (s : RateLimiter)
    → sheds p s ≡ false
    → BelowShare (shed_threshold p) s.calls_today s.config.max_requests_per_day
unfolding sheds reaches cap_fraction shed_threshold
not-sheds critical s h = tt
not-sheds _ s h = ground arith

not-sheds_of_below :
    (p : Priority) (s : RateLimiter)
    → BelowShare (shed_threshold p) s.calls_today s.config.max_requests_per_day
    → sheds p s ≡ false
unfolding sheds reaches cap_fraction shed_threshold
not-sheds_of_below critical s h = refl
not-sheds_of_below _ s h = ground arith

-- The state in which `check` comes to the daily cap, and what of it matters from there on.
abbrev at_cap : Reading → RateLimiter → RateLimiter
at_cap t s = roll_day t (hold_active t s).0

module _ (t : Reading) (s : RateLimiter) where
  at_cap-same :
      ((at_cap t s).calls_today ≡ (roll_day t s).calls_today) × ((at_cap t s).config ≡ s.config)
  unfolding roll_day hold_active
  at_cap-same = ground arith

  layers_wait-at_cap : (cost : ℕ) → (layers_wait t cost (at_cap t s)).1 ≡ (layers_wait t cost s).1
  unfolding roll_day hold_active layers_wait spacing_wait refill token_wait
  layers_wait-at_cap cost = ground arith

  check_cap-allowed :
      (p : Priority) (cost : ℕ)
      → (check_cap t p cost s).1.allowed
        ≡ (not (sheds p s) && not (exceeds (layers_wait t cost s).1 s.config.max_wait))
  unfolding check_cap check_wait layers_wait spacing_wait refill token_wait sheds cap_fraction
  check_cap-allowed p cost = ground arith

module _ (t : Reading) (p : Priority) (cost : ℕ) (s : RateLimiter) where
  check-allowed : (check t p cost s).1.allowed ≡ (
      not (hold_runs t.clock s.hold_until)
      && (quiet_hours_exempt p || not (in_quiet_hours t s) || batch_may_finish t s)
      && (check_cap t p cost (at_cap t s)).1.allowed)
  unfolding check hold_active in_quiet_hours batch_may_finish
  check-allowed = ground arith

module _ (t : Reading) (p : Priority) (cost : ℕ) (s : RateLimiter) where
  -- The tests of `check` in a row.
  check-tests : (check t p cost s).1.allowed ≡ (
      not (hold_runs t.clock s.hold_until)
      && (quiet_hours_exempt p || not (in_quiet_hours t s) || batch_may_finish t s)
      && (not (sheds p (at_cap t s)) && not (exceeds (layers_wait t cost s).1 s.config.max_wait)))
  check-tests = ground (
    arith,
    check-allowed t p cost s,
    check_cap-allowed t (at_cap t s) p cost,
    layers_wait-at_cap t s cost,
    at_cap-same t s,
  )

  below-at_cap :
      BelowShare
        (shed_threshold p)
        (at_cap t s).calls_today
        (at_cap t s).config.max_requests_per_day
      ≡ BelowShare (shed_threshold p) (roll_day t s).calls_today s.config.max_requests_per_day
  below-at_cap =
      ap₂ (λ (n : ℕ) (c : RateLimitConfig). BelowShare (shed_threshold p) n c.max_requests_per_day)
        (at_cap-same t s).0 (at_cap-same t s).1

module _ (t : Reading) (p : Priority) (cost : ℕ) (s : RateLimiter) where
  check-Passes : (check t p cost s).1.allowed ≡ true → Passes t p cost s
  check-Passes h =
      let tests = check-tests t p cost s in
      record {
        unheld = ground arith;
        awake = ground arith;
        within = rw (← below-at_cap t p cost s) (not-sheds p (at_cap t s) (ground arith));
        patient = ground arith;
      }

  Passes-check : Passes t p cost s → (check t p cost s).1.allowed ≡ true
  Passes-check h =
      let unshed = not-sheds_of_below p (at_cap t s) (rw (below-at_cap t p cost s) h.within) in
      ground (arith, check-tests t p cost s)

-- `check` admits a call exactly when it passes: no hold runs; quiet hours are off, or exempt its
-- priority, or let a batch finish; the requests of the day are below the share of the daily cap that
-- its priority may use; and the wait that spacing and the bucket ask is at most `max_wait`.
pub check-allowed-iff-Passes :
    (t : Reading) (p : Priority) (cost : ℕ) (s : RateLimiter)
    → ((check t p cost s).1.allowed ≡ true) ↔ Passes t p cost s
check-allowed-iff-Passes t p cost s = (check-Passes t p cost s, Passes-check t p cost s)
