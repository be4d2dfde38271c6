-- ===== src/EdLimiter/LoginCap.antt =====
-- custom_components/carnet_scolaire/connectors/ecoledirecte/ed_limiter.py: what an admitted login leaves.
use ha_pronote_ng.Prelude.{ℕ, ◌+◌, ◌≡◌, ℕ, ◌+◌, ◌≤◌, ◌≡◌}
use ha_pronote_ng.EdLimiter.State.{EdRateLimiter}
use ha_pronote_ng.EdLimiter.Waiting.{Waiting}

-- No step of an admission adds to the logins of the day.
abbrev FewerLogins : EdRateLimiter → EdRateLimiter → Type 0
FewerLogins s s' = (s'.config ≡ s.config) × (s'.logins_today ≤ s.logins_today)

-- The logins of the day and those that will be counted stay below a bound.
IsBelow : ℕ → ℕ → Waiting → Type 0
IsBelow cap n y =
    (y.limiter.config.max_logins_per_day ≡ cap) × (y.limiter.logins_today + y.passed + 1 ≤ cap + n)
