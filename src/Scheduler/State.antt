-- ===== src/Scheduler/State.antt =====
-- custom_components/carnet_scolaire/scheduler.py: plans, the bookkeeping of a tier, and the scheduler.
-- A dictionary keyed by tiers is a function; no result depends on the order of its entries.
use mathlib.Core.Option
use ha_pronote_ng.Prelude.{ℕ, ◌*◌, Bool, true, false, Option, none, some, some_or, if◌then◌else◌}
use ha_pronote_ng.Const.{minute, Tier, same_tier, Priority, tier_priority, default_interval}

pub record TierPlan : Type 0 where
  pub interval_minutes : ℕ
  pub priority : Priority
  pub enabled : Bool

-- `interval_seconds`
abbrev pub interval : TierPlan → ℕ
interval plan = plan.interval_minutes * minute

pub record TierState : Type 0 where
  pub last_collected : Option ℕ
  pub not_before : ℕ
  pub boosted : Bool
  pub boost_served_at : Option ℕ
  pub boost_served_wall : Option ℕ
  pub deferrals : ℕ
  pub failures : ℕ
  pub last_collected_at : Option ℕ

-- `TierState()`
abbrev pub fresh : TierState
fresh = record {
  last_collected = none;
  not_before = 0;
  boosted = false;
  boost_served_at = none;
  boost_served_wall = none;
  deferrals = 0;
  failures = 0;
  last_collected_at = none;
}

-- What a method reads of the two clocks; `wall` is `none` where no wall clock was given.
pub record Instant : Type 0 where
  pub clock : ℕ
  pub wall : Option ℕ

pub record FetchScheduler : Type 0 where
  pub plans : Tier → Option TierPlan
  pub states : Tier → Option TierState

-- `d[tier] = value`
abbrev pub put : {A : Type 0} → Tier → A → (Tier → Option A) → Tier → Option A
put tier a d other = if same_tier tier other then some a else d other

-- `default_plans`
unfoldable pub default_plans : (Tier → Option ℕ) → (Tier → Option Bool) → Tier → Option TierPlan
default_plans intervals enabled tier =
    Option.map
      (λ minutes. record {
        interval_minutes = some_or (intervals tier) minutes;
        priority = tier_priority tier;
        enabled = some_or (enabled tier) true;
      })
      (default_interval tier)

-- `FetchScheduler.__init__`
unfoldable pub init : (Tier → Option TierPlan) → FetchScheduler
init plans = record { plans = plans; states = λ tier. Option.map (λ plan. fresh) (plans tier) }

-- What `reconfigure` leaves of a tier's state.
abbrev pub restate : Option TierPlan → Option TierState → Option TierState
restate none state = none
restate (some plan) state = some (some_or state fresh)

-- `reconfigure`
unfoldable pub reconfigure : (Tier → Option TierPlan) → FetchScheduler → FetchScheduler
reconfigure plans s = record {
  plans = plans;
  states = λ tier. restate (plans tier) (s.states tier);
}

abbrev pub set_plan :
    Tier → Option TierPlan → (TierPlan → TierPlan) → FetchScheduler → FetchScheduler
set_plan tier none change s = s
set_plan tier (some plan) change s = record s { plans = put tier (change plan) s.plans }

-- `set_interval`
unfoldable pub set_interval : Tier → ℕ → FetchScheduler → FetchScheduler
set_interval tier minutes s =
    set_plan tier (s.plans tier) (λ plan. record plan { interval_minutes = minutes }) s

-- `set_enabled`
unfoldable pub set_enabled : Tier → Bool → FetchScheduler → FetchScheduler
set_enabled tier on s = set_plan tier (s.plans tier) (λ plan. record plan { enabled = on }) s
