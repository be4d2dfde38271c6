-- ===== src/Scheduler/Outcomes.antt =====
-- custom_components/carnet_scolaire/scheduler.py: what becomes of a tier: collected, deferred, failed,
-- or asked for by a button; and the hand-over across a reload.
use mathlib.Core.Option
use ha_pronote_ng.Prelude.{
  ℕ, ◌+◌, ◌/◌, min, Bool, true, false, not, ◌||◌, Option, none, some, ltb, leb, List, [], ◌∷◌,
  if◌then◌else◌,
}
use ha_pronote_ng.Const.{Tier}
use ha_pronote_ng.Limiter.State.{Delay, ticks, forever, max_delay}
use ha_pronote_ng.Scheduler.State.{TierPlan, interval, TierState, Instant, FetchScheduler, put}

-- The state of a tier once it is collected.
unfoldable pub collected : Instant → TierState → TierState
collected t st = record {
  last_collected = some t.clock;
  not_before = 0;
  boosted = false;
  boost_served_at = if st.boosted then some t.clock else st.boost_served_at;
  boost_served_wall = if st.boosted then t.wall else st.boost_served_wall;
  deferrals = 0;
  failures = 0;
  last_collected_at = t.wall;
}

abbrev pub update_state :
    Tier → (TierState → TierState) → Option TierState → FetchScheduler → FetchScheduler
update_state tier change none s = s
update_state tier change (some st) s = record s { states = put tier (change st) s.states }

-- `mark_collected`
unfoldable pub mark_collected : Instant → Tier → FetchScheduler → FetchScheduler
mark_collected t tier s = update_state tier (collected t) (s.states tier) s

-- `max(0.0, min(retry_after, plan.interval_seconds))`, for a delay that is not negative
unfoldable pub bounded_wait : Delay → TierPlan → ℕ
bounded_wait (ticks n) plan = min n (interval plan)
bounded_wait forever plan = interval plan

-- The state of a tier once it is deferred.
unfoldable pub deferred : Instant → Delay → TierPlan → TierState → TierState
deferred t retry_after plan st = record st {
  not_before = t.clock + bounded_wait retry_after plan;
  boosted = false;
  deferrals = st.deferrals + 1;
}

abbrev pub defer_planned :
    Instant → Tier → Delay → Option TierPlan → FetchScheduler → FetchScheduler
defer_planned t tier retry_after none s = s
defer_planned t tier retry_after (some plan) s =
    update_state tier (deferred t retry_after plan) (s.states tier) s

-- `defer`
unfoldable pub defer : Instant → Tier → Delay → FetchScheduler → FetchScheduler
defer t tier retry_after s = defer_planned t tier retry_after (s.plans tier) s

-- `_RETRIES_PER_INTERVAL`
abbrev pub retries_per_interval : ℕ
retries_per_interval = 4

-- The delay that `mark_failed` hands to `defer`.
unfoldable pub floored : Option TierPlan → Delay → Delay
floored none retry_after = retry_after
floored (some plan) retry_after = max_delay (interval plan / retries_per_interval) retry_after

-- `mark_failed`
unfoldable pub mark_failed : Instant → Tier → Delay → FetchScheduler → FetchScheduler
mark_failed t tier retry_after s =
    defer t tier (floored (s.plans tier) retry_after)
      (update_state tier (λ st. record st { failures = st.failures + 1 }) (s.states tier) s)

-- `now - state.boost_served_at < plan.interval_seconds`, if a boost was served
abbrev pub boost_spent : Instant → TierPlan → TierState → Bool
boost_spent t plan st = elim st.boost_served_at [
  | none ↦ false
  | some at ↦ ltb t.clock (at + interval plan)
]

-- What a press does to one tier.
unfoldable pub press : Instant → TierPlan → TierState → TierState
press t plan st =
    if not plan.enabled || boost_spent t plan st
    then st
    else record st { boosted = true; not_before = 0 }

abbrev pub press_planned : Instant → Tier → Option TierPlan → FetchScheduler → FetchScheduler
press_planned t tier none s = s
press_planned t tier (some plan) s = update_state tier (press t plan) (s.states tier) s

-- The loop of `request`, over the tiers that are asked for
unfoldable pub request : Instant → List Tier → FetchScheduler → FetchScheduler
request t [] s = s
request t (tier ∷ tiers) s = request t tiers (press_planned t tier (s.plans tier) s)

-- `export_state`
unfoldable pub export_state : FetchScheduler → Tier → Option ℕ
export_state s tier = Option.bind (s.states tier) (λ st. st.last_collected)

-- What `import_state` makes of one tier.
unfoldable pub restore : Instant → Option ℕ → TierState → TierState
restore t none st = st
restore t (some value) st =
    if leb value t.clock then record st { last_collected = some value } else st

-- `import_state`
unfoldable pub import_state : Instant → (Tier → Option ℕ) → FetchScheduler → FetchScheduler
import_state t saved s = record s {
  states = λ tier. Option.map (restore t (saved tier)) (s.states tier);
}
