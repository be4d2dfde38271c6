-- ===== src/Tiers/Tests.antt =====
-- custom_components/carnet_scolaire/tiers.py: concrete priorities.
use ha_pronote_ng.Prelude.{ℕ, ◌≡◌, refl, true, false, some, none}
use ha_pronote_ng.Const.{news, normal, tier_priority}
use ha_pronote_ng.Limiter.State.{ticks, forever}
use ha_pronote_ng.Scheduler.State.{TierPlan, fresh, Instant, FetchScheduler}
use ha_pronote_ng.Scheduler.Outcomes.{mark_failed}
use ha_pronote_ng.Tiers.{priority_for, three_failures}

abbrev at : ℕ → Instant
at clock = record { clock = clock; wall = none }

abbrev plan : TierPlan
plan = record { interval_minutes = 60; priority = normal; enabled = true }

abbrev installed : FetchScheduler
installed = record { plans = λ tier. some plan; states = λ tier. some fresh }

three_failures_example :
    priority_for false news (
      mark_failed
        (at 300)
        news
        (ticks 9)
        (mark_failed (at 200) news forever (mark_failed (at 100) news (ticks 7) installed)))
    ≡ tier_priority news
three_failures_example =
    three_failures (at 100) (at 200) (at 300) (ticks 7) forever (ticks 9) false news installed plan
      fresh refl refl
