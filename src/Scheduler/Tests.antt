-- ===== src/Scheduler/Tests.antt =====
-- custom_components/carnet_scolaire/scheduler.py: concrete runs of the scheduler.
use ha_pronote_ng.Prelude.{ℕ, ◌+◌, ◌*◌, ◌≤◌, ◌≡◌, refl, ◌↔◌, inr, true, none, some, [], ◌∷◌, arith}
use ha_pronote_ng.Const.{same_tier, name_order, normal, minute, hour, news}
use ha_pronote_ng.Limiter.State.{max_delay, ticks, forever}
use ha_pronote_ng.Scheduler.State.{
  TierPlan, interval, TierState, fresh, Instant, FetchScheduler, put,
}
use ha_pronote_ng.Scheduler.Due.{due}
use ha_pronote_ng.Scheduler.Outcomes.{
  mark_collected, defer, mark_failed, bounded_wait, deferred, floored,
}
use ha_pronote_ng.Scheduler.Order.{In}
use ha_pronote_ng.Scheduler.Membership.{IsDue, In-due}
use ha_pronote_ng.Scheduler.Deadlines.{collected-IsDue_iff, deferred-IsDue_iff}
use ha_pronote_ng.Scheduler.Presses.{press_all, press_all-refused}

abbrev at : ℕ → Instant
at clock = record { clock = clock; wall = some clock }

abbrev planned : TierPlan
planned = record { interval_minutes = 60; priority = normal; enabled = true }

-- One tier, news, with a state of its own.
abbrev only : TierState → FetchScheduler
only st = record { plans = put news planned (λ tier. none); states = put news st (λ tier. none) }

abbrev mornings : TierState
mornings = record fresh { last_collected = some (7 * hour); deferrals = 2 }

In-due_example : In news (due (at 5) (only fresh)) ↔ IsDue (at 5) (only fresh) news
In-due_example = In-due (at 5) (only fresh) news

collected-IsDue_iff_example :
    IsDue (at (10 * hour)) (mark_collected (at (9 * hour)) news (only mornings)) news
    ↔ (9 * hour + interval planned ≤ 10 * hour)
unfolding same_tier name_order
collected-IsDue_iff_example =
    collected-IsDue_iff (at (9 * hour)) (at (10 * hour)) news (only mornings) planned mornings refl
      refl refl

mornings-IsDue : IsDue (at (9 * hour)) (only mornings) news
unfolding same_tier name_order
mornings-IsDue = record {
  plan = planned;
  state = mornings;
  planned = refl;
  known = refl;
  enabled = refl;
  ready = ground arith;
  wanted = inr (inr (7 * hour, refl, ground arith));
}

deferred-IsDue_iff_example :
    (IsDue (at (10 * hour)) (defer (at (9 * hour)) news forever (only mornings)) news
      ↔ (9 * hour + bounded_wait forever planned ≤ 10 * hour))
    × (bounded_wait forever planned ≤ interval planned)
unfolding same_tier name_order
deferred-IsDue_iff_example =
    deferred-IsDue_iff (at (9 * hour)) (at (10 * hour)) news forever (only mornings) planned
      mornings refl refl refl mornings-IsDue

failed-IsDue :
    IsDue (at (10 * hour)) (mark_failed (at (9 * hour)) news (ticks 5) (only mornings)) news
unfolding same_tier name_order mark_failed defer deferred floored bounded_wait max_delay
failed-IsDue = record {
  plan = planned;
  state = record mornings { not_before = 9 * hour + 15 * minute; deferrals = 3; failures = 1 };
  planned = refl;
  known = refl;
  enabled = refl;
  ready = ground arith;
  wanted = inr (inr (7 * hour, refl, ground arith));
}

abbrev served : TierState
served = record mornings { boost_served_at = some (7 * hour) }

press_all-refused_example :
    (press_all
        ((at (7 * hour + minute), news ∷ []) ∷ (at (7 * hour + 2 * minute), news ∷ []) ∷ [])
        (only served)).states
      news
    ≡ some served
unfolding same_tier name_order
press_all-refused_example =
    press_all-refused
      ((at (7 * hour + minute), news ∷ []) ∷ (at (7 * hour + 2 * minute), news ∷ []) ∷ []) news
      planned served (7 * hour) (only served) refl refl refl (ground arith, (ground arith, tt))
