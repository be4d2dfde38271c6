-- ===== src/Scheduler/Keys.antt =====
-- custom_components/carnet_scolaire/scheduler.py: the keys of the plans and of the states, which `due`,
-- `next_due_in` and `diagnostics` look up.
use ha_pronote_ng.Prelude.{
  ◌+◌, ℕ, ◌≡◌, refl, sym, ap, ◌∙◌, inl, inr, Bool, Option, none, some, List, [], ◌∷◌, arith,
  is_some, Bool-cases,
}
use ha_pronote_ng.Const.{Tier, same_tier}
use ha_pronote_ng.Limiter.State.{Delay}
use ha_pronote_ng.Scheduler.State.{
  TierPlan, TierState, Instant, FetchScheduler, put, init, reconfigure, set_interval, set_enabled,
  set_plan,
}
use ha_pronote_ng.Scheduler.Outcomes.{
  mark_collected, collected, update_state, defer, defer_planned, deferred, floored, mark_failed,
  press, press_planned, request, import_state,
}
use ha_pronote_ng.Scheduler.Presses.{same_tier-eq}

-- Every tier with a plan has a state, and no other.
pub record SameKeys (s : FetchScheduler) : Type 0 where
  pub at : (tier : Tier) → is_some (s.plans tier) ≡ is_some (s.states tier)

-- A write under a key that is there adds none.
put-keys :
    {A : Type 0} (tier x : Tier) (a b : A) (d : Tier → Option A)
    → d tier ≡ some b
    → is_some (put tier a d x) ≡ is_some (d x)
put-keys {A} tier x a b d known = elim (Bool-cases (same_tier tier x)) [
  | inl same ↦
      rw same
        (sym (ap (λ (o : Option A). is_some o) (sym (ap d (same_tier-eq tier x same)) ∙ known)))
  | inr other ↦ rw other refl
]

update_state-SameKeys :
    (tier : Tier) (change : TierState → TierState) (o : Option TierState) (s : FetchScheduler)
    → s.states tier ≡ o
    → SameKeys s
    → SameKeys (update_state tier change o s)
update_state-SameKeys tier change none s known k = k
update_state-SameKeys tier change (some st) s known k = record {
  at = λ x. k.at x ∙ sym (put-keys tier x (change st) st s.states known);
}

set_plan-SameKeys :
    (tier : Tier) (o : Option TierPlan) (change : TierPlan → TierPlan) (s : FetchScheduler)
    → s.plans tier ≡ o
    → SameKeys s
    → SameKeys (set_plan tier o change s)
set_plan-SameKeys tier none change s planned k = k
set_plan-SameKeys tier (some plan) change s planned k = record {
  at = λ x. put-keys tier x (change plan) plan s.plans planned ∙ k.at x;
}

init-SameKeys : (plans : Tier → Option TierPlan) → SameKeys (init plans)
unfolding init
init-SameKeys plans = record { at = λ tier. ground arith }

reconfigure-SameKeys :
    (plans : Tier → Option TierPlan) (s : FetchScheduler) → SameKeys (reconfigure plans s)
unfolding reconfigure
reconfigure-SameKeys plans s = record { at = λ tier. ground arith }

defer-SameKeys :
    (t : Instant) (tier : Tier) (r : Delay) (o : Option TierPlan) (s : FetchScheduler)
    → SameKeys s
    → SameKeys (defer_planned t tier r o s)
defer-SameKeys t tier r none s k = k
defer-SameKeys t tier r (some plan) s k =
    update_state-SameKeys tier (deferred t r plan) (s.states tier) s refl k

press-SameKeys :
    (t : Instant) (tier : Tier) (o : Option TierPlan) (s : FetchScheduler)
    → SameKeys s
    → SameKeys (press_planned t tier o s)
press-SameKeys t tier none s k = k
press-SameKeys t tier (some plan) s k =
    update_state-SameKeys tier (press t plan) (s.states tier) s refl k

request-SameKeys :
    (t : Instant) (tiers : List Tier) (s : FetchScheduler)
    → SameKeys s
    → SameKeys (request t tiers s)
unfolding request
request-SameKeys t [] s k = k
request-SameKeys t (tier ∷ tiers) s k =
    request-SameKeys t tiers (press_planned t tier (s.plans tier) s)
      (press-SameKeys t tier (s.plans tier) s k)

import_state-SameKeys :
    (t : Instant) (saved : Tier → Option ℕ) (s : FetchScheduler)
    → SameKeys s
    → SameKeys (import_state t saved s)
unfolding import_state
import_state-SameKeys t saved s k = record { at = λ tier. ground (arith, k.at tier) }

-- The calls that change a scheduler.
pub data Operation : Type 0 where
  reconfigured : (Tier → Option TierPlan) → Operation
  interval_set : Tier → ℕ → Operation
  enabled_set : Tier → Bool → Operation
  was_collected : Instant → Tier → Operation
  was_deferred was_failed : Instant → Tier → Delay → Operation
  requested : Instant → List Tier → Operation
  imported : Instant → (Tier → Option ℕ) → Operation

unfoldable pub apply : Operation → FetchScheduler → FetchScheduler
apply (reconfigured plans) s = reconfigure plans s
apply (interval_set tier minutes) s = set_interval tier minutes s
apply (enabled_set tier on) s = set_enabled tier on s
apply (was_collected t tier) s = mark_collected t tier s
apply (was_deferred t tier r) s = defer t tier r s
apply (was_failed t tier r) s = mark_failed t tier r s
apply (requested t tiers) s = request t tiers s
apply (imported t saved) s = import_state t saved s

unfoldable pub run : List Operation → FetchScheduler → FetchScheduler
run [] s = s
run (o ∷ os) s = run os (apply o s)

apply-SameKeys : (o : Operation) (s : FetchScheduler) → SameKeys s → SameKeys (apply o s)
unfolding apply set_interval set_enabled mark_collected defer mark_failed
apply-SameKeys (reconfigured plans) s k = reconfigure-SameKeys plans s
apply-SameKeys (interval_set tier minutes) s k =
    set_plan-SameKeys tier (s.plans tier) (λ plan. record plan { interval_minutes = minutes }) s
      refl k
apply-SameKeys (enabled_set tier on) s k =
    set_plan-SameKeys tier (s.plans tier) (λ plan. record plan { enabled = on }) s refl k
apply-SameKeys (was_collected t tier) s k =
    update_state-SameKeys tier (collected t) (s.states tier) s refl k
apply-SameKeys (was_deferred t tier r) s k = defer-SameKeys t tier r (s.plans tier) s k
apply-SameKeys (was_failed t tier r) s k =
    let s' = update_state tier (λ st. record st { failures = st.failures + 1 }) (s.states tier) s in
    defer-SameKeys t tier (floored (s.plans tier) r) (s'.plans tier) s' (
      update_state-SameKeys tier (λ st. record st { failures = st.failures + 1 }) (s.states tier) s
        refl k)
apply-SameKeys (requested t tiers) s k = request-SameKeys t tiers s k
apply-SameKeys (imported t saved) s k = import_state-SameKeys t saved s k

run_keeps : (os : List Operation) (s : FetchScheduler) → SameKeys s → SameKeys (run os s)
unfolding run
run_keeps [] s k = k
run_keeps (o ∷ os) s k = run_keeps os (apply o s) (apply-SameKeys o s k)

-- After any calls on a new scheduler, exactly the tiers with a plan have a state, so no look-up of a
-- planned tier's state fails.
run-SameKeys :
    (plans : Tier → Option TierPlan) (os : List Operation) → SameKeys (run os (init plans))
run-SameKeys plans os = run_keeps os (init plans) (init-SameKeys plans)
