-- ===== src/Scheduler/Deadlines.antt =====
-- custom_components/carnet_scolaire/scheduler.py: when a tier is due again, after each outcome.
use ha_pronote_ng.Prelude.{
  ℕ, ◌+◌, ◌/◌, ◌≤◌, ◌≡◌, ◌↔◌, refl, subst, inl, inr, true, false, Option, some, arith,
}
use ha_pronote_ng.Const.{same_tier, Tier, name_order}
use ha_pronote_ng.Limiter.State.{Delay, ticks, forever, max_delay}
use ha_pronote_ng.Scheduler.State.{TierPlan, interval, TierState, Instant, FetchScheduler, put}
use ha_pronote_ng.Scheduler.Outcomes.{
  collected, mark_collected, bounded_wait, deferred, defer, floored, retries_per_interval,
  mark_failed,
}
use ha_pronote_ng.Scheduler.Membership.{Wanted, IsDue}

some_eq : (a b : ℕ) → some a ≡ some b → a ≡ b
some_eq a b h = cc

pub put_self : {A : Type 0} (tier : Tier) (a : A) (d : Tier → Option A) → put tier a d tier ≡ some a
unfolding same_tier name_order
put_self tier a d = ground arith

-- What is due of a tier whose plan and state are known.
IsDue-known :
    (t : Instant) (s : FetchScheduler) (tier : Tier) (plan : TierPlan) (st : TierState)
    → s.plans tier ≡ some plan
    → s.states tier ≡ some st
    → IsDue t s tier
    → (st.not_before ≤ t.clock) × Wanted t plan st
IsDue-known t s tier plan st p k d =
    let e₁ : d.plan ≡ plan = cc (d.planned, p) in
    let e₂ : d.state ≡ st = cc (d.known, k) in
    subst (λ (q : TierPlan). (st.not_before ≤ t.clock) × Wanted t q st) e₁
      (subst (λ (r : TierState). (r.not_before ≤ t.clock) × Wanted t d.plan r) e₂
        (d.ready, d.wanted))

-- The state that an outcome leaves for the tier that it is about.
module _ (t : Instant) (tier : Tier) (s : FetchScheduler) (plan : TierPlan) (st : TierState)
    (planned : s.plans tier ≡ some plan) (known : s.states tier ≡ some st) where
  pub states-mark_collected : (mark_collected t tier s).states tier ≡ some (collected t st)
  unfolding mark_collected
  states-mark_collected = rw known (put_self tier (collected t st) s.states)

  plans-mark_collected : (mark_collected t tier s).plans tier ≡ some plan
  unfolding mark_collected
  plans-mark_collected = rw known planned

  pub states-defer : (r : Delay) → (defer t tier r s).states tier ≡ some (deferred t r plan st)
  unfolding defer
  states-defer r = rw (planned, known) (put_self tier (deferred t r plan st) s.states)

  pub plans-defer : (r : Delay) → (defer t tier r s).plans tier ≡ some plan
  unfolding defer
  plans-defer r = rw (planned, known) planned

-- A tier that was collected is due again exactly from one interval later on: not before, whatever put
-- it off or boosted it until then.
pub collected-IsDue_iff :
    (t t' : Instant) (tier : Tier) (s : FetchScheduler) (plan : TierPlan) (st : TierState)
    → s.plans tier ≡ some plan
    → s.states tier ≡ some st
    → plan.enabled ≡ true
    → IsDue t' (mark_collected t tier s) tier ↔ (t.clock + interval plan ≤ t'.clock)
unfolding collected
collected-IsDue_iff t t' tier s plan st planned known enabled =
    let k = states-mark_collected t tier s plan st planned known in
    let p = plans-mark_collected t tier s plan st planned known in
    (
      λ d. elim (IsDue-known t' (mark_collected t tier s) tier plan (collected t st) p k d).1 [
        | inl never ↦ cc
        | inr (inl boosted) ↦ cc
        | inr (inr (at, e, over)) ↦ omega (arith, some_eq t.clock at e)
      ],
      λ over. record {
        plan = plan;
        state = collected t st;
        planned = p;
        known = k;
        enabled = enabled;
        ready = omega arith;
        wanted = inr (inr (t.clock, refl, over));
      },
    )

-- The wait of a deferral is at most the interval.
bounded_wait-le : (r : Delay) (plan : TierPlan) → bounded_wait r plan ≤ interval plan
unfolding bounded_wait
bounded_wait-le (ticks n) plan = omega arith
bounded_wait-le forever plan = omega arith

enabled_of_due :
    (t : Instant) (s : FetchScheduler) (tier : Tier) (plan : TierPlan)
    → s.plans tier ≡ some plan
    → IsDue t s tier
    → plan.enabled ≡ true
enabled_of_due t s tier plan planned d =
    let same : d.plan ≡ plan = cc (d.planned, planned) in
    subst (λ (q : TierPlan). q.enabled ≡ true) same d.enabled

-- A deferral takes the boost away, and leaves what else makes a tier due.
Wanted-deferred :
    (t t' : Instant) (r : Delay) (plan : TierPlan) (st : TierState)
    → st.boosted ≡ false
    → t.clock ≤ t'.clock
    → Wanted t plan st
    → Wanted t' plan (deferred t r plan st)
unfolding deferred
Wanted-deferred t t' r plan st plain later (inl never) = inl never
Wanted-deferred t t' r plan st plain later (inr (inl boosted)) = cc
Wanted-deferred t t' r plan st plain later (inr (inr (at, e, over))) =
    inr (inr (at, e, omega arith))

-- A tier that is due without a boost and is deferred is due again exactly when the wait is over, and
-- the wait is at most the tier's interval: its deadline moves and is never dropped.
pub deferred-IsDue_iff :
    (t t' : Instant) (tier : Tier) (r : Delay) (s : FetchScheduler) (plan : TierPlan)
    (st : TierState)
    → s.plans tier ≡ some plan
    → s.states tier ≡ some st
    → st.boosted ≡ false
    → IsDue t s tier
    → (IsDue t' (defer t tier r s) tier ↔ (t.clock + bounded_wait r plan ≤ t'.clock))
      × (bounded_wait r plan ≤ interval plan)
unfolding deferred
deferred-IsDue_iff t t' tier r s plan st planned known plain d =
    let k = states-defer t tier s plan st planned known r in
    let p = plans-defer t tier s plan st planned known r in
    (
      (
        λ d'. (IsDue-known t' (defer t tier r s) tier plan (deferred t r plan st) p k d').0,
        λ over. record {
          plan = plan;
          state = deferred t r plan st;
          planned = p;
          known = k;
          enabled = enabled_of_due t s tier plan planned d;
          ready = over;
          wanted =
              Wanted-deferred t t' r plan st plain (omega arith)
                (IsDue-known t s tier plan st planned known d).1;
        },
      ),
      bounded_wait-le r plan,
    )

pub failed-defer :
    (t : Instant) (tier : Tier) (r : Delay) (s : FetchScheduler) (plan : TierPlan) (st : TierState)
    → s.plans tier ≡ some plan
    → s.states tier ≡ some st
    → mark_failed t tier r s
      ≡ defer t tier
          (max_delay (interval plan / retries_per_interval) r)
          (record s { states = put tier (record st { failures = st.failures + 1 }) s.states })
unfolding mark_failed floored
failed-defer t tier r s plan st planned known = rw (planned, known) refl

quarter-le :
    (r : Delay) (plan : TierPlan)
    → interval plan / retries_per_interval
      ≤ bounded_wait (max_delay (interval plan / retries_per_interval) r) plan
unfolding bounded_wait max_delay
quarter-le (ticks n) plan = omega arith
quarter-le forever plan = omega arith

-- A tier whose collection failed is not due again before a quarter of its interval is over, whatever
-- delay the limiter asks for.
pub failed_wait :
    (t t' : Instant) (tier : Tier) (r : Delay) (s : FetchScheduler) (plan : TierPlan)
    (st : TierState)
    → s.plans tier ≡ some plan
    → s.states tier ≡ some st
    → IsDue t' (mark_failed t tier r s) tier
    → t.clock + interval plan / 4 ≤ t'.clock
unfolding deferred
failed_wait t t' tier r s plan st planned known d =
    let st' = record st { failures = st.failures + 1 } in
    let s' = record s { states = put tier st' s.states } in
    let r' = max_delay (interval plan / retries_per_interval) r in
    let k' = put_self tier st' s.states in
    let k = states-defer t tier s' plan st' planned k' r' in
    let p = plans-defer t tier s' plan st' planned k' r' in
    let d' =
      subst (λ (y : FetchScheduler). IsDue t' y tier)
        (failed-defer t tier r s plan st planned known) d in
    let ready = (IsDue-known t' (defer t tier r' s') tier plan (deferred t r' plan st') p k d').0 in
    omega (arith, quarter-le r plan)
