-- ===== src/Account/Settled.antt =====
-- custom_components/carnet_scolaire/account.py: what a collection leaves of its tier in the scheduler.
use ha_pronote_ng.Prelude.{
  ℕ, ◌+◌, ◌/◌, ◌≤◌, ◌≡◌, refl, sym, ap, ◌∙◌, subst, inl, inr, Bool, true, false, Option, some, List,
  [], ◌∷◌, ◌++◌, String, arith,
}
use ha_pronote_ng.Const.{Tier}
use ha_pronote_ng.Limiter.State.{Delay, max_delay}
use ha_pronote_ng.Scheduler.State.{TierPlan, interval, TierState, Instant, FetchScheduler, put}
use ha_pronote_ng.Scheduler.Outcomes as Outcomes
use ha_pronote_ng.Scheduler.Outcomes.{mark_collected, defer, mark_failed, retries_per_interval}
use ha_pronote_ng.Scheduler.Deadlines.{put_self, states-mark_collected, states-defer, failed-defer}
use ha_pronote_ng.Delta.Context.{DeltaEvent}
use ha_pronote_ng.Account.State.{TierCoordinator, record_of, Account}
use ha_pronote_ng.Account.Collect.{
  Attempt, attempt, Loop, failing, publish_for, labelled, account_after, Published-cases, loop,
  finish, collect_known, collect, collected, deferred, blocked, failed, stopped, escaped, over,
}
use ha_pronote_ng.Account.Fired.{publish_for-Same, collect-collect_known}

-- The tier has no boost left, and counts at most one failure more.
abbrev pub IsDisarmed : Tier → TierState → FetchScheduler → Type 0
IsDisarmed tier st s =
    (st' : TierState) × (s.states tier ≡ some st')
    × (st'.boosted ≡ false)
    × (st'.failures ≤ st.failures + 1)

module _ (t : Instant) (tier : Tier) (plan : TierPlan) (st : TierState) (s : FetchScheduler)
    (planned : s.plans tier ≡ some plan) (known : s.states tier ≡ some st) where
  mark_collected-IsDisarmed : IsDisarmed tier st (mark_collected t tier s)
  unfolding Outcomes.collected
  mark_collected-IsDisarmed = (
    Outcomes.collected t st,
    states-mark_collected t tier s plan st planned known,
    refl,
    omega arith,
  )

  defer-IsDisarmed : (r : Delay) → IsDisarmed tier st (defer t tier r s)
  unfolding Outcomes.deferred
  defer-IsDisarmed r = (
    Outcomes.deferred t r plan st,
    states-defer t tier s plan st planned known r,
    refl,
    omega arith,
  )

  mark_failed-IsDisarmed : (r : Delay) → IsDisarmed tier st (mark_failed t tier r s)
  unfolding Outcomes.deferred
  mark_failed-IsDisarmed r =
      let st' = record st { failures = st.failures + 1 } in
      let s' = record s { states = put tier st' s.states } in
      let r' = max_delay (interval plan / retries_per_interval) r in
      (
        Outcomes.deferred t r' plan st',
        ap (λ (z : FetchScheduler). z.states tier) (failed-defer t tier r s plan st planned known)
            ∙ states-defer t tier s' plan st' planned (put_self tier st' s.states) r',
        refl,
        omega arith,
      )

module _ {A : Type 0} (tier : Tier) (plan : TierPlan) (st : TierState) where
  failing-IsDisarmed :
      (at : Instant) (r : Delay) (a : Account A)
      → a.scheduler.plans tier ≡ some plan
      → a.scheduler.states tier ≡ some st
      → IsDisarmed tier st (failing tier at r a).scheduler
  unfolding failing
  failing-IsDisarmed at r a planned known =
      mark_failed-IsDisarmed at tier plan st a.scheduler planned known r

  -- What the loop leaves of the scheduler: a disarmed tier, or nothing has happened yet.
  Settles : Account A → Loop A → Type 0
  Settles a (stopped b) = IsDisarmed tier st b.scheduler
  Settles a (escaped b) = Unit
  Settles a (over b calls s found) = b.scheduler ≡ a.scheduler

  Settles-from :
      (a b : Account A) (y : Loop A) → b.scheduler ≡ a.scheduler → Settles b y → Settles a y
  unfolding Settles
  Settles-from a b (stopped c) e h = h
  Settles-from a b (escaped c) e h = tt
  Settles-from a b (over c calls s found) e h = h ∙ e

  loop-Settles :
      (facts : Option (String → A)) (now : Instant → ℕ) (xs : List (Attempt A)) (calls : ℕ)
      (succeeded : Bool) (events : List (String × DeltaEvent)) (a : Account A)
      → a.scheduler.plans tier ≡ some plan
      → a.scheduler.states tier ≡ some st
      → Settles a (loop facts now tier xs calls succeeded events a)
  unfolding loop Settles
  loop-Settles facts now [] calls succeeded events a planned known = refl
  loop-Settles facts now (attempt student (deferred retry_after) at r ∷ xs) calls succeeded events a
        planned known =
      defer-IsDisarmed at tier plan st a.scheduler planned known retry_after
  loop-Settles facts now (attempt student blocked at r ∷ xs) calls succeeded events a planned
        known =
      failing-IsDisarmed at r a planned known
  loop-Settles facts now (attempt student failed at r ∷ xs) calls succeeded events a planned known =
      failing-IsDisarmed at r a planned known
  loop-Settles facts now (attempt student (collected snapshot used detected) at r ∷ xs) calls
        succeeded events a planned known =
      elim (Published-cases (publish_for facts (now at) tier student snapshot a)) [
        | inl (b, e) ↦ rw (e, loop) tt
        | inr (b, e) ↦
            let same =
              (publish_for-Same facts (now at) tier student snapshot a b (ap account_after e)).1 in
            let h =
              loop-Settles facts now xs (calls + used) true (events ++ labelled student detected) b
                (ap (λ (z : FetchScheduler). z.plans tier) same ∙ planned)
                (ap (λ (z : FetchScheduler). z.states tier) same ∙ known) in
            rw (e, loop)
              (Settles-from a b
                (loop facts now tier xs (calls + used) true (events ++ labelled student detected) b)
                same h)
      ]

  finish-Settles :
      (now : Instant → ℕ) (started t : Instant) (r : Delay) (a b : Account A) (y : Loop A)
      → a.scheduler.plans tier ≡ some plan
      → a.scheduler.states tier ≡ some st
      → Settles a y
      → finish now tier started t r y ≡ stopped b
      → IsDisarmed tier st b.scheduler
  unfolding finish Settles
  finish-Settles now started t r a b (stopped d) planned known h e =
      subst (λ (z : Loop A). Settles a z) e h
  finish-Settles now started t r a b (escaped d) planned known h e = cc
  finish-Settles now started t r a b (over d calls false found) planned known h e =
      subst (λ (z : Loop A). Settles a z) e
        (mark_failed-IsDisarmed t tier plan st d.scheduler
          (ap (λ (z : FetchScheduler). z.plans tier) h ∙ planned)
          (ap (λ (z : FetchScheduler). z.states tier) h ∙ known) r)
  finish-Settles now started t r a b (over d calls true found) planned known h e =
      subst (λ (z : Loop A). Settles a z) e
        (mark_collected-IsDisarmed t tier plan st d.scheduler
          (ap (λ (z : FetchScheduler). z.plans tier) h ∙ planned)
          (ap (λ (z : FetchScheduler). z.states tier) h ∙ known))

-- A boost is raised for one collection: however a collection ends, unless an exception escapes it, the
-- tier has a state without a boost, and counts at most one failure more than before.
pub collect-IsDisarmed :
    {A : Type 0} (facts : Option (String → A)) (now : Instant → ℕ) (tier : Tier)
    (started t : Instant) (attempts : List (Attempt A)) (retry_delay : Delay) (a b : Account A)
    (c : TierCoordinator A) (plan : TierPlan) (st : TierState)
    → a.coordinators tier ≡ some c
    → a.scheduler.plans tier ≡ some plan
    → a.scheduler.states tier ≡ some st
    → collect facts now tier started attempts t retry_delay a ≡ stopped b
    → IsDisarmed tier st b.scheduler
unfolding collect_known
collect-IsDisarmed facts now tier started t attempts retry_delay a b c plan st there planned known
      e =
    let a1 = record a { records = put tier (record_of (a.records tier)) a.records } in
    finish-Settles tier plan st now started t retry_delay a1 b
      (loop facts now tier attempts 0 false [] a1) planned known
      (loop-Settles tier plan st facts now attempts 0 false [] a1 planned known)
      (sym (collect-collect_known facts now tier started t attempts retry_delay a c there) ∙ e)
