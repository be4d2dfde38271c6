-- ===== src/Tiers.antt =====
-- custom_components/carnet_scolaire/tiers.py: the priority of a collection, and what failures make of it.
mod Tests
use ha_pronote_ng.Prelude.{
  ℕ, ◌+◌, ◌/◌, ◌<◌, ◌≤◌, ◌≡◌, refl, ◌↔◌, ◌⊎◌, inl, inr, Bool, true, false, not, ◌&&◌, none, some,
  ltb, arith, if◌then◌else◌, Bool-cases, ◌||◌,
}
use ha_pronote_ng.Const.{
  Tier, session, Priority, critical, gesture, tier_priority, quiet_hours_exempt,
}
use ha_pronote_ng.Limiter.State.{Delay, max_delay}
use ha_pronote_ng.Scheduler.State.{TierPlan, interval, TierState, Instant, FetchScheduler, put}
use ha_pronote_ng.Scheduler.Due.{failures, is_boosted}
use ha_pronote_ng.Scheduler.Outcomes.{defer, deferred, mark_failed, retries_per_interval}
use ha_pronote_ng.Scheduler.Deadlines.{put_self, failed-defer, states-defer, plans-defer}

-- `_FIRST_COLLECTION_ATTEMPTS`
abbrev pub first_collection_attempts : ℕ
first_collection_attempts = 3

-- `_priority_for`, for an account that has data of the tier and the student or has none
unfoldable pub priority_for : Bool → Tier → FetchScheduler → Priority
priority_for has_data tier s =
    if not has_data && ltb (failures tier s) first_collection_attempts
    then critical
    else if is_boosted tier s
    then gesture
    else tier_priority tier

exempt-session : (tier : Tier) → quiet_hours_exempt (tier_priority tier) ≡ true → tier ≡ session
unfolding quiet_hours_exempt tier_priority
exempt-session session h = refl
exempt-session _ h = cc

session_exempt : quiet_hours_exempt (tier_priority session) ≡ true
unfolding quiet_hours_exempt tier_priority
session_exempt = refl

critical_exempt : quiet_hours_exempt critical ≡ true
unfolding quiet_hours_exempt
critical_exempt = refl

gesture_exempt : quiet_hours_exempt gesture ≡ true
unfolding quiet_hours_exempt
gesture_exempt = refl

exempt-tests :
    (has_data : Bool) (tier : Tier) (s : FetchScheduler)
    → quiet_hours_exempt (priority_for has_data tier s) ≡ (
        (not has_data && ltb (failures tier s) 3)
        || (is_boosted tier s || quiet_hours_exempt (tier_priority tier)))
unfolding priority_for
exempt-tests has_data tier s = ground (arith, critical_exempt, gesture_exempt)

-- A collection outranks quiet hours exactly when the tier has no data yet and failed fewer than three
-- times in a row, or carries a boost, or is the session itself.
pub exempt_iff :
    (has_data : Bool) (tier : Tier) (s : FetchScheduler)
    → (quiet_hours_exempt (priority_for has_data tier s) ≡ true) ↔ (
        ((has_data ≡ false) × (failures tier s < 3))
        ⊎ (is_boosted tier s ≡ true)
        ⊎ (tier ≡ session))
exempt_iff has_data tier s =
    let tests = exempt-tests has_data tier s in
    (
      λ h. elim (Bool-cases (is_boosted tier s)) [
        | inl e ↦ inr (inl e)
        | inr e ↦ elim (Bool-cases (quiet_hours_exempt (tier_priority tier))) [
          | inl e' ↦ inr (inr (exempt-session tier e'))
          | inr e' ↦ inl (ground arith, ground arith)
        ]
      ],
      λ any. elim any [
        | inl (a, b) ↦ ground arith
        | inr (inl e) ↦ ground arith
        | inr (inr e) ↦
            let q : quiet_hours_exempt (tier_priority tier) ≡ true = rw e session_exempt in
            ground arith
      ],
    )

-- A tier with this plan failed at least `n` times in a row and carries no boost.
record Failed (n : ℕ) (tier : Tier) (plan : TierPlan) (s : FetchScheduler) : Type 0 where
  state : TierState
  planned : s.plans tier ≡ some plan
  known : s.states tier ≡ some state
  count : n ≤ state.failures
  disarmed : state.boosted ≡ false

Failed-once :
    (t : Instant) (tier : Tier) (r : Delay) (s : FetchScheduler) (plan : TierPlan) (st : TierState)
    → s.plans tier ≡ some plan
    → s.states tier ≡ some st
    → Failed (st.failures + 1) tier plan (mark_failed t tier r s)
unfolding deferred
Failed-once t tier r s plan st planned known =
    let st' : TierState = record st { failures = st.failures + 1 } in
    let s' : FetchScheduler = record s { states = put tier st' s.states } in
    let r' = max_delay (interval plan / retries_per_interval) r in
    let k' = put_self tier st' s.states in
    rw (failed-defer t tier r s plan st planned known) (record {
      state = deferred t r' plan st';
      planned = plans-defer t tier s' plan st' planned k' r';
      known = states-defer t tier s' plan st' planned k' r';
      count = omega arith;
      disarmed = refl;
    })

Failed-again :
    (t : Instant) (tier : Tier) (r : Delay) (s : FetchScheduler) (plan : TierPlan) (n : ℕ)
    → Failed n tier plan s
    → Failed (n + 1) tier plan (mark_failed t tier r s)
Failed-again t tier r s plan n f =
    let g = Failed-once t tier r s plan f.state f.planned f.known in
    record {
      state = g.state;
      planned = g.planned;
      known = g.known;
      count = omega (arith, g.count, f.count);
      disarmed = g.disarmed;
    }

-- The dispensation of a first collection ends: a tier that fails three times in a row, at whatever
-- instants and with whatever delays, is collected at its declared priority, with data or without.
pub three_failures :
    (t1 t2 t3 : Instant) (r1 r2 r3 : Delay) (has_data : Bool) (tier : Tier) (s : FetchScheduler)
    (plan : TierPlan) (st : TierState)
    → s.plans tier ≡ some plan
    → s.states tier ≡ some st
    → priority_for has_data tier
        (mark_failed t3 tier r3 (mark_failed t2 tier r2 (mark_failed t1 tier r1 s)))
      ≡ tier_priority tier
unfolding priority_for failures is_boosted
three_failures t1 t2 t3 r1 r2 r3 has_data tier s plan st planned known =
    let f =
      Failed-again t3 tier r3 _ plan _
        (Failed-again t2 tier r2 _ plan _ (Failed-once t1 tier r1 s plan st planned known)) in
    ground (arith, f.known, f.count, f.disarmed)
