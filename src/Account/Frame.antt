-- ===== src/Account/Frame.antt =====
-- custom_components/carnet_scolaire/account.py: what the collection of one tier leaves of the others.
use ha_pronote_ng.Prelude.{
  ℕ, ◌+◌, ◌≡◌, refl, ◌∙◌, subst, inl, inr, Bool, true, false, Option, none, some, String,
  Bool-cases, Option-cases, ◌>>=◌,
}
use ha_pronote_ng.Const.{Tier, same_tier, marks, session}
use ha_pronote_ng.Limiter.State.{Delay}
use ha_pronote_ng.Scheduler.State.{TierPlan, TierState, Instant, FetchScheduler}
use ha_pronote_ng.Scheduler.Outcomes.{
  update_state, defer_planned, mark_collected, defer, mark_failed, floored,
}
use ha_pronote_ng.Scheduler.Outcomes as Outcomes
use ha_pronote_ng.Account.State.{Snapshot, TierCoordinator, Account, publish, note_failure}
use ha_pronote_ng.Account.Collect.{
  with_coordinator, with_failure, publish_session, publish_rest, publish_for, Published, published,
  account_after,
}
use ha_pronote_ng.Prelude.{either}

-- The plans are as before, and so is what is known of any other tier.
pub record IsFramed (tier : Tier) (s s' : FetchScheduler) : Type 0 where
  pub same_plans : s'.plans ≡ s.plans
  pub others : (t : Tier) → same_tier tier t ≡ false → s'.states t ≡ s.states t

abbrev pub same_frame : (tier : Tier) (s : FetchScheduler) → IsFramed tier s s
same_frame tier s = record { same_plans = refl; others = λ t other. refl }

pub IsFramed-trans :
    (tier : Tier) (a b c : FetchScheduler)
    → IsFramed tier a b
    → IsFramed tier b c
    → IsFramed tier a c
IsFramed-trans tier a b c h k = record {
  same_plans = k.same_plans ∙ h.same_plans;
  others = λ t other. k.others t other ∙ h.others t other;
}

update_state-IsFramed :
    (tier : Tier) (change : TierState → TierState) (o : Option TierState) (s : FetchScheduler)
    → IsFramed tier s (update_state tier change o s)
update_state-IsFramed tier change none s = same_frame tier s
update_state-IsFramed tier change (some st) s = record {
  same_plans = refl;
  others = λ t other. rw other refl;
}

module _ (at : Instant) (tier : Tier) (s : FetchScheduler) where
  pub mark_collected-IsFramed : IsFramed tier s (mark_collected at tier s)
  unfolding mark_collected
  mark_collected-IsFramed = update_state-IsFramed tier (Outcomes.collected at) (s.states tier) s

  defer_planned-IsFramed :
      (r : Delay) (o : Option TierPlan) → IsFramed tier s (defer_planned at tier r o s)
  defer_planned-IsFramed r none = same_frame tier s
  defer_planned-IsFramed r (some plan) =
      update_state-IsFramed tier (Outcomes.deferred at r plan) (s.states tier) s

  pub defer-IsFramed : (r : Delay) → IsFramed tier s (defer at tier r s)
  unfolding defer
  defer-IsFramed r = defer_planned-IsFramed r (s.plans tier)

pub mark_failed-IsFramed :
    (at : Instant) (tier : Tier) (s : FetchScheduler) (r : Delay)
    → IsFramed tier s (mark_failed at tier r s)
unfolding mark_failed
mark_failed-IsFramed at tier s r =
    let f : TierState → TierState = λ st. record st { failures = st.failures + 1 } in
    let s' = update_state tier f (s.states tier) s in
    IsFramed-trans tier s s' (defer at tier (floored (s.plans tier) r) s')
      (update_state-IsFramed tier f (s.states tier) s)
      (defer-IsFramed at tier s' (floored (s.plans tier) r))

abbrev pub is_there : {B : Type 0} → Option B → Bool
is_there none = false
is_there (some b) = true

module _ {A : Type 0} where
  -- Every coordinator that was there is there.
  abbrev pub Stays : Account A → Account A → Type 0
  Stays a b = (t : Tier) → is_there (a.coordinators t) ≡ true → is_there (b.coordinators t) ≡ true

  with_coordinator-Stays :
      (tier : Tier) (c : TierCoordinator A) (a : Account A) → Stays a (with_coordinator tier c a)
  with_coordinator-Stays tier c a t h = elim (Bool-cases (same_tier tier t)) [
    | inl e ↦ rw e refl
    | inr e ↦ rw e h
  ]

  publish_session-Stays :
      (facts : String → A) (now : ℕ) (student : String) (a : Account A)
      → Stays a (account_after (publish_session facts now student a))
  unfolding publish_session
  publish_session-Stays facts now student a0 =
      let a = record a0 { session_facts = some (facts student) } in
      elim (Option-cases (a0.coordinators session)) [
        | inl e ↦ rw (e, publish_session) (λ t h. h)
        | inr (c, e) ↦
            let sn : Snapshot A = record {
              facts = facts student;
              fetched_at = now;
              tier = session;
              calls = 0;
              student_id = some student;
            } in
            elim (Option-cases (publish student sn c)) [
              | inl q ↦ rw (e, q, publish_session) (λ t h. h)
              | inr (c', q) ↦ rw (e, q, publish_session) (with_coordinator-Stays session c' a)
            ]
      ]

  publish_rest-Stays :
      (facts : Option (String → A)) (now : ℕ) (tier : Tier) (student : String) (a : Account A)
      (o : Option (TierCoordinator A))
      → Stays a (account_after (publish_rest facts now tier student a o))
  publish_rest-Stays facts now tier student a none = λ t h. h
  publish_rest-Stays none now tier student a (some c) = with_coordinator-Stays tier c a
  publish_rest-Stays (some f) now tier student a (some c) =
      let b = with_coordinator tier c a in
      let h = with_coordinator-Stays tier c a in
      let k = publish_session-Stays f now student b in
      either (λ (p : Published A). Stays a (account_after p)) (same_tier tier marks)
        (publish_session f now student b) (published b) (λ t there. k t (h t there)) h

  pub publish_for-Stays :
      (facts : Option (String → A)) (now : ℕ) (tier : Tier) (student : String)
      (snapshot : Snapshot A) (a b : Account A)
      → account_after (publish_for facts now tier student snapshot a) ≡ b
      → Stays a b
  unfolding publish_for
  publish_for-Stays facts now tier student snapshot a b e = subst (Stays a) e (
      publish_rest-Stays facts now tier student a
        (a.coordinators tier >>= publish student snapshot))

  pub with_failure-Stays :
      (tier : Tier) (o : Option (TierCoordinator A)) (a : Account A)
      → Stays a (with_failure tier o a)
  with_failure-Stays tier none a = λ t h. h
  with_failure-Stays tier (some c) a = with_coordinator-Stays tier (note_failure c) a
