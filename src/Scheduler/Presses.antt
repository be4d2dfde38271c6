-- ===== src/Scheduler/Presses.antt =====
-- custom_components/carnet_scolaire/scheduler.py: the ceiling on boosts, and the hand-over across a
-- reload.
use mathlib.Core.Option
use ha_pronote_ng.Prelude.{
  le→leb, ℕ, ◌+◌, ◌≤◌, ◌<◌, ◌≡◌, refl, sym, ap, ◌∙◌, inl, inr, true, Option, none, some, List, [],
  ◌∷◌, All, arith, ◌==◌, if◌then◌else◌, Bool-cases, Option-cases,
}
use ha_pronote_ng.Const.{
  Tier, same_tier, name_order, session, timetable, homework, news, discussions, marks, attendance,
  evaluations, menus, static, history,
}
use ha_pronote_ng.Scheduler.State.{
  TierPlan, interval, TierState, Instant, FetchScheduler, put, fresh, init,
}
use ha_pronote_ng.Scheduler.Outcomes.{
  press, press_planned, request, export_state, restore, import_state,
}

-- The tier whose name has a place in alphabetical order.
tier_at : ℕ → Tier
tier_at n =
    if n == 0
    then attendance
    else if n == 1
    then discussions
    else if n == 2
    then evaluations
    else if n == 3
    then history
    else if n == 4
    then homework
    else if n == 5
    then marks
    else if n == 6
    then menus
    else if n == 7
    then news
    else if n == 8
    then session
    else if n == 9
    then static
    else timetable

tier_at-name_order : (a : Tier) → tier_at (name_order a) ≡ a
unfolding tier_at name_order
tier_at-name_order session = refl
tier_at-name_order _ = refl

order_eq : (a b : ℕ) → (a == b) ≡ true → a ≡ b
order_eq a b h = ground arith

pub same_tier-eq : (a b : Tier) → same_tier a b ≡ true → a ≡ b
unfolding same_tier name_order
same_tier-eq a b h = sym (tier_at-name_order a) ∙ ap tier_at (order_eq _ _ h) ∙ tier_at-name_order b

module _ (t : Instant) (tier : Tier) (plan : TierPlan) (st : TierState) (at : ℕ)
    (served : st.boost_served_at ≡ some at) (soon : t.clock < at + interval plan) where
  -- A press that comes too soon changes nothing.
  press_refused : press t plan st ≡ st
  unfolding press
  press_refused = ground arith

  put-press :
      (x : Tier) (plan' : TierPlan) (st' : TierState) (s : FetchScheduler)
      → s.plans x ≡ some plan'
      → s.states x ≡ some st'
      → s.plans tier ≡ some plan
      → s.states tier ≡ some st
      → put x (press t plan' st') s.states tier ≡ some st
  put-press x plan' st' s px kx planned known = elim (Bool-cases (same_tier x tier)) [
    | inl same ↦
        (let e = same_tier-eq x tier same in
          let e₁ : plan' ≡ plan = cc (px, planned, ap s.plans e) in
          let e₂ : st' ≡ st = cc (kx, known, ap s.states e) in
          rw (same, e₁, e₂) (ap {B = Option TierState} some press_refused))
    | inr other ↦ rw other known
  ]

  press_one :
      (x : Tier) (s : FetchScheduler) (o : Option TierPlan)
      → s.plans x ≡ o
      → s.plans tier ≡ some plan
      → s.states tier ≡ some st
      → ((press_planned t x o s).states tier ≡ some st)
        × ((press_planned t x o s).plans tier ≡ some plan)
  press_one x s none px planned known = (known, planned)
  press_one x s (some plan') px planned known = elim (Option-cases (s.states x)) [
    | inl unknown ↦ rw unknown (known, planned)
    | inr (st', kx) ↦ rw kx (put-press x plan' st' s px kx planned known, planned)
  ]

  request_refused :
      (tiers : List Tier) (s : FetchScheduler)
      → s.plans tier ≡ some plan
      → s.states tier ≡ some st
      → ((request t tiers s).states tier ≡ some st) × ((request t tiers s).plans tier ≡ some plan)
  unfolding request
  request_refused [] s planned known = (known, planned)
  request_refused (x ∷ tiers) s planned known =
      let (k, p) = press_one x s (s.plans x) refl planned known in
      request_refused tiers (press_planned t x (s.plans x) s) p k

-- A row of presses.
unfoldable pub press_all : List (Instant × List Tier) → FetchScheduler → FetchScheduler
press_all [] s = s
press_all ((t, tiers) ∷ presses) s = press_all presses (request t tiers s)

-- Once a boost was served, no number of presses before the interval since then is over arms another, or
-- changes anything else of the tier.
pub press_all-refused :
    (presses : List (Instant × List Tier)) (tier : Tier) (plan : TierPlan) (st : TierState) (at : ℕ)
    (s : FetchScheduler)
    → s.plans tier ≡ some plan
    → s.states tier ≡ some st
    → st.boost_served_at ≡ some at
    → All (λ (p : Instant × List Tier). p.0.clock < at + interval plan) presses
    → (press_all presses s).states tier ≡ some st
unfolding press_all
press_all-refused [] tier plan st at s planned known served soon = known
press_all-refused ((t, tiers) ∷ presses) tier plan st at s planned known served soon =
    let (k, p) = request_refused t tier plan st at served soon.0 tiers s planned known in
    press_all-refused presses tier plan st at (request t tiers s) p k served soon.1

-- Across a reload: a scheduler built from the same plans that imports what another exported has, for
-- each planned tier, the same instant of the last collection, as long as none lies in the future.
pub import-export :
    (t : Instant) (tier : Tier) (plan : TierPlan) (st : TierState) (at : ℕ) (s : FetchScheduler)
    → s.plans tier ≡ some plan
    → s.states tier ≡ some st
    → st.last_collected ≡ some at
    → at ≤ t.clock
    → (import_state t (export_state s) (init s.plans)).states tier
      ≡ some (record fresh { last_collected = some at })
unfolding import_state export_state init restore
import-export t tier plan st at s planned known last past =
    rw (planned, known) (unfold Option.bind in rw last (rw (le→leb at t.clock past)))
