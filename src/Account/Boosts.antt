-- ===== src/Account/Boosts.antt =====
-- custom_components/carnet_scolaire/account.py: the boosts after a batch.
use ha_pronote_ng.Prelude.{
  ◌≡◌, ◌⊎◌, refl, sym, ap, ◌∙◌, subst, inl, inr, true, false, Option, none, some, List, [], ◌∷◌,
  Bool-cases,
}
use ha_pronote_ng.Const.{Tier, same_tier}
use ha_pronote_ng.Scheduler.State.{TierPlan, TierState, Instant, FetchScheduler}
use ha_pronote_ng.Scheduler.Due.{due}
use ha_pronote_ng.Scheduler.Order.{In}
use ha_pronote_ng.Scheduler.Membership.{IsDue, In-due}
use ha_pronote_ng.Scheduler.Presses.{same_tier-eq}
use ha_pronote_ng.Account.State.{TierCoordinator, Account}
use ha_pronote_ng.Account.Collect.{Loop, stopped, escaped, over}
use ha_pronote_ng.Account.Settled.{IsDisarmed, collect-IsDisarmed}
use ha_pronote_ng.Account.Kept.{account_of}
use ha_pronote_ng.Account.Frame.{is_there}
use ha_pronote_ng.Account.Others.{IsApart, collect-IsApart}
use ha_pronote_ng.Account.Batch.{
  Round, completed, Batch, Setting, collect_tier, next, serve, batch_of, run_batch,
}

-- The tier has a state without a boost.
pub record IsCalm (tier : Tier) (s : FetchScheduler) : Type 0 where
  pub state : TierState
  pub known : s.states tier ≡ some state
  pub calm : state.boosted ≡ false

module _ {A : Type 0} where
  -- The tier has a coordinator, a plan and a state.
  pub record IsServed (tier : Tier) (a : Account A) : Type 0 where
    pub coordinator : is_there (a.coordinators tier) ≡ true
    pub plan : TierPlan
    pub planned : a.scheduler.plans tier ≡ some plan
    pub state : TierState
    pub known : a.scheduler.states tier ≡ some state

  there :
      (o : Option (TierCoordinator A)) → is_there o ≡ true → (c : TierCoordinator A) × (o ≡ some c)
  there none h = cc
  there (some c) h = (c, refl)

module _ {A : Type 0} (w : Setting A) (script : Tier → Round A) where
  next-completed :
      (tier : Tier) (y : Loop A) (rest : Account A → Batch A)
      → (next w script tier y rest).outcome ≡ completed
      → (b : Account A) × (y ≡ stopped b)
        × ((rest b).outcome ≡ completed)
        × ((next w script tier y rest).account ≡ (rest b).account)
  next-completed tier (stopped b) rest e = (b, refl, e, refl)
  next-completed tier (escaped b) rest e = cc
  next-completed tier (over b calls succeeded events) rest e = cc

  serve-next :
      (tier : Tier) (tiers : List Tier) (a : Account A)
      → (serve w script (tier ∷ tiers) a).outcome ≡ completed
      → serve w script (tier ∷ tiers) a
        ≡ next w script tier (collect_tier w script tier a) (serve w script tiers)
  unfolding serve
  serve-next tier tiers a e = elim (Bool-cases (script tier).stopping) [
    | inl q ↦ let k = rw (q, serve) at e in cc
    | inr q ↦ rw (q, serve) refl
  ]

  -- One collection: its tier is calm, a tier that was calm is calm, and a tier that was served is.
  module _ (tier : Tier) (a b : Account A) (served : IsServed tier a)
      (ended : collect_tier w script tier a ≡ stopped b) where
    disarmed : IsDisarmed tier served.state b.scheduler
    disarmed =
        let r = script tier in
        let (c, e) = there (a.coordinators tier) served.coordinator in
        collect-IsDisarmed w.facts w.now tier r.started r.finished r.attempts r.retry_delay a b c
          served.plan served.state e served.planned served.known ended

    apart : IsApart tier a b
    apart =
        let r = script tier in
        let (c, e) = there (a.coordinators tier) served.coordinator in
        subst (λ (y : Loop A). IsApart tier a (account_of y)) ended
          (collect-IsApart w.facts w.now tier r.started r.finished r.attempts r.retry_delay a c e)

    collected-IsCalm : IsCalm tier b.scheduler
    collected-IsCalm =
        let (st, known, calm, few) = disarmed in record { state = st; known = known; calm = calm }

    IsCalm-kept : (t : Tier) → IsCalm t a.scheduler → IsCalm t b.scheduler
    IsCalm-kept t h = elim (Bool-cases (same_tier tier t)) [
      | inl e ↦ subst (λ x. IsCalm x b.scheduler) (same_tier-eq tier t e) collected-IsCalm
      | inr e ↦ record { state = h.state; known = apart.framed.others t e ∙ h.known; calm = h.calm }
    ]

    IsServed-kept : (t : Tier) → IsServed t a → IsServed t b
    IsServed-kept t h =
        let planned =
          ap (λ (p : Tier → Option TierPlan). p t) apart.framed.same_plans ∙ h.planned in
        let coordinator = apart.stays t h.coordinator in
        elim (Bool-cases (same_tier tier t)) [
          | inl e ↦
              let calm =
                subst (λ x. IsCalm x b.scheduler) (same_tier-eq tier t e) collected-IsCalm in
              record {
                coordinator = coordinator;
                plan = h.plan;
                planned = planned;
                state = calm.state;
                known = calm.known;
              }
          | inr e ↦ record {
            coordinator = coordinator;
            plan = h.plan;
            planned = planned;
            state = h.state;
            known = apart.framed.others t e ∙ h.known;
          }
        ]

  serve-IsCalm :
      (tiers : List Tier) (a : Account A) (t : Tier)
      → ((x : Tier) → In x tiers → IsServed x a)
      → In t tiers ⊎ IsCalm t a.scheduler
      → (serve w script tiers a).outcome ≡ completed
      → IsCalm t (serve w script tiers a).account.scheduler
  unfolding serve
  serve-IsCalm [] a t served h e = elim h [ inl none_ ↦ elim none_ [ ] | inr calm ↦ calm ]
  serve-IsCalm (tier ∷ tiers) a t served h e =
      let (b, ended, e', same) =
        next-completed tier (collect_tier w script tier a) (serve w script tiers)
          (ap (λ (z : Batch A). z.outcome) (sym (serve-next tier tiers a e)) ∙ e) in
      let one = served tier (inl refl) in
      let h' : In t tiers ⊎ IsCalm t b.scheduler = elim h [
        | inl (inl q) ↦
            inr (subst (λ x. IsCalm x b.scheduler) (sym q) (collected-IsCalm tier a b one ended))
        | inl (inr q) ↦ inl q
        | inr calm ↦ inr (IsCalm-kept tier a b one ended t calm)
      ] in
      let h2 =
        serve-IsCalm tiers b t (λ x q. IsServed-kept tier a b one ended x (served x (inr q))) h'
          e' in
      subst (λ (z : Account A). IsCalm t z.scheduler)
        (sym same ∙ sym (ap (λ (z : Batch A). z.account) (serve-next tier tiers a e))) h2

  batch_of-IsCalm :
      (tiers : List Tier) (a : Account A) (t : Tier)
      → ((x : Tier) → In x tiers → IsServed x a)
      → In t tiers
      → (batch_of w script tiers a).outcome ≡ completed
      → IsCalm t (batch_of w script tiers a).account.scheduler
  batch_of-IsCalm [] a t served h e = elim h [ ]
  batch_of-IsCalm (tier ∷ tiers) a t served h e = serve-IsCalm (tier ∷ tiers) a t served (inl h) e

-- "Raised for exactly one tick": a batch that comes to its end leaves no boost on any tier that was due,
-- where each tier that is due has a coordinator.
pub batch-IsCalm :
    {A : Type 0} (w : Setting A) (script : Tier → Round A) (t : Instant) (a : Account A)
    (tier : Tier)
    → ((x : Tier) → IsDue t a.scheduler x → is_there (a.coordinators x) ≡ true)
    → IsDue t a.scheduler tier
    → (run_batch w script t a).outcome ≡ completed
    → IsCalm tier (run_batch w script t a).account.scheduler
unfolding run_batch
batch-IsCalm w script t a tier coordinated d e =
    let served : (x : Tier) → In x (due t a.scheduler) → IsServed x a = λ x h.
      let row = (In-due t a.scheduler x).0 h in
      record {
        coordinator = coordinated x row;
        plan = row.plan;
        planned = row.planned;
        state = row.state;
        known = row.known;
      } in
    batch_of-IsCalm w script (due t a.scheduler) a tier served ((In-due t a.scheduler tier).1 d) e
