-- ===== src/Scheduler/Membership.antt =====
-- custom_components/carnet_scolaire/scheduler.py: which tiers `due` lists.
use ha_pronote_ng.Prelude.Int.{sub_ℕ}
use ha_pronote_ng.Prelude.{
  ℕ, ◌+◌, ◌≤◌, ◌≡◌, ◌⊎◌, ◌↔◌, refl, sym, subst, inl, inr, true, false, Option, none, some, List, [],
  ◌∷◌, map, arith, Bool-cases, Option-cases,
}
use ha_pronote_ng.Const.{
  Tier, all_tiers, session, timetable, homework, news, discussions, marks, attendance, evaluations,
  menus, static, history,
}
use ha_pronote_ng.Scheduler.State.{TierPlan, interval, TierState, Instant, FetchScheduler}
use ha_pronote_ng.Scheduler.Due.{early, by, Candidate, is_due, candidate, candidates, due, overdue}
use ha_pronote_ng.Scheduler.Order.{In, tier_of, In-sort}

-- What makes a tier due: it is enabled, is not put off, and was never collected, carries a boost, or has
-- passed its deadline.
pub record IsDue (t : Instant) (s : FetchScheduler) (tier : Tier) : Type 0 where
  pub plan : TierPlan
  pub state : TierState
  pub planned : s.plans tier ≡ some plan
  pub known : s.states tier ≡ some state
  pub enabled : plan.enabled ≡ true
  pub ready : state.not_before ≤ t.clock
  pub wanted :
      (state.last_collected ≡ none)
      ⊎ (state.boosted ≡ true)
      ⊎ ((at : ℕ) × (state.last_collected ≡ some at) × (at + interval plan ≤ t.clock))

-- The last condition of `IsDue`.
abbrev pub Wanted : Instant → TierPlan → TierState → Type 0
Wanted t plan st =
    (st.last_collected ≡ none)
    ⊎ (st.boosted ≡ true)
    ⊎ ((at : ℕ) × (st.last_collected ≡ some at) × (at + interval plan ≤ t.clock))

module _ (t : Instant) (plan : TierPlan) (st : TierState) where
  not_early :
      (at : ℕ)
      → early (by (sub_ℕ t.clock (at + interval plan))) ≡ false
      → at + interval plan ≤ t.clock
  unfolding early sub_ℕ
  not_early at h = ground arith

  not_early' :
      (at : ℕ)
      → at + interval plan ≤ t.clock
      → early (by (sub_ℕ t.clock (at + interval plan))) ≡ false
  unfolding early sub_ℕ
  not_early' at h = ground arith

  is_due-facts :
      is_due t plan st ≡ true → (plan.enabled ≡ true) × (st.not_before ≤ t.clock) × Wanted t plan st
  unfolding is_due overdue
  is_due-facts h = elim (Option-cases st.last_collected) [
    | inl never ↦ (ground arith, ground arith, inl never)
    | inr (at, e) ↦ elim (Bool-cases st.boosted) [
      | inl boosted ↦ (ground arith, ground arith, inr (inl boosted))
      | inr plain ↦ (ground arith, ground arith, inr (inr (at, e, not_early at (ground arith))))
    ]
  ]

  facts-is_due :
      plan.enabled ≡ true → st.not_before ≤ t.clock → Wanted t plan st → is_due t plan st ≡ true
  unfolding is_due overdue early
  facts-is_due e r (inl never) = ground arith
  facts-is_due e r (inr (inl boosted)) = ground arith
  facts-is_due e r (inr (inr (at, last, over))) = ground (arith, not_early' at over)

-- The row of a tier is due.
abbrev DueRow : Instant → Option TierPlan → Option TierState → Type 0
DueRow t o p =
    (plan : TierPlan) × (st : TierState) × (o ≡ some plan)
    × (p ≡ some st)
    × (is_due t plan st ≡ true)

IsDue-DueRow :
    (t : Instant) (s : FetchScheduler) (x : Tier) → IsDue t s x ↔ DueRow t (s.plans x) (s.states x)
IsDue-DueRow t s x = (
  λ d. (
    d.plan,
    d.state,
    d.planned,
    d.known,
    facts-is_due t d.plan d.state d.enabled d.ready d.wanted,
  ),
  λ (plan, st, o, p, h).
      let (e, r, w) = is_due-facts t plan st h in
      record {
        plan = plan;
        state = st;
        planned = o;
        known = p;
        enabled = e;
        ready = r;
        wanted = w;
      },
)

is_due_clash :
    (t : Instant) (plan plan' : TierPlan) (st st' : TierState)
    → is_due t plan st ≡ false
    → is_due t plan' st' ≡ true
    → some plan ≡ some plan'
    → some st ≡ some st'
    → ⊥
is_due_clash t plan plan' st st' n d o p = cc

In-candidate :
    (t : Instant) (x tier : Tier) (o : Option TierPlan) (p : Option TierState)
    (rest : List Candidate)
    → In x (map tier_of (candidate t tier o p rest))
      ↔ (((x ≡ tier) × DueRow t o p) ⊎ In x (map tier_of rest))
In-candidate t x tier none p rest =
    (λ h. inr h, λ h. elim h [ inl (e, (plan, st, o, _, _)) ↦ cc | inr k ↦ k ])
In-candidate t x tier (some plan) none rest =
    (λ h. inr h, λ h. elim h [ inl (e, (_, st, _, p, _)) ↦ cc | inr k ↦ k ])
In-candidate t x tier (some plan) (some st) rest = elim (Bool-cases (is_due t plan st)) [
  | inl d ↦ rw d (
    λ h. elim h [ inl e ↦ inl (e, (plan, st, refl, refl, d)) | inr k ↦ inr k ],
    λ h. elim h [ inl (e, _) ↦ inl e | inr k ↦ inr k ],
  )
  | inr n ↦ rw n (
    λ h. inr h,
    λ h. elim h [
      | inl (e, (plan', st', o, p, d)) ↦ absurd (is_due_clash t plan plan' st st' n d o p)
      | inr k ↦ k
    ],
  )
]

In-candidates :
    (t : Instant) (s : FetchScheduler) (x : Tier) (tiers : List Tier)
    → In x (map tier_of (candidates t s tiers)) ↔ (In x tiers × DueRow t (s.plans x) (s.states x))
unfolding candidates
In-candidates t s x [] = (λ h. absurd h, λ h. h.0)
In-candidates t s x (tier ∷ tiers) =
    let (f, g) = In-candidate t x tier (s.plans tier) (s.states tier) (candidates t s tiers) in
    let (f', g') = In-candidates t s x tiers in
    (
      λ h. elim (f h) [
        | inl (e, row) ↦
            (inl e, subst (λ (y : Tier). DueRow t (s.plans y) (s.states y)) (sym e) row)
        | inr k ↦ (inr (f' k).0, (f' k).1)
      ],
      λ h. g (elim h.0 [
        | inl e ↦ inl (e, subst (λ (y : Tier). DueRow t (s.plans y) (s.states y)) e h.1)
        | inr k ↦ inr (g' (k, h.1))
      ]),
    )

In-all_tiers : (x : Tier) → In x all_tiers
In-all_tiers session = inl refl
In-all_tiers timetable = inr (inl refl)
In-all_tiers homework = inr (inr (inl refl))
In-all_tiers news = inr (inr (inr (inl refl)))
In-all_tiers discussions = inr (inr (inr (inr (inl refl))))
In-all_tiers marks = inr (inr (inr (inr (inr (inl refl)))))
In-all_tiers attendance = inr (inr (inr (inr (inr (inr (inl refl))))))
In-all_tiers evaluations = inr (inr (inr (inr (inr (inr (inr (inl refl)))))))
In-all_tiers menus = inr (inr (inr (inr (inr (inr (inr (inr (inl refl))))))))
In-all_tiers static = inr (inr (inr (inr (inr (inr (inr (inr (inr (inl refl)))))))))
In-all_tiers history = inr (inr (inr (inr (inr (inr (inr (inr (inr (inr (inl refl))))))))))

-- `due` lists exactly the tiers that are due: enabled, not put off, and never collected, boosted, or past
-- their deadline.
pub In-due : (t : Instant) (s : FetchScheduler) (x : Tier) → In x (due t s) ↔ IsDue t s x
unfolding due
In-due t s x =
    let (f, g) = In-sort x (candidates t s all_tiers) in
    let (f', g') = In-candidates t s x all_tiers in
    let (f₁, g₁) = IsDue-DueRow t s x in (λ h. g₁ (f' (f h)).1, λ d. g (g' (In-all_tiers x, f₁ d)))
