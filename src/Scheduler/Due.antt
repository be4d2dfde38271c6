-- ===== src/Scheduler/Due.antt =====
-- custom_components/carnet_scolaire/scheduler.py: which tiers are due, in which order, and how old their
-- data is.
use mathlib.Core.Option
use ha_pronote_ng.Prelude.{
  ℕ, ◌+◌, ◌-◌, ◌*◌, max, Bool, true, false, not, ◌&&◌, ◌||◌, Option, none, some, ltb, leb, List, [],
  ◌∷◌, map, ◌==◌, if◌then◌else◌,
}
use ha_pronote_ng.Prelude.Int.{ℤ, pos, sub_ℕ, ltb_ℤ}
use ha_pronote_ng.Const.{Tier, name_order, all_tiers, priority_rank}
use ha_pronote_ng.Scheduler.State.{TierPlan, interval, TierState, Instant, FetchScheduler}

-- By how much a tier is overdue: `float("inf")`, or a number of microseconds, negative before the
-- deadline.
pub data Overdue : Type 0 where
  infinitely : Overdue
  by : ℤ → Overdue

unfoldable pub overdue : Instant → TierPlan → TierState → Overdue
overdue t plan st = elim st.last_collected [
  | none ↦ infinitely
  | some at ↦ by (sub_ℕ t.clock (at + interval plan))
]

-- `overdue < 0`
unfoldable pub early : Overdue → Bool
early infinitely = false
early (by d) = ltb_ℤ d (pos 0)

-- `-a < -b`, that is, `b < a`
unfoldable pub more_overdue : Overdue → Overdue → Bool
more_overdue infinitely infinitely = false
more_overdue infinitely (by e) = true
more_overdue (by d) infinitely = false
more_overdue (by d) (by e) = ltb_ℤ e d

-- The rank that a tier is served by; a boost raises it by one, to the rank below critical at most.
unfoldable pub served_rank : TierPlan → TierState → ℕ
served_rank plan st =
    if st.boosted then max 1 (priority_rank plan.priority - 1) else priority_rank plan.priority

pub record Candidate : Type 0 where
  pub rank : ℕ
  pub late : Overdue
  pub tier : Tier

-- Whether a tier with this plan and state is a candidate.
unfoldable pub is_due : Instant → TierPlan → TierState → Bool
is_due t plan st =
    plan.enabled
    && not (ltb t.clock st.not_before)
    && not (early (overdue t plan st) && not st.boosted)

abbrev pub candidate :
    Instant → Tier → Option TierPlan → Option TierState → List Candidate → List Candidate
candidate t tier none state rest = rest
candidate t tier (some plan) none rest = rest
candidate t tier (some plan) (some st) rest =
    if is_due t plan st
    then record { rank = served_rank plan st; late = overdue t plan st; tier = tier } ∷ rest
    else rest

-- The loop of `due`.
unfoldable pub candidates : Instant → FetchScheduler → List Tier → List Candidate
candidates t s [] = []
candidates t s (tier ∷ tiers) =
    candidate t tier (s.plans tier) (s.states tier) (candidates t s tiers)

-- `(rank, -overdue, tier.value)` in lexicographic order
unfoldable pub before : Candidate → Candidate → Bool
before a b =
    ltb a.rank b.rank
    || (a.rank == b.rank
        && (more_overdue a.late b.late
            || (not (more_overdue b.late a.late) && leb (name_order a.tier) (name_order b.tier))))

unfoldable pub insert : Candidate → List Candidate → List Candidate
insert a [] = a ∷ []
insert a (b ∷ bs) = if before a b then a ∷ b ∷ bs else b ∷ insert a bs

-- `candidates.sort(key=…)`: no two candidates have the same key, so the sorted list is one
unfoldable pub sort : List Candidate → List Candidate
sort [] = []
sort (a ∷ as_) = insert a (sort as_)

-- `due`
unfoldable pub due : Instant → FetchScheduler → List Tier
due t s = map (λ c. c.tier) (sort (candidates t s all_tiers))

-- The deadline of a tier in `next_due_in`.
unfoldable pub due_at : Instant → TierPlan → TierState → ℕ
due_at t plan st = elim st.last_collected [
  | none ↦ max t.clock st.not_before
  | some at ↦ max (at + interval plan) st.not_before
]

abbrev sooner : Option ℕ → ℕ → Option ℕ
sooner none at = some at
sooner (some best) at = if ltb at best then some at else some best

abbrev next_deadline_of : Instant → Option TierPlan → Option TierState → Option ℕ → Option ℕ
next_deadline_of t none state best = best
next_deadline_of t (some plan) none best = best
next_deadline_of t (some plan) (some st) best =
    if plan.enabled then sooner best (due_at t plan st) else best

-- The loop of `next_due_in`, on deadlines rather than on what remains until them.
unfoldable pub next_deadline : Instant → FetchScheduler → List Tier → Option ℕ → Option ℕ
next_deadline t s [] best = best
next_deadline t s (tier ∷ tiers) best =
    next_deadline t s tiers (next_deadline_of t (s.plans tier) (s.states tier) best)

-- `next_due_in`
unfoldable pub next_due_in : Instant → FetchScheduler → Option ℤ
next_due_in t s = Option.map (λ at. sub_ℕ at t.clock) (next_deadline t s all_tiers none)

-- `last_collected`
unfoldable pub last_collected : Tier → FetchScheduler → Option ℕ
last_collected tier s = Option.bind (s.states tier) (λ st. st.last_collected)

-- `tier in boosted_tiers()`
unfoldable pub is_boosted : Tier → FetchScheduler → Bool
is_boosted tier s = elim (s.states tier) [ none ↦ false | some st ↦ st.boosted ]

-- `failures`
unfoldable pub failures : Tier → FetchScheduler → ℕ
failures tier s = elim (s.states tier) [ none ↦ 0 | some st ↦ st.failures ]

-- `age`
unfoldable pub age : Instant → Tier → FetchScheduler → Option ℕ
age t tier s = Option.map (λ at. t.clock - at) (last_collected tier s)

abbrev stale_by : Option TierPlan → Option ℕ → ℕ → ℕ → Bool
stale_by none age stale_after excused = true
stale_by (some plan) none stale_after excused = false
stale_by (some plan) (some age) stale_after excused =
    ltb (stale_after * interval plan) (age - excused)

-- `is_stale`
unfoldable pub is_stale : Instant → Tier → ℕ → ℕ → FetchScheduler → Bool
is_stale t tier stale_after excused s = stale_by (s.plans tier) (age t tier s) stale_after excused
