-- ===== src/Limiter/DayLaws.antt =====
-- custom_components/carnet_scolaire/ratelimit.py: the counters of the day, and quiet hours.
use Prim.Native.Nat.add
use native.Mathlib.Decide.{dec_le}
use ha_pronote_ng.Prelude.{
  ap, subst, ℕ, zero, suc, ◌+◌, ◌-◌, ◌/◌, ◌%◌, ◌≤◌, ◌<◌, min, max, ◌≡◌, refl, false, String, str_eq,
  arith, leb, ltb, if◌then◌else◌,
}
use ha_pronote_ng.Prelude.Dict.{get, get-bump}
use ha_pronote_ng.Const.{second, day_length}
use ha_pronote_ng.Limiter.State.{RateLimitConfig, RateLimiter, Reading, date}
use ha_pronote_ng.Limiter.Layers.{roll_day, refill}
use ha_pronote_ng.Limiter.Quiet.{
  quiet_at, elapsed, quiet_opens, quiet_closes, overlap, quiet_walk, quiet_seconds_between,
  max_quiet_walk_days, next_quiet_end,
}
use ha_pronote_ng.Limiter.Calls.{charge, record_requests}

roll_day-calls :
    (t : Reading) (s : RateLimiter) (j : String)
    → ((roll_day t s).calls_today ≡ (if ltb s.day (date t) then 0 else s.calls_today))
      × (get j (roll_day t s).calls_by_tier
          ≡ (if ltb s.day (date t) then 0 else get j s.calls_by_tier))
      × ((roll_day t s).day ≡ date t)
unfolding roll_day get
roll_day-calls t s j = (ground arith, ground arith, ground arith)

refill-calls :
    (t : Reading) (s : RateLimiter)
    → ((refill t s).calls_today ≡ s.calls_today)
      × ((refill t s).calls_by_tier ≡ s.calls_by_tier)
      × ((refill t s).day ≡ s.day)
unfolding refill
refill-calls t s = (refl, refl, refl)

-- The requests of a day: a charge adds to the total and to its tier alone; a later date first sets
-- every count to zero, and an earlier one (the wall clock stepped back) keeps them all.
record_requests-counts :
    (t : Reading) (tier j : String) (n : ℕ) (s : RateLimiter)
    → ((record_requests t tier n s).calls_today
        ≡ (if ltb s.day (date t) then 0 else s.calls_today) + n)
      × (get j (record_requests t tier n s).calls_by_tier
          ≡ (if ltb s.day (date t) then 0 else get j s.calls_by_tier)
            + (if str_eq tier j then n else 0))
      × ((record_requests t tier n s).day ≡ date t)
unfolding record_requests charge refill
record_requests-counts t tier j n s =
    let rolled = roll_day-calls t s j in
    let bumped = get-bump tier j n (roll_day t s).calls_by_tier in
    (ground arith, ground arith, ground arith)

-- Quiet hours are over at the instant that a call refused for them is told to wait for, which lies
-- within a day: it is the next end of quiet hours, where that is a whole second.
next_quiet_end_over :
    (c : RateLimitConfig) (t : Reading)
    → c.quiet_end < day_length
    → c.quiet_end % second ≡ 0
    → (quiet_at c (next_quiet_end c t % day_length) ≡ false)
      × (t.now < next_quiet_end c t)
      × (next_quiet_end c t ≤ t.now + day_length)
unfolding quiet_at next_quiet_end
next_quiet_end_over c t end whole =
    let e : next_quiet_end c t % day_length ≡ c.quiet_end = ground arith in
    (rw e (ground arith), ground arith, ground arith)

-- The windows of two days in a row do not overlap.
quiet_windows :
    (c : RateLimitConfig) (day : ℕ)
    → c.quiet_start < day_length
    → c.quiet_end < day_length
    → (quiet_closes c day ≤ quiet_opens c (day + 1)) × (quiet_opens c day ≤ quiet_opens c (day + 1))
unfolding quiet_closes quiet_opens
quiet_windows c day hs he = (ground arith, omega arith)

-- The instants that the walk compares: the two ends, and where the windows open and close.
pub data Edge (c : RateLimitConfig) (start end : ℕ) : ℕ → Type 0 where
  begins : Edge c start end start
  ends : Edge c start end end
  opens : (day : ℕ) → Edge c start end (quiet_opens c day)
  closes : (day : ℕ) → Edge c start end (quiet_closes c day)

-- The time zone keeps the order of these instants. (It need not keep that of local times which a
-- change of the clocks skips.)
pub record KeepsOrder (c : RateLimitConfig) (t : Reading) (start end : ℕ) : Type 0 where
  pub ordered : (a b : ℕ) → Edge c start end a → Edge c start end b → a ≤ b → t.zone a ≤ t.zone b

module _ (c : RateLimitConfig) (start end : ℕ) where
  Edge-max : (a b : ℕ) → Edge c start end a → Edge c start end b → Edge c start end (max a b)
  Edge-max a b ea eb = elim (dec_le a b) [
    | yes le ↦ subst (λ (x : ℕ). Edge c start end x) (omega arith) eb
    | no gt ↦ subst (λ (x : ℕ). Edge c start end x) (omega arith) ea
  ]

  Edge-min : (a b : ℕ) → Edge c start end a → Edge c start end b → Edge c start end (min a b)
  Edge-min a b ea eb = elim (dec_le a b) [
    | yes le ↦ subst (λ (x : ℕ). Edge c start end x) (omega arith) ea
    | no gt ↦ subst (λ (x : ℕ). Edge c start end x) (omega arith) eb
  ]

module _ (c : RateLimitConfig) (t : Reading) (start end : ℕ) (hs : c.quiet_start < day_length)
    (he : c.quiet_end < day_length) (keeps : KeepsOrder c t start end) where
  overlap-le :
      (day rest : ℕ)
      → rest ≤ t.zone end - t.zone (max (quiet_opens c (day + 1)) start)
      → overlap c t start end day + rest ≤ t.zone end - t.zone (max (quiet_opens c day) start)
  unfolding overlap elapsed
  overlap-le day rest h =
      let (apart, later) = quiet_windows c day hs he in
      let from = max (quiet_opens c day) start in
      let next = max (quiet_opens c (day + 1)) start in
      let until = min (quiet_closes c day) end in
      let e₁ = Edge-max c start end (quiet_opens c day) start (opens day) begins in
      let e₂ = Edge-max c start end (quiet_opens c (day + 1)) start (opens (day + 1)) begins in
      let e₃ = Edge-min c start end (quiet_closes c day) end (closes day) ends in
      let m₁ = keeps.ordered from next e₁ e₂ (omega arith) in
      let m₂ = keeps.ordered until next e₃ e₂ (omega arith) in
      let m₃ = keeps.ordered until end e₃ ends (omega arith) in ground arith

  -- The walk adds up to no more than the time from where it begins.
  quiet_walk-le :
      (left day : ℕ)
      → quiet_walk c t start end left day ≤ t.zone end - t.zone (max (quiet_opens c day) start)
  unfolding quiet_walk
  quiet_walk-le zero day = omega arith
  quiet_walk-le (suc left) day =
      let ih =
        overlap-le day (quiet_walk c t start end left (day + 1)) (quiet_walk-le left (day + 1)) in
      ground arith

-- Where the time zone keeps the order of the instants that are compared, the quiet time between two
-- instants is at most the time that elapsed between them.
pub quiet_seconds_between-le :
    (c : RateLimitConfig) (t : Reading) (start end : ℕ)
    → c.quiet_start < day_length
    → c.quiet_end < day_length
    → KeepsOrder c t start end
    → quiet_seconds_between c t start end ≤ elapsed t start end
unfolding quiet_seconds_between elapsed
quiet_seconds_between-le c t start end hs he keeps =
    let first = start / day_length - 1 in
    let walk = quiet_walk-le c t start end hs he keeps (max_quiet_walk_days + 1) first in
    let e = Edge-max c start end (quiet_opens c first) start (opens first) begins in
    let m = keeps.ordered start (max (quiet_opens c first) start) begins e (omega arith) in
    ground arith

quiet_walk-more :
    (c : RateLimitConfig) (t : Reading) (start end left more day : ℕ)
    → end / day_length < day + left
    → quiet_walk c t start end (left + more) day ≡ quiet_walk c t start end left day
unfolding quiet_walk
quiet_walk-more c t start end zero zero day h = refl
quiet_walk-more c t start end zero (suc more) day h = rw add.zero (ground arith)
quiet_walk-more c t start end (suc left) more day h = rw add.suc (
    ap (λ (rest : ℕ). if leb day (end / day_length) then overlap c t start end day + rest else 0)
      (quiet_walk-more c t start end left more (day + 1) (omega arith)))

-- The cap on the days walked cuts nothing from an interval that ends within 399 days of its start: a
-- walk of any more days gives the same.
pub quiet_walk_enough :
    (c : RateLimitConfig) (t : Reading) (start end more : ℕ)
    → end / day_length ≤ start / day_length + 399
    → quiet_walk c t start end (max_quiet_walk_days + 1 + more) (start / day_length - 1)
      ≡ quiet_walk c t start end (max_quiet_walk_days + 1) (start / day_length - 1)
quiet_walk_enough c t start end more h =
    quiet_walk-more c t start end (max_quiet_walk_days + 1) more (start / day_length - 1)
      (omega arith)
