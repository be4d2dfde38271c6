-- ===== src/Limiter/Quiet.antt =====
-- custom_components/carnet_scolaire/ratelimit.py: quiet hours, the waits that end at a time of day,
-- and the batch that may finish inside quiet hours. An aware datetime is its local instant; which
-- side of a repeated hour it stands on (`fold`) is not modelled.
use ha_pronote_ng.Prelude.{
  ℕ, zero, suc, ◌+◌, ◌-◌, ◌*◌, ◌/◌, min, max, Bool, false, not, ◌&&◌, ◌||◌, none, some, ltb, leb,
  ◌==◌, if◌then◌else◌,
}
use ha_pronote_ng.Const.{second, day_length}
use ha_pronote_ng.Limiter.State.{RateLimitConfig, RateLimiter, Reading, date, time_of_day}

-- `BATCH_GRACE_SECONDS`
abbrev pub batch_grace : ℕ
batch_grace = 300 * second

-- `_MAX_QUIET_WALK_DAYS`
abbrev pub max_quiet_walk_days : ℕ
max_quiet_walk_days = 400

-- The window test of `_in_quiet_hours`, for a time of day.
unfoldable pub quiet_at : RateLimitConfig → ℕ → Bool
quiet_at c moment =
    if not c.quiet_hours_enabled
    then false
    else if c.quiet_start == c.quiet_end
    then false
    else if ltb c.quiet_end c.quiet_start
    then leb c.quiet_start moment || ltb moment c.quiet_end
    else leb c.quiet_start moment && ltb moment c.quiet_end

-- `_in_quiet_hours()`
unfoldable pub in_quiet_hours : Reading → RateLimiter → Bool
in_quiet_hours t s = quiet_at s.config (time_of_day t)

-- `_elapsed`, which is positive where the zone keeps the order of the two instants
unfoldable pub elapsed : Reading → ℕ → ℕ → ℕ
elapsed t start end = t.zone end - t.zone start

-- The whole seconds of a time of day: `hour * 3600 + minute * 60 + second`.
abbrev pub whole_seconds : ℕ → ℕ
whole_seconds time = time / second * second

-- `quiet_duration_seconds`
unfoldable pub quiet_duration : RateLimitConfig → ℕ
quiet_duration c =
    if not c.quiet_hours_enabled
    then 0
    else if c.quiet_start == c.quiet_end
    then 0
    else if ltb c.quiet_end c.quiet_start
    then day_length - whole_seconds c.quiet_start + whole_seconds c.quiet_end
    else whole_seconds c.quiet_end - whole_seconds c.quiet_start

-- `_quiet_window`: where the interval that opens on a day begins and ends
unfoldable pub quiet_opens : RateLimitConfig → ℕ → ℕ
quiet_opens c day = day * day_length + c.quiet_start

unfoldable pub quiet_closes : RateLimitConfig → ℕ → ℕ
quiet_closes c day =
    if ltb c.quiet_end c.quiet_start
    then (day + 1) * day_length + c.quiet_end
    else day * day_length + c.quiet_end

-- The part of one day's interval inside `[start, end)`.
unfoldable pub overlap : RateLimitConfig → Reading → ℕ → ℕ → ℕ → ℕ
overlap c t start end day =
    let from = max (quiet_opens c day) start in
    let until = min (quiet_closes c day) end in if ltb from until then elapsed t from until else 0

-- The loop of `quiet_seconds_between`, over the days left to walk.
unfoldable pub quiet_walk : RateLimitConfig → Reading → ℕ → ℕ → ℕ → ℕ → ℕ
quiet_walk c t start end zero day = 0
quiet_walk c t start end (suc left) day =
    let rest = quiet_walk c t start end left (day + 1) in
    if leb day (end / day_length) then overlap c t start end day + rest else 0

-- `quiet_seconds_between`; the loop body runs at most `_MAX_QUIET_WALK_DAYS + 1` times
unfoldable pub quiet_seconds_between : RateLimitConfig → Reading → ℕ → ℕ → ℕ
quiet_seconds_between c t start end =
    if not c.quiet_hours_enabled || leb end start
    then 0
    else if c.quiet_start == c.quiet_end
    then 0
    else quiet_walk c t start end (max_quiet_walk_days + 1) (start / day_length - 1)

-- The local instant of the next midnight.
unfoldable pub next_midnight : Reading → ℕ
next_midnight t = (date t + 1) * day_length

-- `_seconds_to_midnight`
unfoldable pub seconds_to_midnight : Reading → ℕ
seconds_to_midnight t = elapsed t t.now (next_midnight t)

-- The candidate of `_seconds_to_quiet_end`: the next local instant at which quiet hours end. Its
-- microseconds are set to zero.
unfoldable pub next_quiet_end : RateLimitConfig → Reading → ℕ
next_quiet_end c t =
    let candidate = date t * day_length + whole_seconds c.quiet_end in
    if leb candidate t.now then candidate + day_length else candidate

-- `_seconds_to_quiet_end`
unfoldable pub seconds_to_quiet_end : RateLimitConfig → Reading → ℕ
seconds_to_quiet_end c t = elapsed t t.now (next_quiet_end c t)

-- `begin_batch`
unfoldable pub begin_batch : Reading → RateLimiter → RateLimiter
begin_batch t s = record s {
  batch_started = some t.clock;
  batch_started_in_quiet = in_quiet_hours t s;
}

-- `end_batch`
unfoldable pub end_batch : RateLimiter → RateLimiter
end_batch s = record s { batch_started = none; batch_started_in_quiet = false }

-- `_batch_may_finish`
unfoldable pub batch_may_finish : Reading → RateLimiter → Bool
batch_may_finish t s = elim s.batch_started [
  | none ↦ false
  | some started ↦ not s.batch_started_in_quiet && leb (t.clock - started) batch_grace
]
