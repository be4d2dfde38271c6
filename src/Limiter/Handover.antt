-- ===== src/Limiter/Handover.antt =====
-- custom_components/carnet_scolaire/ratelimit.py: the state that is handed to the next limiter, and
-- what the diagnostic entities read.
use ha_pronote_ng.Prelude.{
  ◌>>=◌, ℕ, ◌-◌, Bool, false, Option, none, some, List, [], ◌∷◌, ltb, ◌==◌, is_some, some_or,
  length, if◌then◌else◌,
}
use ha_pronote_ng.Prelude.Int.{ℤ, pos_part}
use ha_pronote_ng.Prelude.Dict.{Counts}
use ha_pronote_ng.Const.{LimiterState}
use ha_pronote_ng.Limiter.State.{
  RateLimiter, Reading, DeferReason, credentials_hold, bootstrap_hold, mfa_hold,
}
use ha_pronote_ng.Limiter.Layers.{roll_day, refill}
use ha_pronote_ng.Limiter.Quiet.{in_quiet_hours}
use ha_pronote_ng.Limiter.Holds.{hold_active}
use ha_pronote_ng.Limiter.Logins.{prune_failed_logins}

-- What a mapping holds under a key: nothing, a value of the right kind, or one on which the
-- conversion (`int`, `dict`, iteration, `float`) raises.
pub data Field (A : Type 0) : Type 0 where
  absent : Field A
  given : A → Field A
  malformed : Field A

-- The mapping of `export_state`. A number that is read after `_is_number` is `absent` where there is none,
-- and `malformed` where it is an integer too large for a float. Of `hold_until` that is so for a positive
-- one; a negative one is over, as is zero.
pub record Handover : Type 0 where
  pub day : Option ℕ
  pub calls_today : Field ℕ
  pub calls_by_tier : Field Counts
  pub logins_today : Field ℕ
  pub failed_logins : Field (List (Field ℕ))
  pub consecutive_failures : Field ℕ
  pub hold_until : Field ℕ
  pub hold_reason : Option DeferReason
  pub tokens : Field ℤ
  pub last_call : Field ℤ
  pub refilled : Field ℕ
  pub cap_warning_open : Option Bool

abbrev pub all_given : List ℕ → List (Field ℕ)
all_given [] = []
all_given (n ∷ ns) = given n ∷ all_given ns

-- What becomes of `None` under a key
abbrev pub given_if : Option ℕ → Field ℕ
given_if none = absent
given_if (some n) = given n

-- `[float(at) for at in values if _is_number(at)]`; `none` where `float` raises
unfoldable pub numbers : List (Field ℕ) → Option (List ℕ)
numbers [] = some []
numbers (absent ∷ os) = numbers os
numbers (given n ∷ os) = do ns ← numbers os; some (n ∷ ns)
numbers (malformed ∷ os) = none

-- `export_state`: the new state of the limiter, and the mapping
unfoldable pub export_state : Reading → RateLimiter → RateLimiter × Handover
export_state t s0 =
    let s = refill t (roll_day t s0) in
    (
      s,
      record {
        day = some s.day;
        calls_today = given s.calls_today;
        calls_by_tier = given s.calls_by_tier;
        logins_today = given s.logins_today;
        failed_logins = given (all_given s.failed_logins);
        consecutive_failures = given s.consecutive_failures;
        hold_until = given_if s.hold_until;
        hold_reason = s.hold_reason;
        tokens = given s.tokens;
        last_call = given s.last_call;
        refilled = given s.refilled;
        cap_warning_open = some s.cap_warning_open;
      },
    )

-- `int(state.get(key, default))` and the like; `none` where the conversion raises
unfoldable pub convert : {A : Type 0} → A → Field A → Option A
convert d absent = some d
convert d (given a) = some a
convert d malformed = none

-- The part of `import_state` that a state of the same day contributes.
unfoldable pub import_counters : Handover → RateLimiter → Option RateLimiter
unfolding convert
import_counters h s = do
  calls ← convert 0 h.calls_today
  by_tier ← convert [] h.calls_by_tier
  logins ← convert 0 h.logins_today
  tokens ← convert s.tokens h.tokens
  last ← convert s.last_call h.last_call
  at ← convert s.refilled h.refilled
  some (record s {
    calls_today = calls;
    calls_by_tier = by_tier;
    logins_today = logins;
    cap_warning_open = some_or h.cap_warning_open false;
    tokens = tokens;
    last_call = last;
    refilled = at;
  })

-- `state.get("day", "") == self._day.isoformat()`
unfoldable pub same_day : Handover → RateLimiter → Bool
same_day h s = elim h.day [ none ↦ false | some d ↦ d == s.day ]

-- The hold of a previous instance is adopted while it still runs; `none` where `float` raises.
unfoldable pub import_hold : Reading → Handover → RateLimiter → Option RateLimiter
import_hold t h s = elim h.hold_until [
  | absent ↦ some s
  | malformed ↦ none
  | given until ↦
      if ltb t.clock until
      then some (record s { hold_until = some until; hold_reason = h.hold_reason })
      else some s
]

-- The part of `import_state` that crosses a day boundary.
unfoldable pub import_punitive : Reading → Handover → RateLimiter → Option RateLimiter
unfolding convert
import_punitive t h s = do
  values ← convert [] h.failed_logins
  failed ← numbers values
  failures ← convert 0 h.consecutive_failures
  import_hold t h (record s { failed_logins = failed; consecutive_failures = failures })

-- `import_state`; `none` for the state stands for an empty mapping, `none` as the result for an
-- exception
unfoldable pub import_state : Reading → Option Handover → RateLimiter → Option RateLimiter
import_state t none s = some s
import_state t (some h) s = do
  s' ← (if same_day h s then import_counters h s else some s)
  import_punitive t h s'

-- What `state` shows of a hold.
unfoldable pub hold_state : Option DeferReason → LimiterState
hold_state (some credentials_hold) = LimiterState.credentials_hold
hold_state (some mfa_hold) = LimiterState.credentials_hold
hold_state (some bootstrap_hold) = LimiterState.bootstrap_failed
hold_state _ = LimiterState.backoff

-- `state`
unfoldable pub limiter_state : Reading → RateLimiter → RateLimiter × LimiterState
limiter_state t s0 =
    let (s, held) = hold_active t s0 in
    (
      s,
      if held
          then hold_state s.hold_reason
          else if in_quiet_hours t s
          then LimiterState.quiet_hours
          else if is_some s.throttled_since
          then LimiterState.throttled
          else LimiterState.nominal,
    )

-- The mapping of `snapshot_counters`, with the tokens in units.
pub record Counters : Type 0 where
  pub calls_today : ℕ
  pub calls_by_tier : Counts
  pub logins_today : ℕ
  pub failed_logins_hour : ℕ
  pub daily_cap : ℕ
  pub remaining_today : ℕ
  pub tokens : ℤ
  pub hourly_rate : ℕ
  pub hourly_remaining : ℕ
  pub state : LimiterState
  pub reason : Option DeferReason
  pub consecutive_failures : ℕ
  pub throttled : Bool

-- `snapshot_counters`
unfoldable pub snapshot_counters : Reading → RateLimiter → RateLimiter × Counters
snapshot_counters t s0 =
    let (s1, held) = hold_active t (refill t (roll_day t s0)) in
    let (s, shown) = limiter_state t (prune_failed_logins t s1) in
    (
      s,
      record {
        calls_today = s.calls_today;
        calls_by_tier = s.calls_by_tier;
        logins_today = s.logins_today;
        failed_logins_hour = length s.failed_logins;
        daily_cap = s.config.max_requests_per_day;
        remaining_today = s.config.max_requests_per_day - s.calls_today;
        tokens = s.tokens;
        hourly_rate = s.config.max_requests_per_hour;
        hourly_remaining = pos_part s.tokens;
        state = shown;
        reason = if held then s1.hold_reason else s1.shed_reason;
        consecutive_failures = s.consecutive_failures;
        throttled = is_some s.throttled_since;
      },
    )
