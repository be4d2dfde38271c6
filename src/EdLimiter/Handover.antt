-- ===== src/EdLimiter/Handover.antt =====
-- custom_components/carnet_scolaire/connectors/ecoledirecte/ed_limiter.py: the state that is handed
-- to the next limiter, and what the diagnostic entities read.
use mathlib.Core.Option
use ha_pronote_ng.Prelude.{
  ◌>>=◌, ℕ, ◌-◌, Bool, false, Option, none, some, List, [], ◌∷◌, ltb, ◌==◌, is_some, length,
  if◌then◌else◌,
}
use ha_pronote_ng.Prelude.Dict.{Counts}
use ha_pronote_ng.Const.{LimiterState}
use ha_pronote_ng.Limiter.State.{DeferReason, credentials_hold, bootstrap_hold, Reading}
use ha_pronote_ng.Limiter.Handover.{Field, absent, given, malformed, given_if, convert}
use ha_pronote_ng.EdLimiter.State.{
  EdRateLimiter, roll_day, prune_failed_logins, hold_active, in_quiet_hours,
}

-- The mapping of `export_state`. An element of `failed_logins` on which `float` raises is `none`. The end of
-- a hold is `absent` where it is no number, and `malformed` where it is an integer too large for a float.
pub record EdHandover : Type 0 where
  pub day : Option ℕ
  pub calls_today : Field ℕ
  pub calls_by_tier : Field Counts
  pub logins_today : Field ℕ
  pub cap_warning_open : Option Bool
  pub failed_logins : Field (List (Option ℕ))
  pub hold_until : Field ℕ
  pub hold_reason : Option DeferReason

abbrev pub somes : List ℕ → List (Option ℕ)
somes [] = []
somes (n ∷ ns) = some n ∷ somes ns

-- `export_state`: the new state of the limiter, and the mapping
unfoldable pub export_state : Reading → EdRateLimiter → EdRateLimiter × EdHandover
export_state t s0 =
    let s = roll_day t s0 in
    (
      s,
      record {
        day = some s.day;
        calls_today = given s.calls_today;
        calls_by_tier = given s.calls_by_tier;
        logins_today = given s.logins_today;
        cap_warning_open = some s.cap_warning_open;
        failed_logins = given (somes s.failed_logins);
        hold_until = given_if s.hold_until;
        hold_reason = s.hold_reason;
      },
    )

-- `[float(value) for value in values]`
unfoldable pub floats : List (Option ℕ) → Option (List ℕ)
floats [] = some []
floats (none ∷ vs) = none
floats (some v ∷ vs) = Option.map (λ ns. v ∷ ns) (floats vs)

-- The counters of the same day, or `none` where a conversion raises.
unfoldable pub import_counters : EdHandover → EdRateLimiter → Option EdRateLimiter
import_counters h s = do
  calls ← convert 0 h.calls_today
  by_tier ← convert [] h.calls_by_tier
  logins ← convert 0 h.logins_today
  some (record s {
    calls_today = calls;
    calls_by_tier = by_tier;
    logins_today = logins;
    cap_warning_open = elim h.cap_warning_open [ none ↦ false | some warned ↦ warned ];
  })

unfoldable pub import_hold : Reading → EdHandover → EdRateLimiter → Option EdRateLimiter
import_hold t h s = elim h.hold_until [
  | absent ↦ some s
  | malformed ↦ none
  | given until ↦
      if ltb t.clock until
      then some (record s { hold_until = some until; hold_reason = h.hold_reason })
      else some s
]

-- `state.get("day") == self._day.isoformat()`
unfoldable pub same_day : EdHandover → EdRateLimiter → Bool
same_day h s = elim h.day [ none ↦ false | some d ↦ d == s.day ]

-- `import_state`; `none` where a conversion raises
unfoldable pub import_state : Reading → EdHandover → EdRateLimiter → Option EdRateLimiter
import_state t h s = do
  s' ← (if same_day h s then import_counters h s else some s)
  values ← convert [] h.failed_logins
  failed ← floats values
  import_hold t h (record s' { failed_logins = failed })

-- What `state` shows of a hold.
unfoldable pub hold_state : Option DeferReason → LimiterState
hold_state (some credentials_hold) = LimiterState.credentials_hold
hold_state (some bootstrap_hold) = LimiterState.bootstrap_failed
hold_state _ = LimiterState.backoff

-- `state`
unfoldable pub limiter_state : Reading → EdRateLimiter → EdRateLimiter × LimiterState
limiter_state t s0 =
    let (s, active) = hold_active t s0 in
    (
      s,
      if active
          then hold_state s.hold_reason
          else if in_quiet_hours t s
          then LimiterState.quiet_hours
          else if is_some s.throttled_since
          then LimiterState.throttled
          else LimiterState.nominal,
    )

pub record Counters : Type 0 where
  pub calls_today : ℕ
  pub calls_by_tier : Counts
  pub logins_today : ℕ
  pub failed_logins_hour : ℕ
  pub daily_cap : ℕ
  pub remaining_today : ℕ
  pub state : LimiterState
  pub reason : Option DeferReason
  pub consecutive_failures : ℕ
  pub throttled : Bool

-- `snapshot_counters`
unfoldable pub snapshot_counters : Reading → EdRateLimiter → EdRateLimiter × Counters
snapshot_counters t s0 =
    let (s1, active) = hold_active t s0 in
    let s2 = prune_failed_logins t (roll_day t s1) in
    let (s, shown) = limiter_state t s2 in
    (
      s,
      record {
        calls_today = s.calls_today;
        calls_by_tier = s.calls_by_tier;
        logins_today = s.logins_today;
        failed_logins_hour = length s.failed_logins;
        daily_cap = s.config.max_requests_per_day;
        remaining_today = s.config.max_requests_per_day - s.calls_today;
        state = shown;
        reason = if active then s1.hold_reason else none;
        consecutive_failures = s.consecutive_failures;
        throttled = is_some s.throttled_since;
      },
    )
