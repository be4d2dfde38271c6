-- ===== src/EdLimiter/Tests.antt =====
-- custom_components/carnet_scolaire/connectors/ecoledirecte/ed_limiter.py: concrete runs of the
-- limiter.
use ha_pronote_ng.Prelude.{
  List, ℕ, ◌+◌, ◌-◌, ◌*◌, ◌≤◌, ◌≡◌, refl, false, none, some, [], ◌∷◌, arith,
}
use ha_pronote_ng.Prelude.Int.{pos, ◌+ℤ◌, ◌-ℤ◌, ◌≤ℤ◌, min_ℤ}
use ha_pronote_ng.Prelude.Dict.{bump}
use ha_pronote_ng.Const.{second, minute, hour, day_length, high, low, quiet_hours_exempt}
use ha_pronote_ng.Limiter.State.{
  RateLimitConfig, Reading, ticks, refuse, credentials_hold, backoff, shed_threshold, max_delay,
  exceeds,
}
use ha_pronote_ng.Limiter.Quiet.{quiet_at}
use ha_pronote_ng.EdLimiter.State.{
  EdRateLimiter, roll_day, refill, spacing, bucket, wait, record_cost, hold_active, in_quiet_hours,
  batch_may_finish,
}
use ha_pronote_ng.EdLimiter.Calls.{
  reaches, sheds, verdict_wait, verdict_cap, verdict_today, verdict, Admission, admit_verdict,
  admit, note_transport_failure,
}
use ha_pronote_ng.EdLimiter.Logins.{login, count_login, note_bad_credentials}
use ha_pronote_ng.EdLimiter.Holds.{ed_guard_refuses, failure_replaces_hold}
use ha_pronote_ng.EdLimiter.Spacing.{admit_spaces}
use ha_pronote_ng.EdLimiter.Waiting.{Move, login_asks, login_admits, ask, enter, move, moves}

abbrev config : RateLimitConfig
config = record {
  min_request_interval = 3 * second;
  max_requests_per_hour = 60;
  burst_size = 10;
  max_requests_per_day = 400;
  max_wait = 30 * second;
  max_logins_per_day = 10;
  max_failed_logins_per_hour = 2;
  credentials_hold = 6 * hour;
  bootstrap_hold = hour;
  backoff_base = minute;
  backoff_max = hour;
  quiet_hours_enabled = false;
  quiet_start = 22 * hour;
  quiet_end = 6 * hour;
}

-- Noon of the third day, and a number of microseconds later.
abbrev after : ℕ → Reading
after n = record { clock = 100 * hour + n; now = 2 * day_length + 12 * hour + n; zone = λ at. at }

-- A second after a request, with a bucket that has four tokens left.
abbrev busy : EdRateLimiter
busy = record {
  config = config;
  last_call = pos (100 * hour - second);
  tokens = pos (4 * hour);
  refilled = 100 * hour;
  day = 2;
  calls_today = 6;
  calls_by_tier = [];
  logins_today = 1;
  failed_logins = (100 * hour - 20 * minute) ∷ [];
  hold_until = none;
  hold_reason = none;
  consecutive_failures = 0;
  throttled_since = none;
  cap_warning_open = false;
  batch_started = none;
  batch_started_in_quiet = false;
}

abbrev served : EdRateLimiter
served = record busy {
  last_call = pos (100 * hour + 2 * second);
  tokens = pos (hour * 3 + 60 * 2 * second);
  refilled = 100 * hour + 2 * second;
  calls_today = 7;
  calls_by_tier = ("news", 1) ∷ [];
}

admit-served : admit (after 0) after "news" high 1 busy ≡ Admission.admitted served
unfolding admit admit_verdict verdict verdict_today verdict_cap verdict_wait wait hold_active
    in_quiet_hours quiet_at sheds shed_threshold reaches roll_day refill spacing bucket record_cost
    max_delay exceeds min_ℤ ◌+ℤ◌ ◌-ℤ◌ quiet_hours_exempt batch_may_finish bump
admit-served = refl

admit_spaces_example :
    pos (3 * second) +ℤ pos (100 * hour - second) ≤ℤ pos (100 * hour + 2 * second)
admit_spaces_example =
    admit_spaces (after 0) after "news" high 1 busy served (λ n. omega arith) admit-served

abbrev logged_in : EdRateLimiter
logged_in = record served {
  tokens = pos (hour * 2 + 60 * 2 * second);
  calls_today = 8;
  calls_by_tier = ("login", 2) ∷ [];
  logins_today = 2;
}

login-logged_in : login (after 0) after 2 busy ≡ Admission.admitted logged_in
unfolding login count_login admit admit_verdict verdict verdict_today verdict_cap verdict_wait wait
    hold_active in_quiet_hours quiet_at sheds shed_threshold reaches roll_day refill spacing bucket
    record_cost max_delay exceeds min_ℤ ◌+ℤ◌ ◌-ℤ◌ quiet_hours_exempt batch_may_finish bump
login-logged_in = refl

-- One login short of the cap, before the two at once that pass it.
abbrev last_left : EdRateLimiter
last_left = record busy { logins_today = 9 }

abbrev both_at_once : List Move
both_at_once =
    login_asks (after 0)
    ∷ login_asks (after 0)
    ∷ login_admits (after 0) after 2
    ∷ login_admits (after minute) (λ n. after (minute + n)) 2
    ∷ []

cap_is_passed :
    (moves both_at_once (record { limiter = last_left; passed = 0 })).limiter.logins_today ≡ 11
unfolding moves move ask enter count_login admit admit_verdict verdict verdict_today verdict_cap
    verdict_wait wait hold_active in_quiet_hours quiet_at sheds shed_threshold reaches roll_day
    refill spacing bucket record_cost max_delay exceeds min_ℤ ◌+ℤ◌ ◌-ℤ◌ quiet_hours_exempt
    batch_may_finish bump
cap_is_passed = refl

ed_guard_refuses_example :
    (verdict (after hour) low 1 (note_bad_credentials (after 0) busy)).1
    ≡ some (refuse (ticks (106 * hour - 101 * hour)) credentials_hold)
ed_guard_refuses_example =
    ed_guard_refuses (after 0) (after hour) low 1 busy (ground arith) (ground arith)

abbrev held : EdRateLimiter
held = record busy { hold_until = some (105 * hour); hold_reason = some credentials_hold }

failure_replaces_hold_example :
    (until : ℕ) × ((note_transport_failure (after 0) false 0 held).0.hold_until ≡ some until)
    × ((note_transport_failure (after 0) false 0 held).0.hold_reason ≡ some backoff)
    × (2 * (until - 100 * hour) ≤ 3 * hour)
failure_replaces_hold_example = failure_replaces_hold (after 0) 0 held (ground arith) (ground arith)
