-- ===== src/Limiter/Admission.antt =====
-- custom_components/carnet_scolaire/ratelimit.py: `call` and `login` as steps of an event loop. The
-- decision, the sleep and the charge happen under the lock `_admission`; while one coroutine sleeps
-- in it, the methods that take no lock may run, and the other callers wait their turn.
pub mod Waits
pub mod Spacing
pub mod Interleaving
pub mod Balance
use ha_pronote_ng.Prelude.{
  ℕ, zero, suc, ◌+◌, ◌≤◌, Bool, Option, none, some, List, [], ◌∷◌, String, if◌then◌else◌, leb,
}
use ha_pronote_ng.Const.{Priority}
use ha_pronote_ng.Limiter.State.{
  RateLimiter, RateLimitConfig, Reading, Verdict, Delay, ticks, forever, LoginOutcome, init,
}
use ha_pronote_ng.Limiter.Quiet.{begin_batch, end_batch}
use ha_pronote_ng.Limiter.Calls.{check, record_requests, reconcile, note_failure, note_success}
use ha_pronote_ng.Limiter.Logins.{may_login, commit_login, note_login, reset_after_reauth}
use ha_pronote_ng.Limiter.Handover.{snapshot_counters}

-- What a coroutine asks of the lock: `call` for a tier, or `login`, and the cost that it declares.
pub data Request : Type 0 where
  call : String → Priority → ℕ → Request
  login : ℕ → Request

abbrev pub cost_of : Request → ℕ
cost_of (call tier priority cost) = cost
cost_of (login cost) = cost

-- The holder of the lock, asleep: `wake_at` is when its sleep ends, `none` if it never does.
pub record Sleeper : Type 0 where
  pub request : Request
  pub wake_at : Option ℕ

-- The moment at which requests left for the network, and how many were declared.
pub record Departure : Type 0 where
  pub at : ℕ
  pub cost : ℕ

pub record System : Type 0 where
  pub limiter : RateLimiter
  pub asleep : Option Sleeper
  pub sent : List Departure

pub data Event : Type 0 where
  ask : Request → Event
  wake cancelled : Event
  succeeded : Event
  failed : ℕ → Event
  login_ended : LoginOutcome → ℕ → Bool → ℕ → Event
  reconciled : String → ℕ → ℕ → Event
  reauthenticated batch_begun batch_ended observed : Event

-- `self.check(tier, priority, cost=float(cost))` or `self.may_login(cost=cost)`
unfoldable pub decide : Reading → Request → RateLimiter → RateLimiter × Verdict
decide t (call tier priority cost) s = check t priority cost s
decide t (login cost) s = may_login t cost s

-- `self.commit(tier, cost)` or `self._commit_login(cost)`
unfoldable pub commit : Reading → Request → RateLimiter → RateLimiter
commit t (call tier priority cost) s = record_requests t tier cost s
commit t (login cost) s = commit_login t cost s

-- The end of the locked block: the charge, the release of the lock, and the departure.
unfoldable pub depart : Reading → Request → System → System
depart t q y = record {
  limiter = commit t q y.limiter;
  asleep = none;
  sent = record { at = t.clock; cost = cost_of q } ∷ y.sent;
}

-- The wait of an admitted request: none, a sleep, or a sleep without end.
unfoldable pub settle : Reading → Request → Delay → System → System
settle t q (ticks zero) y = depart t q y
settle t q (ticks (suc n)) y = record y {
  asleep = some (record { request = q; wake_at = some (t.clock + suc n) });
}
settle t q forever y = record y { asleep = some (record { request = q; wake_at = none }) }

-- The start of the locked block. A refusal raises `TierDeferred` or `LoginRefusedByLimiter`.
unfoldable pub enter : Reading → Request → System → System
enter t q y =
    let (s, verdict) = decide t q y.limiter in
    if verdict.allowed
    then settle t q verdict.wait (record y { limiter = s })
    else record y { limiter = s }

-- A caller enters when the lock is free; while it is held, asking changes nothing.
unfoldable pub enter_if_free : Reading → Request → Option Sleeper → System → System
enter_if_free t q none y = enter t q y
enter_if_free t q (some sleeper) y = y

-- The sleep ends at its time or later.
unfoldable pub wake_at_time : Reading → Sleeper → System → Option ℕ → System
wake_at_time t sleeper y none = y
wake_at_time t sleeper y (some at) = if leb at t.clock then depart t sleeper.request y else y

unfoldable pub wake_if_due : Reading → Option Sleeper → System → System
wake_if_due t none y = y
wake_if_due t (some sleeper) y = wake_at_time t sleeper y sleeper.wake_at

unfoldable pub step : Reading → Event → System → System
step t (ask q) y = enter_if_free t q y.asleep y
step t wake y = wake_if_due t y.asleep y
step t cancelled y = record y { asleep = none }
step t succeeded y = record y { limiter = note_success t y.limiter }
step t (failed r) y = record y { limiter = note_failure t r y.limiter }
step t (login_ended outcome used guarded r) y = record y {
  limiter = note_login t outcome used guarded r y.limiter;
}
step t (reconciled tier charged actual) y = record y {
  limiter = reconcile t tier charged actual y.limiter;
}
step t reauthenticated y = record y { limiter = reset_after_reauth y.limiter }
step t batch_begun y = record y { limiter = begin_batch t y.limiter }
step t batch_ended y = record y { limiter = end_batch y.limiter }
step t observed y = record y { limiter = (snapshot_counters t y.limiter).0 }

-- A schedule: what happens, each with the clocks that it reads.
unfoldable pub run : List (Reading × Event) → System → System
run [] y = y
run ((t, e) ∷ rest) y = run rest (step t e y)

unfoldable pub start : RateLimitConfig → Reading → System
start c t = record { limiter = init c t; asleep = none; sent = [] }

-- The monotonic clock of a schedule never goes back.
abbrev pub Ordered : ℕ → List (Reading × Event) → Type 0
Ordered clock [] = Unit
Ordered clock ((t, e) ∷ rest) = (clock ≤ t.clock) × Ordered t.clock rest
