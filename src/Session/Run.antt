-- ===== src/Session/Run.antt =====
-- custom_components/carnet_scolaire/session.py: one unit of work, from the choice of a client to the replay.
-- `_gate` makes it indivisible.
use ha_pronote_ng.Prelude.{ℕ, Bool, true, false, ◌||◌, Option, none, some, [], ◌==◌, if◌then◌else◌}
use ha_pronote_ng.Limiter.State.{Reading}
use ha_pronote_ng.Session.State.{SessionManager, Deed, Turn, does, Fault, Ending}
use ha_pronote_ng.Session.Policy.{inactivity_gap}
use ha_pronote_ng.Session.Measure.{note_unreachable, note_reachable, note_survival, note_expiry}
use ha_pronote_ng.Session.Login.{LoginAnswer, reopen, ensure_client}

-- What `limiter.call` comes back with, by the first of the `except` clauses of `_run_locked` that takes
-- it: a value of which `calls` is read, or an exception. `ExpiredObject` carries no code.
pub data CallAnswer : Type 0 where
  deferred child_not_found timed_out unreachable expired_object other : CallAnswer
  protocol : Option ℕ → CallAnswer
  result : Option ℕ → CallAnswer

-- `ERROR_PAGE_EXPIRED` and `ERROR_SESSION_EXPIRED`: `SESSION_EXPIRED_CODES`
abbrev pub session_expired_code : Option ℕ → Bool
session_expired_code none = false
session_expired_code (some code) = code == 8 || code == 10

-- What the server and the school answer to a run: to the first login and the first call, and to those of
-- the replay, each with the clocks at which the answer comes.
pub record Script : Type 0 where
  pub start : Reading
  pub cost : ℕ
  pub login : LoginAnswer
  pub login_at : Reading
  pub call : CallAnswer
  pub call_at : Reading
  pub second_login : LoginAnswer
  pub second_login_at : Reading
  pub second_call : CallAnswer
  pub second_call_at : Reading

-- `_reconcile`
unfoldable pub reconcile : ℕ → Option ℕ → Turn → Turn
reconcile charged none x = x
reconcile charged (some actual) x = does (Deed.reconciles charged actual) x

-- The call of the limiter, and the clocks of its answer
unfoldable pub asked : Reading → Turn → Turn
asked t x = record (does Deed.asks_call x) { at = t }

-- `self._last_success = self._clock()` and `_note_reachable`
unfoldable pub succeeded : Turn → Turn
succeeded x =
    note_reachable (record x { manager = record x.manager { last_success = some x.at.clock } })

-- `note_failure`, and the exception
unfoldable pub blamed : Fault → Turn → Turn × Ending
blamed fault x = (does Deed.notes_failure x, Ending.raised fault)

-- The call of `_replay_on_a_fresh_session`
unfoldable pub replayed : ℕ → CallAnswer → Turn → Turn × Ending
replayed cost (result calls) x = (reconcile cost calls (succeeded x), Ending.returned calls)
replayed cost (protocol code) x = blamed (Fault.protocol_error code) x
replayed cost expired_object x = blamed Fault.expired_object x
replayed cost child_not_found x = blamed Fault.child_not_found x
replayed cost deferred x = (x, Ending.raised Fault.tier_deferred)
replayed cost timed_out x = (x, Ending.raised Fault.timed_out)
replayed cost unreachable x = (x, Ending.raised Fault.unreachable)
replayed cost other x = (x, Ending.raised Fault.other)

unfoldable pub replay_with : Script → Turn × Option Fault → Turn × Ending
replay_with s (x, some fault) = (x, Ending.raised fault)
replay_with s (x, none) = replayed s.cost s.second_call (asked s.second_call_at x)

-- `_replay_on_a_fresh_session`
unfoldable pub replay_on_a_fresh_session : Script → Turn → Turn × Ending
replay_on_a_fresh_session s x =
    let x1 = reopen (record x { manager = note_expiry x.at x.manager }) in
    replay_with s (ensure_client true s.second_login s.second_login_at x1)

-- `_handle_protocol_error`, on the code that the exception carries
unfoldable pub handle_protocol_error : Script → Option ℕ → Fault → Turn → Turn × Ending
handle_protocol_error s code fault x =
    if session_expired_code code then replay_on_a_fresh_session s x else elim code [
      | none ↦ blamed fault x
      | some g ↦ if g == 22 then (x, Ending.raised fault) else blamed fault x
    ]

-- The rest of `_run_locked`, after the idle time was read
unfoldable pub served : Script → ℕ → CallAnswer → Turn → Turn × Ending
served s gap deferred x = (x, Ending.raised Fault.tier_deferred)
served s gap child_not_found x = (x, Ending.raised Fault.integration_fault)
served s gap timed_out x = blamed Fault.integration_fault (note_unreachable x)
served s gap unreachable x = blamed Fault.unreachable (note_unreachable x)
served s gap (protocol code) x = handle_protocol_error s code (Fault.protocol_error code) x
served s gap expired_object x = handle_protocol_error s (some 22) Fault.expired_object x
served s gap other x = (x, Ending.raised Fault.other)
served s gap (result calls) x =
    let x1 = succeeded x in
    (
      reconcile s.cost calls (record x1 { manager = note_survival gap x1.manager }),
      Ending.returned calls,
    )

unfoldable pub run_with : Script → Turn × Option Fault → Turn × Ending
run_with s (x, some fault) = (x, Ending.raised fault)
run_with s (x, none) = served s (inactivity_gap x.at.clock x.manager) s.call (asked s.call_at x)

-- `run` and `_run_locked`
unfoldable pub run : Script → SessionManager → Turn × Ending
run s m =
    run_with s
      (ensure_client false s.login s.login_at (record { manager = m; deeds = []; at = s.start }))
