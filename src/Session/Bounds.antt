-- ===== src/Session/Bounds.antt =====
-- custom_components/carnet_scolaire/session.py: how often a run may log in and call, and what it charges to
-- the backoff.
use ha_pronote_ng.Prelude.{
  ℕ, ◌+◌, ◌≤◌, ◌≡◌, refl, inl, inr, Bool, true, false, not, ◌||◌, Option, none, some, [], arith,
  Bool-cases, if◌then◌else◌, ◌==◌,
}
use ha_pronote_ng.Limiter.State.{Reading}
use ha_pronote_ng.Session.State.{SessionManager, Turn, does, Fault}
use ha_pronote_ng.Session.Policy.{inactivity_gap}
use ha_pronote_ng.Session.Measure.{note_survival, note_expiry}
use ha_pronote_ng.Session.Login.{reopen, ensure_client}
use ha_pronote_ng.Session.Run.{
  CallAnswer, session_expired_code, Script, asked, succeeded, blamed, replay_with,
  replay_on_a_fresh_session, handle_protocol_error, served, run_with, run,
}
use ha_pronote_ng.Session.Counts.{
  is_login, is_call, is_failure, count, refused_again, blamed_login, number, login_failures, Adds,
  note_unreachable-Adds, reopen-Adds, ensure_client-Adds, succeeded-Adds, reconcile-Adds,
  replayed-Adds,
}

-- The server no longer knows the session.
unfoldable pub expired : CallAnswer → Bool
expired (CallAnswer.protocol code) = session_expired_code code
expired _ = false

-- The answers of the first call that are the server's fault, or that of the way to it.
unfoldable pub charged : CallAnswer → Bool
charged CallAnswer.timed_out = true
charged CallAnswer.unreachable = true
charged (CallAnswer.protocol none) = true
charged (CallAnswer.protocol (some code)) = not (code == 8 || code == 10 || code == 22)
charged _ = false

pub asked-Adds : (t : Reading) (x : Turn) → Adds 0 1 0 x (asked t x)
unfolding asked does count
asked-Adds t x = omega arith

-- The failures after an expiry: those of the second login, or of the second call if there is one.
abbrev replay_failures : Script → ℕ → ℕ
replay_failures s calls =
    if calls == 0
    then number (blamed_login s.second_login)
    else number (refused_again s.second_call)

replay_with-Adds :
    (s : Script) (x0 x : Turn) (o : Option Fault) (l : ℕ)
    → Adds l 0 (login_failures o s.second_login) x0 x
    → (c : ℕ) × (c ≤ 1) × Adds l c (replay_failures s c) x0 (replay_with s (x, o)).0
unfolding replay_with asked login_failures does count
replay_with-Adds s x0 x (some fault) l h = (0, omega arith, h)
replay_with-Adds s x0 x none l h =
    let k = replayed-Adds s.cost s.second_call (asked s.second_call_at x) in
    (1, omega arith, ground arith)

-- A replay logs in at most once and calls at most once.
replay-Adds :
    (s : Script) (x : Turn)
    → (l : ℕ) × (c : ℕ) × (l ≤ 1)
      × (c ≤ 1)
      × Adds l c (replay_failures s c) x (replay_on_a_fresh_session s x).0
unfolding replay_on_a_fresh_session
replay-Adds s x =
    let x0 = record x { manager = note_expiry x.at x.manager } in
    let h = reopen-Adds x0 in
    let (l, one, k) = ensure_client-Adds true s.second_login s.second_login_at (reopen x0) in
    let (y, o) = ensure_client true s.second_login s.second_login_at (reopen x0) in
    let (c, once, q) = replay_with-Adds s x y o l (omega arith) in (l, c, one, once, q)

-- The failures of a run from its first call on, of which the replay makes so many calls.
abbrev pub call_failures : Script → CallAnswer → ℕ → ℕ
call_failures s a calls = if expired a then replay_failures s calls else number (charged a)

pub served-Adds :
    (s : Script) (gap : ℕ) (a : CallAnswer) (x : Turn)
    → (l : ℕ) × (c : ℕ) × (l ≤ number (expired a))
      × (c ≤ number (expired a))
      × Adds l c (call_failures s a c) x (served s gap a x).0
unfolding served handle_protocol_error blamed expired charged does count
served-Adds s gap (CallAnswer.result calls) x =
    let h = succeeded-Adds x in
    let x1 = succeeded x in
    let k = reconcile-Adds s.cost calls (record x1 { manager = note_survival gap x1.manager }) in
    (0, 0, omega arith, omega arith, omega arith)
served-Adds s gap CallAnswer.timed_out x =
    let h = note_unreachable-Adds x in (0, 0, omega arith, omega arith, omega arith)
served-Adds s gap CallAnswer.unreachable x =
    let h = note_unreachable-Adds x in (0, 0, omega arith, omega arith, omega arith)
served-Adds s gap (CallAnswer.protocol none) x = (0, 0, omega arith, omega arith, omega arith)
served-Adds s gap (CallAnswer.protocol (some code)) x =
    elim (Bool-cases (code == 8 || code == 10)) [
      | inl e ↦ let (l, c, one, once, h) = replay-Adds s x in rw e (l, c, one, once, ground arith)
      | inr e ↦ rw e (0, 0, omega arith, omega arith, ground arith)
    ]
served-Adds s gap _ x = (0, 0, omega arith, omega arith, omega arith)

run_with-bounded :
    (s : Script) (x0 x : Turn) (o : Option Fault) (l : ℕ)
    → l ≤ 1
    → Adds l 0 (login_failures o s.login) x0 x
    → count is_login x0.deeds ≡ 0
    → count is_call x0.deeds ≡ 0
    → count is_failure x0.deeds ≡ 0
    → (count is_login (run_with s (x, o)).0.deeds ≤ 1 + number (expired s.call))
      × (count is_call (run_with s (x, o)).0.deeds ≤ 1 + number (expired s.call))
      × (count is_failure (run_with s (x, o)).0.deeds ≡ (
          if count is_call (run_with s (x, o)).0.deeds == 0
          then number (blamed_login s.login)
          else if not (expired s.call)
          then number (charged s.call)
          else if count is_call (run_with s (x, o)).0.deeds == 1
          then number (blamed_login s.second_login)
          else number (refused_again s.second_call)))
unfolding run_with login_failures
run_with-bounded s x0 x (some fault) l one h a b c = ground arith
run_with-bounded s x0 x none l one h a b c =
    let gap = inactivity_gap x.at.clock x.manager in
    let (n, k, few, once, g) = served-Adds s gap s.call (asked s.call_at x) in
    let q = asked-Adds s.call_at x in ground arith

-- One run logs in at most twice and calls at most twice, and no more than once unless the server answered
-- that the session was gone. It adds to the backoff at most once: without a call, if the login was refused
-- by the server or could not be sent; after a call that found the session alive, if that timed out, could
-- not be sent or was refused with a code that is not an expired object; and after one that found the
-- session gone, if the second login was refused or could not be sent, or the replayed call was refused.
pub run-bounded :
    (s : Script) (m : SessionManager)
    → (count is_login (run s m).0.deeds ≤ 1 + number (expired s.call))
      × (count is_call (run s m).0.deeds ≤ 1 + number (expired s.call))
      × (count is_failure (run s m).0.deeds ≡ (
          if count is_call (run s m).0.deeds == 0
          then number (blamed_login s.login)
          else if not (expired s.call)
          then number (charged s.call)
          else if count is_call (run s m).0.deeds == 1
          then number (blamed_login s.second_login)
          else number (refused_again s.second_call)))
unfolding run count
run-bounded s m =
    let x0 : Turn = record { manager = m; deeds = []; at = s.start } in
    let (l, one, h) = ensure_client-Adds false s.login s.login_at x0 in
    let (x, o) = ensure_client false s.login s.login_at x0 in
    run_with-bounded s x0 x o l one h refl refl refl
