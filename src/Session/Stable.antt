-- ===== src/Session/Stable.antt =====
-- custom_components/carnet_scolaire/session.py: the properties of the manager that a run preserves, from
-- what the writes of its fields preserve.
use ha_pronote_ng.Prelude.{
  ℕ, ◌≡◌, refl, sym, subst, Bool, true, false, ◌&&◌, ◌||◌, Option, none, some, is_some,
  if◌then◌else◌, ◌==◌, [],
}
use ha_pronote_ng.Limiter.State.{Reading, LoginOutcome}
use ha_pronote_ng.Session.State.{Client, SessionManager, Deed, Turn, does, Fault, Ending}
use ha_pronote_ng.Session.Policy.{reconnect_required, inactivity_gap}
use ha_pronote_ng.Session.Measure.{note_unreachable, note_survival, note_expiry}
use ha_pronote_ng.Session.Login.{LoginAnswer, reopen, answered, login, ensure_client}
use ha_pronote_ng.Session.Run.{
  CallAnswer, Script, reconcile, asked, succeeded, blamed, replayed, replay_with,
  replay_on_a_fresh_session, handle_protocol_error, served, run_with, run,
}
use ha_pronote_ng.Prelude.{either}
use ha_pronote_ng.Session.Held.{note_reachable-manager, holding, hold-manager}

-- What the writes of a session preserve; the client that is held was opened, and what worked did so, at
-- instants that are known.
pub record IsStable (P : SessionManager → Type 0) (Login : Client → ℕ → Type 0)
    (Success : ℕ → Type 0) : Type 0 where
  pub unavailable : (m : SessionManager) (b : Bool) → P m → P (record m { unavailable_logged = b })
  pub closed :
      (m : SessionManager)
      → P m
      → P (record m { client = none; opened_at = none; session_batch_id = none })
  pub held : (c : Client) (x : Turn) → Login c x.at.clock → P x.manager → P (holding c x)
  pub worked :
      (m : SessionManager) (at : ℕ) → Success at → P m → P (record m { last_success = some at })

-- The instants of a script are known.
pub record IsKnown (Login : Client → ℕ → Type 0) (Success : ℕ → Type 0) (s : Script) : Type 0 where
  pub first : (c : Client) → s.login ≡ LoginAnswer.opened c → Login c s.login_at.clock
  pub call : (n : Option ℕ) → s.call ≡ CallAnswer.result n → Success s.call_at.clock
  pub second :
      (c : Client) → s.second_login ≡ LoginAnswer.opened c → Login c s.second_login_at.clock
  pub second_call :
      (n : Option ℕ) → s.second_call ≡ CallAnswer.result n → Success s.second_call_at.clock

abbrev pub all_known : (s : Script) → IsKnown (λ c t. Unit) (λ t. Unit) s
all_known s = record {
  first = λ c e. tt;
  call = λ n e. tt;
  second = λ c e. tt;
  second_call = λ n e. tt;
}

module _ (P : SessionManager → Type 0) (Login : Client → ℕ → Type 0) (Success : ℕ → Type 0)
    (stable : IsStable P Login Success) where
  abbrev Preserves : Turn → Turn → Type 0
  Preserves x y = P x.manager → P y.manager

  note_unreachable-Preserves : (x : Turn) → Preserves x (note_unreachable x)
  unfolding note_unreachable does
  note_unreachable-Preserves x h =
      either (λ (y : Turn). P y.manager) x.manager.unavailable_logged _ _ h
        (stable.unavailable x.manager true h)

  succeeded-Preserves : (x : Turn) → Success x.at.clock → Preserves x (succeeded x)
  unfolding succeeded
  succeeded-Preserves x s h =
      let m = record x.manager { last_success = some x.at.clock } in
      subst P (sym (note_reachable-manager (record x { manager = m })))
        (stable.unavailable m false (stable.worked x.manager x.at.clock s h))

  reopen-Preserves : (x : Turn) → Preserves x (reopen x)
  unfolding reopen does
  reopen-Preserves x h =
      let k = stable.closed x.manager h in
      either (λ (y : Turn). P y.manager) (is_some x.manager.client) _ _ k k

  answered-Preserves :
      (a : LoginAnswer) (x : Turn)
      → ((c : Client) → a ≡ LoginAnswer.opened c → Login c x.at.clock)
      → Preserves x (answered a x).0
  unfolding answered does
  answered-Preserves LoginAnswer.unreachable x o h = note_unreachable-Preserves x h
  answered-Preserves (LoginAnswer.opened c) x o h =
      let x1 = does (Deed.notes_login LoginOutcome.success) x in
      either (λ (p : Turn × Option Fault). P p.0.manager) c.logged_in _ _
        (subst P (sym (hold-manager c x1)) (stable.held c x1 (o c refl) h)) h
  answered-Preserves _ x o h = h

  pub ensure_client-Preserves :
      (eager : Bool) (a : LoginAnswer) (t : Reading) (x : Turn)
      → ((c : Client) → a ≡ LoginAnswer.opened c → Login c t.clock)
      → Preserves x (ensure_client eager a t x).0
  unfolding ensure_client login does
  ensure_client-Preserves eager a t x o h =
      let test = is_some x.manager.client && (eager || reconnect_required x.at.clock x.manager) in
      let x1 = if test then reopen x else x in
      let k : P x1.manager =
        either (λ (y : Turn). P y.manager) test (reopen x) x (reopen-Preserves x h) h in
      either (λ (p : Turn × Option Fault). P p.0.manager) (is_some x1.manager.client) (x1, none)
        (login a t x1) k (answered-Preserves a (record (does Deed.asks_login x1) { at = t }) o k)

  reconcile-Preserves :
      (cost : ℕ) (calls : Option ℕ) (x : Turn) → Preserves x (reconcile cost calls x)
  unfolding reconcile does
  reconcile-Preserves cost none x h = h
  reconcile-Preserves cost (some n) x h = h

  replayed-Preserves :
      (cost : ℕ) (a : CallAnswer) (x : Turn)
      → ((calls : Option ℕ) → a ≡ CallAnswer.result calls → Success x.at.clock)
      → Preserves x (replayed cost a x).0
  unfolding replayed blamed does
  replayed-Preserves cost (CallAnswer.result calls) x o h =
      reconcile-Preserves cost calls (succeeded x) (succeeded-Preserves x (o calls refl) h)
  replayed-Preserves cost (CallAnswer.protocol code) x o h = h
  replayed-Preserves cost _ x o h = h

  replay_with-Preserves :
      (s : Script) (x : Turn) (o : Option Fault)
      → IsKnown Login Success s
      → Preserves x (replay_with s (x, o)).0
  unfolding replay_with asked does
  replay_with-Preserves s x (some fault) k h = h
  replay_with-Preserves s x none k h =
      replayed-Preserves s.cost s.second_call (asked s.second_call_at x) k.second_call h

  -- A replay preserves what it has once the expiry is noted.
  pub replay-Preserves :
      (s : Script) (x : Turn)
      → IsKnown Login Success s
      → P (note_expiry x.at x.manager)
      → P (replay_on_a_fresh_session s x).0.manager
  unfolding replay_on_a_fresh_session
  replay-Preserves s x k h =
      let x0 = record x { manager = note_expiry x.at x.manager } in
      let (x1, o) = ensure_client true s.second_login s.second_login_at (reopen x0) in
      replay_with-Preserves s x1 o k (
        ensure_client-Preserves true s.second_login s.second_login_at (reopen x0) k.second
          (reopen-Preserves x0 h))

  module _ (survives : (gap : ℕ) (m : SessionManager) → P m → P (note_survival gap m))
      (expires : (t : Reading) (m : SessionManager) → P m → P (note_expiry t m)) where
    handle-Preserves :
        (s : Script) (code : Option ℕ) (fault : Fault) (x : Turn)
        → IsKnown Login Success s
        → Preserves x (handle_protocol_error s code fault x).0
    unfolding handle_protocol_error blamed does
    handle-Preserves s none fault x k h = h
    handle-Preserves s (some g) fault x k h =
        let Q : Turn × Ending → Type 0 = λ p. P p.0.manager in
        either Q (g == 8 || g == 10) (replay_on_a_fresh_session s x) _
          (replay-Preserves s x k (expires x.at x.manager h))
          (either Q (g == 22) (x, Ending.raised fault) (blamed fault x) h h)

    served-Preserves :
        (s : Script) (gap : ℕ) (a : CallAnswer) (x : Turn)
        → IsKnown Login Success s
        → ((n : Option ℕ) → a ≡ CallAnswer.result n → Success x.at.clock)
        → Preserves x (served s gap a x).0
    unfolding served blamed does handle_protocol_error
    served-Preserves s gap (CallAnswer.result calls) x k o h =
        let x1 = succeeded x in
        reconcile-Preserves s.cost calls (record x1 { manager = note_survival gap x1.manager })
          (survives gap x1.manager (succeeded-Preserves x (o calls refl) h))
    served-Preserves s gap CallAnswer.timed_out x k o h = note_unreachable-Preserves x h
    served-Preserves s gap CallAnswer.unreachable x k o h = note_unreachable-Preserves x h
    served-Preserves s gap (CallAnswer.protocol code) x k o h =
        handle-Preserves s code (Fault.protocol_error code) x k h
    served-Preserves s gap _ x k o h = h

    run_with-Preserves :
        (s : Script) (x : Turn) (o : Option Fault)
        → IsKnown Login Success s
        → Preserves x (run_with s (x, o)).0
    unfolding run_with asked does
    run_with-Preserves s x (some fault) k h = h
    run_with-Preserves s x none k h =
        served-Preserves s (inactivity_gap x.at.clock x.manager) s.call (asked s.call_at x) k k.call
          h

    pub run-Preserves :
        (s : Script) (m : SessionManager) → IsKnown Login Success s → P m → P (run s m).0.manager
    unfolding run
    run-Preserves s m k h =
        let x0 : Turn = record { manager = m; deeds = []; at = s.start } in
        run_with-Preserves s (ensure_client false s.login s.login_at x0).0 _ k
          (ensure_client-Preserves false s.login s.login_at x0 k.first h)
