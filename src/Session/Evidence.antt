-- ===== src/Session/Evidence.antt =====
-- custom_components/carnet_scolaire/session.py: what a run changes of the conclusion on the timeout.
use ha_pronote_ng.Prelude.{
  ℕ, ◌≡◌, refl, sym, ap, ◌∙◌, subst, inl, inr, Bool, true, false, ◌&&◌, ◌||◌, Option, none, some,
  is_some, arith, Bool-cases, if◌then◌else◌, ◌==◌,
}
use ha_pronote_ng.Limiter.State.{Reading, LoginOutcome}
use ha_pronote_ng.Models.Lifetime.{SessionLifetime, observed}
use ha_pronote_ng.Session.State.{Client, SessionManager, Deed, Turn, does, Fault}
use ha_pronote_ng.Session.Policy.{reconnect_required}
use ha_pronote_ng.Session.Measure.{note_unreachable, note_survival, note_expiry, lifting_gap}
use ha_pronote_ng.Session.Login.{LoginAnswer, reopen, hold, answered, login, ensure_client}
use ha_pronote_ng.Session.Run.{
  session_expired_code, CallAnswer, Script, reconcile, asked, succeeded, blamed, replayed,
  replay_with, replay_on_a_fresh_session, handle_protocol_error, served,
}
use ha_pronote_ng.Session.Held.{note_reachable-manager, holding, hold-manager}

-- The two managers agree on what was concluded and from what.
abbrev pub Agree : SessionManager → SessionManager → Type 0
Agree m n =
    (n.consecutive_expiries ≡ m.consecutive_expiries)
    × (n.short_timeout_confirmed ≡ m.short_timeout_confirmed)
    × (n.lifetime ≡ m.lifetime)
    × (n.strategy ≡ m.strategy)

abbrev Agrees : Turn → Turn → Type 0
Agrees x y = Agree x.manager y.manager

Agrees-trans : (x y z : Turn) → Agrees x y → Agrees y z → Agrees x z
Agrees-trans x y z h k = (k.0 ∙ h.0, k.1 ∙ h.1, k.2 ∙ h.2, k.3 ∙ h.3)

Agrees-if :
    {B : Type 0} (test : Bool) (x : Turn) (y z : Turn × B)
    → Agrees x y.0
    → Agrees x z.0
    → Agrees x (if test then y else z).0
Agrees-if true x y z h k = h
Agrees-if false x y z h k = k

same_evidence : (m : SessionManager) → Agree m m
same_evidence m = (refl, refl, refl, refl)

note_unreachable-Agrees : (x : Turn) → Agrees x (note_unreachable x)
unfolding note_unreachable does
note_unreachable-Agrees x = ground arith

reopen-Agrees : (x : Turn) → Agrees x (reopen x)
unfolding reopen does
reopen-Agrees x = ground arith

succeeded-Agrees : (x : Turn) → Agrees x (succeeded x)
unfolding succeeded
succeeded-Agrees x =
    let m = record x.manager { last_success = some x.at.clock } in
    subst (Agree x.manager) (sym (note_reachable-manager (record x { manager = m })))
      (refl, refl, refl, refl)

hold-Agrees : (c : Client) (x : Turn) → Agrees x (hold c x)
unfolding holding
hold-Agrees c x = subst (Agree x.manager) (sym (hold-manager c x)) (refl, refl, refl, refl)

answered-Agrees : (a : LoginAnswer) (x : Turn) → Agrees x (answered a x).0
unfolding answered does
answered-Agrees LoginAnswer.unreachable x = note_unreachable-Agrees x
answered-Agrees (LoginAnswer.opened c) x =
    Agrees-if c.logged_in x _ _ (hold-Agrees c (does (Deed.notes_login LoginOutcome.success) x))
      (same_evidence x.manager)
answered-Agrees _ x = same_evidence x.manager

login-Agrees : (a : LoginAnswer) (t : Reading) (x : Turn) → Agrees x (login a t x).0
unfolding login does
login-Agrees a t x = answered-Agrees a (record (does Deed.asks_login x) { at = t })

reconcile-Agrees : (cost : ℕ) (calls : Option ℕ) (x : Turn) → Agrees x (reconcile cost calls x)
unfolding reconcile does
reconcile-Agrees cost none x = same_evidence x.manager
reconcile-Agrees cost (some n) x = same_evidence x.manager

replayed-Agrees : (cost : ℕ) (a : CallAnswer) (x : Turn) → Agrees x (replayed cost a x).0
unfolding replayed blamed does
replayed-Agrees cost (CallAnswer.result calls) x =
    Agrees-trans x (succeeded x) (reconcile cost calls (succeeded x)) (succeeded-Agrees x)
      (reconcile-Agrees cost calls (succeeded x))
replayed-Agrees cost (CallAnswer.protocol code) x = same_evidence x.manager
replayed-Agrees cost _ x = same_evidence x.manager

pub ensure_client-Agrees :
    (eager : Bool) (a : LoginAnswer) (t : Reading) (x : Turn)
    → Agrees x (ensure_client eager a t x).0
unfolding ensure_client
ensure_client-Agrees eager a t x =
    let test = is_some x.manager.client && (eager || reconnect_required x.at.clock x.manager) in
    let x1 = if test then reopen x else x in
    let k : Agrees x x1 = elim (Bool-cases test) [
      | inl e ↦ rw e (reopen-Agrees x)
      | inr e ↦ rw e (same_evidence x.manager)
    ] in
    Agrees-if (is_some x1.manager.client) x (x1, none) (login a t x1) k
      (Agrees-trans x x1 (login a t x1).0 k (login-Agrees a t x1))

replay_with-Agrees : (s : Script) (x : Turn) (o : Option Fault) → Agrees x (replay_with s (x, o)).0
unfolding replay_with asked does
replay_with-Agrees s x (some fault) = same_evidence x.manager
replay_with-Agrees s x none = replayed-Agrees s.cost s.second_call (asked s.second_call_at x)

-- All that a replay concludes is what the expiry tells.
replay-Agrees :
    (s : Script) (x : Turn)
    → Agree (note_expiry x.at x.manager) (replay_on_a_fresh_session s x).0.manager
unfolding replay_on_a_fresh_session
replay-Agrees s x =
    let x0 = record x { manager = note_expiry x.at x.manager } in
    let (x1, o) = ensure_client true s.second_login s.second_login_at (reopen x0) in
    let k = ensure_client-Agrees true s.second_login s.second_login_at (reopen x0) in
    Agrees-trans x0 (reopen x0) (replay_with s (x1, o)).0 (reopen-Agrees x0)
      (Agrees-trans (reopen x0) x1 (replay_with s (x1, o)).0 k (replay_with-Agrees s x1 o))

-- What the answer to the first call concludes, on a manager with an idle time.
unfoldable pub concluded : CallAnswer → ℕ → Reading → SessionManager → SessionManager
concluded (CallAnswer.result calls) gap t m = note_survival gap m
concluded (CallAnswer.protocol code) gap t m =
    if session_expired_code code then note_expiry t m else m
concluded _ gap t m = m

note_survival-Agree :
    (gap : ℕ) (m n : SessionManager) → Agree m n → Agree (note_survival gap m) (note_survival gap n)
unfolding note_survival lifting_gap
note_survival-Agree gap m n h =
    let same : lifting_gap n ≡ lifting_gap m =
      ap (λ (l : SessionLifetime). elim (observed l.samples) [ none ↦ 0 | some d ↦ d ]) h.2 in
    ground arith

pub served-Agrees :
    (s : Script) (gap : ℕ) (a : CallAnswer) (x : Turn)
    → Agree (concluded a gap x.at x.manager) (served s gap a x).0.manager
unfolding served blamed does handle_protocol_error concluded
served-Agrees s gap (CallAnswer.result calls) x =
    let x1 = succeeded x in
    let x2 : Turn = record x1 { manager = note_survival gap x1.manager } in
    let x3 : Turn = record x { manager = note_survival gap x.manager } in
    Agrees-trans x3 x2 (reconcile s.cost calls x2)
      (note_survival-Agree gap x.manager x1.manager (succeeded-Agrees x))
      (reconcile-Agrees s.cost calls x2)
served-Agrees s gap CallAnswer.timed_out x = note_unreachable-Agrees x
served-Agrees s gap CallAnswer.unreachable x = note_unreachable-Agrees x
served-Agrees s gap (CallAnswer.protocol none) x = same_evidence x.manager
served-Agrees s gap (CallAnswer.protocol (some code)) x =
    elim (Bool-cases (code == 8 || code == 10)) [
      | inl e ↦ rw e (replay-Agrees s x)
      | inr e ↦ elim (Bool-cases (code == 22)) [
        | inl q ↦ rw (e, q) (same_evidence x.manager)
        | inr q ↦ rw (e, q) (same_evidence x.manager)
      ]
    ]
served-Agrees s gap _ x = same_evidence x.manager
