-- ===== src/Session/Counts.antt =====
-- custom_components/carnet_scolaire/session.py: how many logins, calls and failures a run makes.
use ha_pronote_ng.Session.Policy.{reconnect_required}
use ha_pronote_ng.Prelude.{
  either, ℕ, ◌+◌, ◌≤◌, suc, ◌≡◌, inl, inr, Bool, true, false, ◌&&◌, ◌||◌, Option, none, some, List,
  [], ◌∷◌, arith, Bool-cases, if◌then◌else◌, is_some,
}
use ha_pronote_ng.Limiter.State.{Reading, LoginOutcome}
use ha_pronote_ng.Session.State.{Client, Deed, Turn, does, Fault}
use ha_pronote_ng.Session.Measure.{note_unreachable, note_reachable}
use ha_pronote_ng.Session.Login.{
  take, mark, LoginAnswer, reopen, persist_rotated_credentials, announce_children, hold, answered,
  login, ensure_client,
}
use ha_pronote_ng.Session.Run.{CallAnswer, reconcile, succeeded, blamed, replayed}

abbrev pub is_login : Deed → Bool
is_login Deed.asks_login = true
is_login _ = false

abbrev pub is_call : Deed → Bool
is_call Deed.asks_call = true
is_call _ = false

-- The limiter adds to its backoff: `note_failure`, which `note_login` calls for a failed transport.
abbrev pub is_failure : Deed → Bool
is_failure Deed.notes_failure = true
is_failure (Deed.notes_login LoginOutcome.transport) = true
is_failure _ = false

-- How many deeds pass a test.
unfoldable pub count : (Deed → Bool) → List Deed → ℕ
count p [] = 0
count p (d ∷ ds) = if p d then suc (count p ds) else count p ds

-- A `PronoteAPIError`, which `_replay_on_a_fresh_session` takes.
unfoldable pub refused_again : CallAnswer → Bool
refused_again (CallAnswer.protocol code) = true
refused_again CallAnswer.expired_object = true
refused_again CallAnswer.child_not_found = true
refused_again _ = false

-- A login that was refused by the server or could not be sent.
unfoldable pub blamed_login : LoginAnswer → Bool
blamed_login (LoginAnswer.protocol code) = true
blamed_login LoginAnswer.unreachable = true
blamed_login _ = false

abbrev pub number : Bool → ℕ
number b = if b then 1 else 0

-- The failures of a login that ended so, if there was one.
unfoldable pub login_failures : Option Fault → LoginAnswer → ℕ
login_failures none a = 0
login_failures (some fault) a = number (blamed_login a)

-- From one turn to another come so many logins, calls and failures.
abbrev pub Adds : ℕ → ℕ → ℕ → Turn → Turn → Type 0
Adds logins calls failures x y =
    (count is_login y.deeds ≡ logins + count is_login x.deeds)
    × (count is_call y.deeds ≡ calls + count is_call x.deeds)
    × (count is_failure y.deeds ≡ failures + count is_failure x.deeds)

module _ (x : Turn) where
  pub note_unreachable-Adds : Adds 0 0 0 x (note_unreachable x)
  unfolding note_unreachable does count
  note_unreachable-Adds = ground arith

  pub note_reachable-Adds : Adds 0 0 0 x (note_reachable x)
  unfolding note_reachable does count
  note_reachable-Adds = ground arith

  pub reopen-Adds : Adds 0 0 0 x (reopen x)
  unfolding reopen does count
  reopen-Adds = ground arith

  pub announce_children-Adds : Adds 0 0 0 x (announce_children x)
  unfolding announce_children does count
  announce_children-Adds = ground arith

  pub persist-Adds : (c : Client) → Adds 0 0 0 x (persist_rotated_credentials c x)
  unfolding persist_rotated_credentials does count
  persist-Adds c = ground arith

pub hold-Adds : (c : Client) (x : Turn) → Adds 0 0 0 x (hold c x)
unfolding hold take mark
hold-Adds c x =
    let x1 = note_reachable (take c x) in
    let x2 = persist_rotated_credentials c (mark x1) in
    let reached = note_reachable-Adds (take c x) in
    let persisted = persist-Adds (mark x1) c in
    let announced = announce_children-Adds x2 in omega arith

pub answered-Adds :
    (a : LoginAnswer) (x : Turn) → Adds 0 0 (login_failures (answered a x).1 a) x (answered a x).0
unfolding answered login_failures blamed_login does count
answered-Adds (LoginAnswer.protocol code) x = omega arith
answered-Adds LoginAnswer.unreachable x = let h = note_unreachable-Adds x in omega arith
answered-Adds (LoginAnswer.opened c) x =
    either (λ (p : Turn × Option Fault). Adds 0 0 (login_failures p.1 (LoginAnswer.opened c)) x p.0)
      c.logged_in _ _ (hold-Adds c (does (Deed.notes_login LoginOutcome.success) x)) (omega arith)
answered-Adds _ x = omega arith

pub login-Adds :
    (a : LoginAnswer) (t : Reading) (x : Turn)
    → Adds 1 0 (login_failures (login a t x).1 a) x (login a t x).0
unfolding login does count
login-Adds a t x =
    let h = answered-Adds a (record (does Deed.asks_login x) { at = t }) in omega arith

-- What `_ensure_client` adds: a login or none, and a failure only where the login fails.
pub ensure_client-Adds :
    (eager : Bool) (a : LoginAnswer) (t : Reading) (x : Turn)
    → (n : ℕ) × (n ≤ 1)
      × Adds n 0 (login_failures (ensure_client eager a t x).1 a) x (ensure_client eager a t x).0
unfolding ensure_client login_failures
ensure_client-Adds eager a t x =
    let test = is_some x.manager.client && (eager || reconnect_required x.at.clock x.manager) in
    let x1 = if test then reopen x else x in
    let same : Adds 0 0 0 x x1 = elim (Bool-cases test) [
      | inl e ↦ rw e (reopen-Adds x)
      | inr e ↦ rw e (omega arith)
    ] in
    let in_again = login-Adds a t x1 in
    elim (Bool-cases (is_some x1.manager.client)) [
      | inl e ↦ (0, omega arith, rw e same)
      | inr e ↦ (1, omega arith, rw e (omega arith))
    ]

pub succeeded-Adds : (x : Turn) → Adds 0 0 0 x (succeeded x)
unfolding succeeded
succeeded-Adds x =
    note_reachable-Adds (record x { manager = record x.manager { last_success = some x.at.clock } })

pub reconcile-Adds :
    (cost : ℕ) (calls : Option ℕ) (x : Turn) → Adds 0 0 0 x (reconcile cost calls x)
unfolding reconcile does count
reconcile-Adds cost none x = omega arith
reconcile-Adds cost (some n) x = omega arith

pub replayed-Adds :
    (cost : ℕ) (a : CallAnswer) (x : Turn)
    → Adds 0 0 (if refused_again a then 1 else 0) x (replayed cost a x).0
unfolding replayed refused_again blamed does count
replayed-Adds cost (CallAnswer.result calls) x =
    let h = succeeded-Adds x in let k = reconcile-Adds cost calls (succeeded x) in omega arith
replayed-Adds cost (CallAnswer.protocol code) x = omega arith
replayed-Adds cost _ x = omega arith
