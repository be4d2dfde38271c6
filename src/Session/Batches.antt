-- ===== src/Session/Batches.antt =====
-- custom_components/carnet_scolaire/session.py: how often one batch logs in.
use ha_pronote_ng.Prelude.{
  ℕ, ◌+◌, ◌≤◌, ◌<◌, ◌≡◌, ◌⊎◌, refl, sym, ap, ◌∙◌, subst, inl, inr, Bool, true, false, Option, none,
  is_some, List, [], ◌∷◌, All, arith, Bool-cases, if◌then◌else◌,
}
use ha_pronote_ng.Const.{hour}
use ha_pronote_ng.Limiter.State.{Reading, LoginOutcome}
use ha_pronote_ng.Session.State.{Client, SessionManager, Deed, Turn, does, Fault}
use ha_pronote_ng.Session.Policy.{inactivity_gap, reconnect_required}
use ha_pronote_ng.Session.Login.{LoginAnswer, reopen, hold, answered, login, ensure_client}
use ha_pronote_ng.Session.Run.{Script, asked, run_with, run}
use ha_pronote_ng.Session.Counts.{is_login, count, Adds, login_failures, login-Adds, reopen-Adds}
use ha_pronote_ng.Session.Bounds.{expired, served-Adds, asked-Adds}
use ha_pronote_ng.Session.Settled.{IsSettled, settled_kept, served-IsSettled, hold-IsSettled}

-- What a run finds in the middle of a batch: the login works, and the server knows the session.
abbrev pub Calm : ℕ → Script → Type 0
Calm t s =
    ((c : Client) × (s.login ≡ LoginAnswer.opened c) × (c.logged_in ≡ true))
    × (expired s.call ≡ false)
    × (t ≤ s.login_at.clock)
    × (t ≤ s.call_at.clock)
    × (s.start.clock < t + hour)

ensure_client-kept :
    (a : LoginAnswer) (t : Reading) (x : Turn)
    → is_some x.manager.client ≡ true
    → reconnect_required x.at.clock x.manager ≡ false
    → ensure_client false a t x ≡ (x, none)
unfolding ensure_client
ensure_client-kept a t x held kept = rw (held, kept, held) refl

if_true : {A : Type 0} (b : Bool) (x y : A) → b ≡ true → (if b then x else y) ≡ x
if_true true x y e = refl
if_true false x y e = cc

reopen-client : (x : Turn) → (reopen x).manager.client ≡ none
unfolding reopen does
reopen-client x = ground arith

-- `_ensure_client` keeps the session, or logs in.
ensure_client-cases :
    (a : LoginAnswer) (t : Reading) (x : Turn)
    → (ensure_client false a t x ≡ (x, none))
      ⊎ ((y : Turn) × Adds 0 0 0 x y × (ensure_client false a t x ≡ login a t y))
unfolding ensure_client
ensure_client-cases a t x = elim (Bool-cases (is_some x.manager.client)) [
  | inl held ↦ elim (Bool-cases (reconnect_required x.at.clock x.manager)) [
    | inl e ↦ inr (reopen x, reopen-Adds x, rw (held, e, reopen-client x) refl)
    | inr e ↦ inl (ensure_client-kept a t x held e)
  ]
  | inr e ↦ inr (x, omega arith, rw (e, e) refl)
]

login-opened :
    (c : Client) (t : Reading) (x : Turn)
    → c.logged_in ≡ true
    → login (LoginAnswer.opened c) t x ≡ (
      hold c (
          does
            (Deed.notes_login LoginOutcome.success)
            (record (does Deed.asks_login x) { at = t })),
      none,
    )
unfolding login answered
login-opened c t x e = if_true c.logged_in _ _ e

module _ (t : ℕ) (s : Script) (calm : Calm t s) where
  run_with-calm :
      (x0 x : Turn) (l : ℕ)
      → Adds l 0 0 x0 x
      → count is_login x0.deeds ≡ 0
      → count is_login (run_with s (x, none)).0.deeds ≡ l
  unfolding run_with
  run_with-calm x0 x l h start =
      let gap = inactivity_gap x.at.clock x.manager in
      let x1 = asked s.call_at x in
      let (n, k, few, once, g) = served-Adds s gap s.call x1 in
      let q = asked-Adds s.call_at x in let none_more = rw calm.1 at few in omega arith

  run_with-IsSettled :
      (x : Turn) → IsSettled t x.manager → IsSettled t (run_with s (x, none)).0.manager
  unfolding run_with asked does
  run_with-IsSettled x settled =
      let gap = inactivity_gap x.at.clock x.manager in
      served-IsSettled t s gap s.call (asked s.call_at x) calm.1 calm.3 settled

  run-IsSettled :
      (m : SessionManager)
      → IsSettled t m
      → (count is_login (run s m).0.deeds ≡ 0) × IsSettled t (run s m).0.manager
  unfolding run count
  run-IsSettled m settled =
      let x0 : Turn = record { manager = m; deeds = []; at = s.start } in
      let e =
        ensure_client-kept s.login s.login_at x0 settled.0
          (settled_kept t s.start.clock m settled calm.4) in
      subst
        (λ (p : Turn × Option Fault).
          (count is_login (run_with s p).0.deeds ≡ 0) × IsSettled t (run_with s p).0.manager)
        (sym e) (run_with-calm x0 x0 0 (omega arith) refl, run_with-IsSettled x0 settled)

  login-calm :
      (y : Turn)
      → (first : Turn) × (login s.login s.login_at y ≡ (first, none))
        × Adds 1 0 0 y first
        × IsSettled t first.manager
  unfolding does login_failures
  login-calm y =
      let (c, opens, in_now) = calm.0 in
      let y1 : Turn =
        does (Deed.notes_login LoginOutcome.success)
          (record (does Deed.asks_login y) { at = s.login_at }) in
      let e : login s.login s.login_at y ≡ (hold c y1, none) =
        ap (λ (a : LoginAnswer). login a s.login_at y) opens ∙ login-opened c s.login_at y in_now in
      (
        hold c y1,
        e,
        subst (λ (p : Turn × Option Fault). Adds 1 0 (login_failures p.1 s.login) y p.0) e
            (login-Adds s.login s.login_at y),
        hold-IsSettled t c y1 calm.2,
      )

  -- A run that logs in leaves a session of its batch.
  run-calm :
      (m : SessionManager)
      → (count is_login (run s m).0.deeds ≡ 0)
        ⊎ ((count is_login (run s m).0.deeds ≡ 1) × IsSettled t (run s m).0.manager)
  unfolding run count
  run-calm m =
      let x0 : Turn = record { manager = m; deeds = []; at = s.start } in
      elim (ensure_client-cases s.login s.login_at x0) [
        | inl e ↦ inl (
            subst (λ (p : Turn × Option Fault). count is_login (run_with s p).0.deeds ≡ 0) (sym e)
              (run_with-calm x0 x0 0 (omega arith) refl))
        | inr (y, same, e) ↦
            let (first, e2, added, settled) = login-calm y in
            let counts : Adds 1 0 0 x0 first = omega arith in
            inr (
              subst
                (λ (p : Turn × Option Fault).
                  (count is_login (run_with s p).0.deeds ≡ 1)
                  × IsSettled t (run_with s p).0.manager)
                (sym (e ∙ e2))
                (run_with-calm x0 first 1 counts refl, run_with-IsSettled first settled))
      ]

-- The logins of the runs of a batch.
unfoldable pub batch_logins : List Script → SessionManager → ℕ
batch_logins [] m = 0
batch_logins (s ∷ scripts) m =
    count is_login (run s m).0.deeds + batch_logins scripts (run s m).0.manager

settled_logins :
    (t : ℕ) (scripts : List Script) (m : SessionManager)
    → All (Calm t) scripts
    → IsSettled t m
    → batch_logins scripts m ≡ 0
unfolding batch_logins
settled_logins t [] m calm settled = refl
settled_logins t (s ∷ scripts) m (calm, rest) settled =
    let (none_now, after) = run-IsSettled t s calm m settled in
    let later = settled_logins t scripts (run s m).0.manager rest after in omega arith

-- Under either strategy, the runs of one batch log in at most once in all, if the batch takes less than an
-- hour, a login works, and no call is told that the session is gone.
pub batch_logins-le_one :
    (t : ℕ) (scripts : List Script) (m : SessionManager)
    → All (Calm t) scripts
    → batch_logins scripts m ≤ 1
unfolding batch_logins
batch_logins-le_one t [] m calm = omega arith
batch_logins-le_one t (s ∷ scripts) m (calm, rest) = elim (run-calm t s calm m) [
  | inl e ↦ let later = batch_logins-le_one t scripts (run s m).0.manager rest in omega arith
  | inr (e, settled) ↦
      let later = settled_logins t scripts (run s m).0.manager rest settled in omega arith
]
