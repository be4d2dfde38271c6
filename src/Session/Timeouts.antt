-- ===== src/Session/Timeouts.antt =====
-- custom_components/carnet_scolaire/session.py: when the conclusion that the timeout is short is lifted.
use ha_pronote_ng.Prelude.{
  some_or, ◌⊎◌, ℕ, ◌≤◌, ◌<◌, ◌≡◌, refl, sym, ap, ◌∙◌, inl, inr, true, false, Option, none, some, [],
  arith, Bool-cases, Option-cases, suc,
}
use ha_pronote_ng.Limiter.State.{Reading}
use ha_pronote_ng.Models.Lifetime.{SessionLifetime, observed}
use ha_pronote_ng.Session.State.{does, SessionManager, Turn, Fault, Ending}
use ha_pronote_ng.Session.Policy.{inactivity_gap}
use ha_pronote_ng.Session.Measure.{note_survival, sample, note_expiry, lifting_gap}
use ha_pronote_ng.Session.Login.{ensure_client}
use ha_pronote_ng.Session.Run.{
  CallAnswer, Script, session_expired_code, asked, served, run_with, run,
}
use ha_pronote_ng.Session.Evidence.{Agree, concluded, ensure_client-Agrees, served-Agrees}

-- The turn of a run after `_ensure_client`.
abbrev pub ready : Script → SessionManager → Turn
ready s m =
    (ensure_client false s.login s.login_at (record { manager = m; deeds = []; at = s.start })).0

-- The idle time that `_run_locked` reads.
abbrev pub idle_before : Script → SessionManager → ℕ
idle_before s m = inactivity_gap (ready s m).at.clock (ready s m).manager

-- The value of a call that worked comes back.
Returns : CallAnswer → Ending → Type 0
Returns (CallAnswer.result calls) e = e ≡ Ending.returned calls
Returns _ e = Unit

served-Returns : (s : Script) (gap : ℕ) (a : CallAnswer) (x : Turn) → Returns a (served s gap a x).1
unfolding served Returns
served-Returns s gap (CallAnswer.result calls) x = refl
served-Returns s gap (CallAnswer.protocol code) x = tt
served-Returns s gap _ x = tt

run_with-Agree :
    (s : Script) (x : Turn) (o : Option Fault)
    → Agree x.manager (run_with s (x, o)).0.manager
      ⊎ (Agree
            (concluded s.call (inactivity_gap x.at.clock x.manager) s.call_at x.manager)
            (run_with s (x, o)).0.manager
          × Returns s.call (run_with s (x, o)).1)
unfolding run_with asked does
run_with-Agree s x (some fault) = inl (refl, refl, refl, refl)
run_with-Agree s x none =
    let gap = inactivity_gap x.at.clock x.manager in
    inr (
      served-Agrees s gap s.call (asked s.call_at x),
      served-Returns s gap s.call (asked s.call_at x),
    )

pub sample-Agree :
    (t : Reading) (m : SessionManager)
    → ((sample t m).consecutive_expiries ≡ m.consecutive_expiries)
      × ((sample t m).short_timeout_confirmed ≡ m.short_timeout_confirmed)
unfolding sample
sample-Agree t m = ground arith

-- An expiry counts one more and lifts nothing.
pub note_expiry-counts :
    (t : Reading) (m : SessionManager)
    → ((note_expiry t m).consecutive_expiries ≡ suc m.consecutive_expiries)
      × (m.short_timeout_confirmed ≡ true → (note_expiry t m).short_timeout_confirmed ≡ true)
unfolding note_expiry
note_expiry-counts t m = let h = sample-Agree t m in (ground arith, λ c. ground arith)

-- What lifts the conclusion.
note_survival-lifts :
    (gap : ℕ) (m : SessionManager)
    → m.short_timeout_confirmed ≡ true
    → (note_survival gap m).short_timeout_confirmed ≡ false
    → (0 < lifting_gap m) × (lifting_gap m ≤ gap)
unfolding note_survival lifting_gap
note_survival-lifts gap m c l = ground arith

-- What a run concludes: nothing, or what the answer to its first call tells.
run-Agree :
    (s : Script) (m : SessionManager)
    → Agree (ready s m).manager (run s m).0.manager
      ⊎ (Agree
            (concluded s.call (idle_before s m) s.call_at (ready s m).manager)
            (run s m).0.manager
          × Returns s.call (run s m).1)
unfolding run
run-Agree s m =
    let x0 : Turn = record { manager = m; deeds = []; at = s.start } in
    run_with-Agree s (ensure_client false s.login s.login_at x0).0
      (ensure_client false s.login s.login_at x0).1

-- What lifts the conclusion is a call that worked.
lifted_by :
    (a : CallAnswer) (gap : ℕ) (t : Reading) (m : SessionManager) (e : Ending)
    → Returns a e
    → m.short_timeout_confirmed ≡ true
    → (concluded a gap t m).short_timeout_confirmed ≡ false
    → (calls : Option ℕ) × (e ≡ Ending.returned calls)
      × (a ≡ CallAnswer.result calls)
      × (0 < lifting_gap m)
      × (lifting_gap m ≤ gap)
unfolding concluded Returns
lifted_by (CallAnswer.result calls) gap t m end r c l =
    let (pos, le) = note_survival-lifts gap m c l in (calls, r, refl, pos, le)
lifted_by (CallAnswer.protocol code) gap t m end r c l =
    elim (Bool-cases (session_expired_code code)) [
      | inl e ↦ let k = (note_expiry-counts t m).1 c in let q = rw e at l in cc
      | inr e ↦ let q = rw e at l in cc
    ]
lifted_by CallAnswer.deferred gap t m end r c l = cc
lifted_by _ gap t m end r c l = cc

shortest_of : (o : Option ℕ) → 0 < some_or o 0 → (d : ℕ) × (o ≡ some d) × (d ≡ some_or o 0)
shortest_of none pos = absurd (omega arith)
shortest_of (some d) pos = (d, refl, refl)

lifting_gap-observed :
    (m : SessionManager) → lifting_gap m ≡ some_or (observed m.lifetime.samples) 0
unfolding lifting_gap
lifting_gap-observed m = elim (Option-cases (observed m.lifetime.samples)) [
  | inl e ↦ rw (e, lifting_gap) refl
  | inr (d, e) ↦ rw (e, lifting_gap) refl
]

-- The conclusion that the timeout is short is lifted only by counter-evidence: by a run whose first call
-- worked and whose value came back, before which the session was idle at least as long as the shortest idle
-- time that was measured to end one.
pub lifted_by_evidence :
    (s : Script) (m : SessionManager)
    → m.short_timeout_confirmed ≡ true
    → (run s m).0.manager.short_timeout_confirmed ≡ false
    → (calls : Option ℕ) × (d : ℕ) × ((run s m).1 ≡ Ending.returned calls)
      × (s.call ≡ CallAnswer.result calls)
      × (observed m.lifetime.samples ≡ some d)
      × (0 < d)
      × (d ≤ idle_before s m)
lifted_by_evidence s m confirmed lifted =
    let x0 : Turn = record { manager = m; deeds = []; at = s.start } in
    let x = ready s m in
    let same = ensure_client-Agrees false s.login s.login_at x0 in
    let c : x.manager.short_timeout_confirmed ≡ true = same.1 ∙ confirmed in
    elim (run-Agree s m) [
      | inl agree ↦ let k = sym agree.1 ∙ lifted in cc
      | inr (agree, returns) ↦
          let (calls, came, worked, pos, le) =
            lifted_by s.call (idle_before s m) s.call_at x.manager (run s m).1 returns c
              (sym agree.1 ∙ lifted) in
          let read = lifting_gap-observed x.manager in
          let (d, seen, e) = shortest_of (observed x.manager.lifetime.samples) (omega arith) in
          (
            calls,
            d,
            came,
            worked,
            sym (ap (λ (l : SessionLifetime). observed l.samples) same.2) ∙ seen,
            omega arith,
            omega arith,
          )
    ]
