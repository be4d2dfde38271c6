-- ===== src/Session/Expiries.antt =====
-- custom_components/carnet_scolaire/session.py: when the timeout is concluded to be short.
use ha_pronote_ng.Prelude.{
  ℕ, ◌+◌, ◌≤◌, ◌<◌, ◌≡◌, ◌≢◌, ◌∙◌, ◌&&◌, refl, subst, inl, inr, true, false, Option, none, some, [],
  ◌∷◌, arith, Bool-cases, suc,
}
use ha_pronote_ng.Limiter.State.{Reading}
use ha_pronote_ng.Session.State.{
  does, probe_interval, short_timeout_evidence, per_batch, Client, SessionManager, Turn, Fault,
}
use ha_pronote_ng.Session.Policy.{effective_strategy, probe_due, inactivity_gap}
use ha_pronote_ng.Session.Measure.{note_expiry}
use ha_pronote_ng.Session.Login.{ensure_client}
use ha_pronote_ng.Session.Run.{
  CallAnswer, Script, asked, handle_protocol_error, served, run_with, run,
}
use ha_pronote_ng.Session.Counts.{is_call, count, ensure_client-Adds}
use ha_pronote_ng.Session.Bounds.{expired}
use ha_pronote_ng.Session.Invariant.{runs, perform}
use ha_pronote_ng.Session.Held.{holding}
use ha_pronote_ng.Session.Stable.{IsStable, all_known, replay-Preserves}
use ha_pronote_ng.Session.Evidence.{Agree, concluded, ensure_client-Agrees, served-Agrees}
use ha_pronote_ng.Session.Timeouts.{ready, sample-Agree, note_expiry-counts}

-- A run that reached the server, and was told that the session was gone.
abbrev pub Expires : Script → SessionManager → Type 0
Expires s m = (expired s.call ≡ true) × (count is_call (run s m).0.deeds ≢ 0)

concluded-expired :
    (a : CallAnswer) (gap : ℕ) (t : Reading) (m : SessionManager)
    → expired a ≡ true
    → concluded a gap t m ≡ note_expiry t m
unfolding concluded expired
concluded-expired (CallAnswer.protocol code) gap t m e = rw e refl
concluded-expired (CallAnswer.result calls) gap t m e = cc
concluded-expired CallAnswer.deferred gap t m e = cc
concluded-expired _ gap t m e = cc

run_with-Expires :
    (s : Script) (x : Turn) (o : Option Fault)
    → expired s.call ≡ true
    → count is_call x.deeds ≡ 0
    → count is_call (run_with s (x, o)).0.deeds ≢ 0
    → Agree (note_expiry s.call_at x.manager) (run_with s (x, o)).0.manager
unfolding run_with asked does
run_with-Expires s x (some fault) gone start reached = absurd (reached start)
run_with-Expires s x none gone start reached =
    let gap = inactivity_gap x.at.clock x.manager in
    subst (λ (m : SessionManager). Agree m (run_with s (x, none)).0.manager)
      (concluded-expired s.call gap s.call_at x.manager gone)
      (served-Agrees s gap s.call (asked s.call_at x))

concludes_expiry :
    (s : Script) (m : SessionManager)
    → Expires s m
    → Agree (note_expiry s.call_at (ready s m).manager) (run s m).0.manager
unfolding run count
concludes_expiry s m (gone, reached) =
    let x0 : Turn = record { manager = m; deeds = []; at = s.start } in
    let (n, one, added) = ensure_client-Adds false s.login s.login_at x0 in
    run_with-Expires s (ready s m) (ensure_client false s.login s.login_at x0).1 gone (omega arith)
      reached

-- The short timeout is concluded, and the last probe was at an instant or later.
abbrev Rests : ℕ → SessionManager → Type 0
Rests at m = (m.short_timeout_confirmed ≡ true) × (b : ℕ) × (m.last_probe ≡ some b) × (at ≤ b)

module _ (at : ℕ) where
  holding-Rests : (c : Client) (x : Turn) → Rests at x.manager → Rests at (holding c x)
  unfolding holding probe_due
  holding-Rests c x (confirmed, b, probed, later) =
      elim (Bool-cases (x.manager.short_timeout_confirmed && probe_due x.at.clock x.manager)) [
        | inl e ↦ rw e (confirmed, x.at.clock, refl, ground arith)
        | inr e ↦ rw e (confirmed, b, probed, later)
      ]

  Rests-stable : IsStable (Rests at) (λ c t. Unit) (λ t. Unit)
  Rests-stable = record {
    unavailable = λ m b h. h;
    closed = λ m h. h;
    held = λ c x o h. holding-Rests c x h;
    worked = λ m t o h. h;
  }

  served-Rests :
      (s : Script) (gap : ℕ) (a : CallAnswer) (x : Turn)
      → expired a ≡ true
      → Rests at (note_expiry x.at x.manager)
      → Rests at (served s gap a x).0.manager
  unfolding served handle_protocol_error expired
  served-Rests s gap (CallAnswer.protocol code) x gone h =
      let k =
        replay-Preserves (Rests at) (λ c t. Unit) (λ t. Unit) Rests-stable s x (all_known s) h in
      rw gone k
  served-Rests s gap (CallAnswer.result calls) x gone h = cc
  served-Rests s gap CallAnswer.deferred x gone h = cc
  served-Rests s gap _ x gone h = cc

  run_with-Rests :
      (s : Script) (x : Turn) (o : Option Fault)
      → expired s.call ≡ true
      → count is_call x.deeds ≡ 0
      → count is_call (run_with s (x, o)).0.deeds ≢ 0
      → Rests at (note_expiry s.call_at x.manager)
      → Rests at (run_with s (x, o)).0.manager
  unfolding run_with asked does
  run_with-Rests s x (some fault) gone start reached h = absurd (reached start)
  run_with-Rests s x none gone start reached h =
      served-Rests s (inactivity_gap x.at.clock x.manager) s.call (asked s.call_at x) gone h

-- A run that expires counts one expiry more.
run-Expires :
    (s : Script) (m : SessionManager)
    → Expires s m
    → (run s m).0.manager.consecutive_expiries ≡ suc m.consecutive_expiries
run-Expires s m h =
    let same =
      ensure_client-Agrees false s.login s.login_at
        (record { manager = m; deeds = []; at = s.start }) in
    let agree = concludes_expiry s m h in
    let counted = note_expiry-counts s.call_at (ready s m).manager in
    omega (arith, same.0, agree.0, counted.0)

-- An expiry that is not the third in a row concludes nothing, and the third concludes at its instant.
note_expiry-concludes :
    (t : Reading) (m : SessionManager)
    → m.short_timeout_confirmed ≡ false
    → (suc m.consecutive_expiries < short_timeout_evidence
        → (note_expiry t m).short_timeout_confirmed ≡ false)
      × (short_timeout_evidence ≤ suc m.consecutive_expiries → Rests t.clock (note_expiry t m))
unfolding note_expiry
note_expiry-concludes t m unconfirmed =
    let h = sample-Agree t m in
    (λ few. ground arith, λ many. (ground arith, t.clock, ground arith, omega arith))

-- A run that expires before the third expiry leaves nothing concluded.
run-unconfirmed :
    (s : Script) (m : SessionManager)
    → Expires s m
    → m.short_timeout_confirmed ≡ false
    → suc m.consecutive_expiries < short_timeout_evidence
    → (run s m).0.manager.short_timeout_confirmed ≡ false
run-unconfirmed s m h unconfirmed few =
    let same =
      ensure_client-Agrees false s.login s.login_at
        (record { manager = m; deeds = []; at = s.start }) in
    let agree = concludes_expiry s m h in
    let told = note_expiry-concludes s.call_at (ready s m).manager (same.1 ∙ unconfirmed) in
    agree.1 ∙ told.0 (omega (arith, same.0))

-- A run whose expiry is the third in a row leaves the conclusion of its instant.
run-Rests :
    (s : Script) (m : SessionManager)
    → Expires s m
    → m.short_timeout_confirmed ≡ false
    → short_timeout_evidence ≤ suc m.consecutive_expiries
    → Rests s.call_at.clock (run s m).0.manager
unfolding run count
run-Rests s m (gone, reached) unconfirmed many =
    let x0 : Turn = record { manager = m; deeds = []; at = s.start } in
    let same = ensure_client-Agrees false s.login s.login_at x0 in
    let (n, one, added) = ensure_client-Adds false s.login s.login_at x0 in
    let told = note_expiry-concludes s.call_at (ready s m).manager (same.1 ∙ unconfirmed) in
    run_with-Rests s.call_at.clock s (ready s m) (ensure_client false s.login s.login_at x0).1 gone
      (omega arith) reached (told.1 (omega (arith, same.0)))

resting :
    (clock at : ℕ) (m : SessionManager)
    → Rests at m
    → clock < at + probe_interval
    → effective_strategy clock m ≡ per_batch
unfolding effective_strategy probe_due
resting clock at m (confirmed, b, probed, later) soon = ground arith

-- Three runs in a row that reach the server and are told that the session is gone, of a manager that had
-- counted none before and concluded nothing, make the manager reconnect for each batch, whatever its
-- strategy, until a day after the instant of the third expiry.
pub three_expiries :
    (s1 s2 s3 : Script) (m : SessionManager) (clock : ℕ)
    → m.consecutive_expiries ≡ 0
    → m.short_timeout_confirmed ≡ false
    → Expires s1 m
    → Expires s2 (perform (runs s1 ∷ []) m)
    → Expires s3 (perform (runs s1 ∷ runs s2 ∷ []) m)
    → clock < s3.call_at.clock + probe_interval
    → effective_strategy clock (perform (runs s1 ∷ runs s2 ∷ runs s3 ∷ []) m) ≡ per_batch
unfolding perform
three_expiries s1 s2 s3 m clock start unconfirmed h1 h2 h3 soon =
    let m1 = (run s1 m).0.manager in
    let m2 = (run s2 m1).0.manager in
    let c1 = run-Expires s1 m h1 in
    let c2 = run-Expires s2 m1 h2 in
    let u1 = run-unconfirmed s1 m h1 unconfirmed (omega (arith, start)) in
    let u2 = run-unconfirmed s2 m1 h2 u1 (omega (arith, start, c1)) in
    resting clock s3.call_at.clock (run s3 m2).0.manager
      (run-Rests s3 m2 h3 u2 (omega (arith, start, c1, c2))) soon
