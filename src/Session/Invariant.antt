-- ===== src/Session/Invariant.antt =====
-- custom_components/carnet_scolaire/session.py: what always holds of the state of the manager.
use ha_pronote_ng.Session.Stable.{IsStable, all_known, run-Preserves}
use ha_pronote_ng.Session.Held.{holding}
use ha_pronote_ng.Prelude.{ℕ, ◌<◌, ◌≡◌, true, false, not, ◌||◌, is_some, List, [], ◌∷◌, arith}
use ha_pronote_ng.Limiter.State.{Reading}
use ha_pronote_ng.Session.State.{short_timeout_evidence, SessionManager}
use ha_pronote_ng.Session.Policy.{begin_batch}
use ha_pronote_ng.Session.Measure.{note_survival, sample, note_expiry}
use ha_pronote_ng.Session.Run.{Script, run}

-- A client is held with an instant at which it was opened, a batch and the instant of a success; the short
-- timeout is confirmed together with the instant of a probe, and before three expiries in a row.
abbrev pub IsConsistent : SessionManager → Type 0
IsConsistent m =
    (is_some m.client ≡ is_some m.opened_at)
    × (is_some m.client ≡ is_some m.session_batch_id)
    × ((not (is_some m.client) || is_some m.last_success) ≡ true)
    × (m.short_timeout_confirmed ≡ is_some m.last_probe)
    × (m.short_timeout_confirmed ≡ false → m.consecutive_expiries < short_timeout_evidence)

note_survival-Keeps :
    (gap : ℕ) (m : SessionManager) → IsConsistent m → IsConsistent (note_survival gap m)
unfolding note_survival
note_survival-Keeps gap m h = ground arith

sample-Keeps : (t : Reading) (m : SessionManager) → IsConsistent m → IsConsistent (sample t m)
unfolding sample
sample-Keeps t m h = ground arith

note_expiry-Keeps :
    (t : Reading) (m : SessionManager) → IsConsistent m → IsConsistent (note_expiry t m)
unfolding note_expiry
note_expiry-Keeps t m h = ground (arith, sample-Keeps t m)

IsConsistent-stable : IsStable IsConsistent (λ c t. Unit) (λ t. Unit)
unfolding holding
IsConsistent-stable = record {
  unavailable = λ m b h. h;
  closed = λ m h. ground arith;
  held = λ c x o h. ground arith;
  worked = λ m t o h. ground arith;
}

pub run-Keeps :
    (s : Script) (m : SessionManager) → IsConsistent m → IsConsistent (run s m).0.manager
run-Keeps s m h =
    run-Preserves IsConsistent (λ c t. Unit) (λ t. Unit) IsConsistent-stable note_survival-Keeps
      note_expiry-Keeps s m (all_known s) h

-- What the account does with a session: it begins a batch, or runs a unit of work.
pub data Step : Type 0 where
  begins : Step
  runs : Script → Step

unfoldable pub perform : List Step → SessionManager → SessionManager
perform [] m = m
perform (begins ∷ steps) m = perform steps (begin_batch m)
perform (runs s ∷ steps) m = perform steps (run s m).0.manager

-- Any batches and runs of a consistent manager, whatever is answered, leave a consistent one.
pub perform-IsConsistent :
    (steps : List Step) (m : SessionManager) → IsConsistent m → IsConsistent (perform steps m)
unfolding perform begin_batch
perform-IsConsistent [] m h = h
perform-IsConsistent (begins ∷ steps) m h = perform-IsConsistent steps (begin_batch m) h
perform-IsConsistent (runs s ∷ steps) m h =
    perform-IsConsistent steps (run s m).0.manager (run-Keeps s m h)
