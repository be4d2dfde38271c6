-- ===== src/Session/Settled.antt =====
-- custom_components/carnet_scolaire/session.py: a session that was opened for the batch in progress.
use ha_pronote_ng.Prelude.{
  ℕ, ◌+◌, ◌≤◌, ◌<◌, ◌≡◌, refl, sym, subst, inl, inr, true, false, none, some, is_some, arith,
  Bool-cases, ◌==◌,
}
use ha_pronote_ng.Const.{hour}
use ha_pronote_ng.Session.State.{
  SessionStrategy, lazy, per_batch, Client, SessionManager, Turn, does,
}
use ha_pronote_ng.Session.Policy.{
  effective_strategy, session_is_presumed_dead, of_another_batch, reconnect_required,
}
use ha_pronote_ng.Session.Measure.{note_unreachable, note_survival}
use ha_pronote_ng.Session.Login.{hold}
use ha_pronote_ng.Session.Run.{
  CallAnswer, Script, reconcile, succeeded, blamed, handle_protocol_error, served,
}
use ha_pronote_ng.Session.Held.{note_reachable-manager, holding, hold-manager}
use ha_pronote_ng.Session.Bounds.{expired}

-- A session was opened for the batch, and worked at an instant or later.
abbrev pub IsSettled : ℕ → SessionManager → Type 0
IsSettled t m =
    (is_some m.client ≡ true)
    × (of_another_batch m ≡ false)
    × (at : ℕ) × (t ≤ at)
    × (m.last_success ≡ some at)

pub settled_kept :
    (t clock : ℕ) (m : SessionManager)
    → IsSettled t m
    → clock < t + hour
    → reconnect_required clock m ≡ false
unfolding reconnect_required session_is_presumed_dead
settled_kept t clock m (held, same, at, later, worked) soon =
    let alive : session_is_presumed_dead clock m ≡ false = ground arith in
    rw alive
      (elim (effective_strategy clock m)
        as (λ (e : SessionStrategy).
          elim e [ lazy ↦ false | per_batch ↦ of_another_batch m ] ≡ false) [
            | lazy ↦ refl
            | per_batch ↦ same
          ])

module _ (t : ℕ) where
  note_unreachable-IsSettled :
      (x : Turn) → IsSettled t x.manager → IsSettled t (note_unreachable x).manager
  unfolding note_unreachable does of_another_batch
  note_unreachable-IsSettled x h = ground arith

  succeeded-IsSettled :
      (x : Turn) → t ≤ x.at.clock → IsSettled t x.manager → IsSettled t (succeeded x).manager
  unfolding succeeded of_another_batch
  succeeded-IsSettled x later (held, same, at, l, w) =
      let m = record x.manager { last_success = some x.at.clock } in
      subst (IsSettled t) (sym (note_reachable-manager (record x { manager = m })))
        (held, same, x.at.clock, later, refl)

  note_survival-IsSettled :
      (gap : ℕ) (m : SessionManager) → IsSettled t m → IsSettled t (note_survival gap m)
  unfolding note_survival of_another_batch
  note_survival-IsSettled gap m h = ground arith

  pub hold-IsSettled : (c : Client) (x : Turn) → t ≤ x.at.clock → IsSettled t (hold c x).manager
  unfolding of_another_batch holding
  hold-IsSettled c x later =
      subst (IsSettled t) (sym (hold-manager c x)) (refl, ground arith, x.at.clock, later, refl)

  pub served-IsSettled :
      (s : Script) (gap : ℕ) (a : CallAnswer) (x : Turn)
      → expired a ≡ false
      → t ≤ x.at.clock
      → IsSettled t x.manager
      → IsSettled t (served s gap a x).0.manager
  unfolding served handle_protocol_error blamed does expired reconcile
  served-IsSettled s gap (CallAnswer.result none) x e later h =
      note_survival-IsSettled gap (succeeded x).manager (succeeded-IsSettled x later h)
  served-IsSettled s gap (CallAnswer.result (some n)) x e later h =
      note_survival-IsSettled gap (succeeded x).manager (succeeded-IsSettled x later h)
  served-IsSettled s gap CallAnswer.timed_out x e later h = note_unreachable-IsSettled x h
  served-IsSettled s gap CallAnswer.unreachable x e later h = note_unreachable-IsSettled x h
  served-IsSettled s gap (CallAnswer.protocol none) x e later h = h
  served-IsSettled s gap (CallAnswer.protocol (some code)) x e later h =
      elim (Bool-cases (code == 22)) [ inl q ↦ rw (e, q) h | inr q ↦ rw (e, q) h ]
  served-IsSettled s gap _ x e later h = h
