-- ===== src/Session/Founded.antt =====
-- custom_components/carnet_scolaire/session.py: where the session that is held comes from.
use ha_pronote_ng.Prelude.{
  ℕ, ◌+◌, ◌<◌, ◌≡◌, ◌⊎◌, refl, ap, subst, ◌∙◌, inl, inr, Bool, true, Option, none, some, is_some,
  List, [], ◌∷◌, arith, Bool-cases,
}
use ha_pronote_ng.Limiter.State.{Reading}
use ha_pronote_ng.Session.State.{
  short_timeout_evidence, SessionStrategy, SessionCredentials, Client, SessionManager, init,
}
use ha_pronote_ng.Session.Policy.{begin_batch}
use ha_pronote_ng.Session.Measure.{note_survival, sample, note_expiry}
use ha_pronote_ng.Session.Login.{LoginAnswer}
use ha_pronote_ng.Session.Run.{CallAnswer, Script, run}
use ha_pronote_ng.Session.Held.{holding}
use ha_pronote_ng.Session.Stable.{IsStable, IsKnown, run-Preserves}
use ha_pronote_ng.Session.Invariant.{Step, begins, runs, perform, perform-IsConsistent}

-- A script answers a login with a client at an instant.
abbrev pub LogsIn : Script → Client → ℕ → Type 0
LogsIn s c at =
    ((s.login ≡ LoginAnswer.opened c) × (s.login_at.clock ≡ at))
    ⊎ ((s.second_login ≡ LoginAnswer.opened c) × (s.second_login_at.clock ≡ at))

-- A script answers a login with a client, or a call with a value, at an instant.
abbrev pub Succeeds : Script → ℕ → Type 0
Succeeds s at =
    ((c : Client) × LogsIn s c at)
    ⊎ ((n : Option ℕ) × (s.call ≡ CallAnswer.result n) × (s.call_at.clock ≡ at))
    ⊎ ((n : Option ℕ) × (s.second_call ≡ CallAnswer.result n) × (s.second_call_at.clock ≡ at))

-- Among the steps, of which the first meets the batch given, one is a run in a batch whose login is
-- answered with a client at an instant.
abbrev pub Opened : List Step → ℕ → Client → ℕ → ℕ → Type 0
Opened [] now c at batch = ⊥
Opened (begins ∷ steps) now c at batch = Opened steps (now + 1) c at batch
Opened (runs s ∷ steps) now c at batch =
    (LogsIn s c at × (batch ≡ now)) ⊎ Opened steps now c at batch

-- Among the steps one is a run with a success at an instant.
abbrev pub Worked : List Step → ℕ → Type 0
Worked [] at = ⊥
Worked (begins ∷ steps) at = Worked steps at
Worked (runs s ∷ steps) at = Succeeds s at ⊎ Worked steps at

-- No session is held, or one that was opened at the instant and for the batch that are kept, and the
-- instant of the last success is that of a success.
abbrev pub IsFounded :
    (Born : Client → ℕ → ℕ → Type 0) → (Success : ℕ → Type 0) → SessionManager → Type 0
IsFounded Born Success m =
    ((m.client ≡ none) × (m.opened_at ≡ none) × (m.session_batch_id ≡ none))
    ⊎ ((c : Client) × (at : ℕ) × (batch : ℕ) × (last : ℕ) × (m.client ≡ some c)
        × (m.opened_at ≡ some at)
        × (m.session_batch_id ≡ some batch)
        × (m.last_success ≡ some last)
        × Born c at batch
        × Success last)

-- The same session is held.
abbrev SameSession : SessionManager → SessionManager → Type 0
SameSession m n =
    (n.client ≡ m.client)
    × (n.opened_at ≡ m.opened_at)
    × (n.session_batch_id ≡ m.session_batch_id)
    × (n.last_success ≡ m.last_success)
    × (n.batch_id ≡ m.batch_id)

note_survival-SameSession : (gap : ℕ) (m : SessionManager) → SameSession m (note_survival gap m)
unfolding note_survival
note_survival-SameSession gap m = ground arith

sample-SameSession : (t : Reading) (m : SessionManager) → SameSession m (sample t m)
unfolding sample
sample-SameSession t m = ground arith

note_expiry-SameSession : (t : Reading) (m : SessionManager) → SameSession m (note_expiry t m)
unfolding note_expiry
note_expiry-SameSession t m = ground (arith, sample-SameSession t m)

module _ (Born : Client → ℕ → ℕ → Type 0) (Success : ℕ → Type 0) where
  IsFounded-map :
      (Born' : Client → ℕ → ℕ → Type 0) (Success' : ℕ → Type 0) (m : SessionManager)
      → ((c : Client) (at b : ℕ) → Born c at b → Born' c at b)
      → ((at : ℕ) → Success at → Success' at)
      → IsFounded Born Success m
      → IsFounded Born' Success' m
  IsFounded-map Born' Success' m f g (inl h) = inl h
  IsFounded-map Born' Success' m f g (inr (c, at, b, w, e1, e2, e3, e4, born, s)) =
      inr (c, at, b, w, e1, e2, e3, e4, f c at b born, g w s)

  -- The manager of a batch, with a founded session.
  abbrev InBatch : ℕ → SessionManager → Type 0
  InBatch now m = (m.batch_id ≡ now) × IsFounded Born Success m

  InBatch-same : (now : ℕ) (m n : SessionManager) → SameSession m n → InBatch now m → InBatch now n
  InBatch-same now m n (a, b, c, d, e) (k, inl (x, y, z)) = (e ∙ k, inl (a ∙ x, b ∙ y, c ∙ z))
  InBatch-same now m n (a, b, c, d, e) (k, inr (l, at, i, w, x, y, z, v, born, s)) =
      (e ∙ k, inr (l, at, i, w, a ∙ x, b ∙ y, c ∙ z, d ∙ v, born, s))

  InBatch-worked :
      (now : ℕ) (m : SessionManager) (t : ℕ)
      → Success t
      → InBatch now m
      → InBatch now (record m { last_success = some t })
  InBatch-worked now m t o (k, inl h) = (k, inl h)
  InBatch-worked now m t o (k, inr (c, at, i, w, x, y, z, v, born, s)) =
      (k, inr (c, at, i, t, x, y, z, refl, born, o))

  InBatch-stable : (now : ℕ) → IsStable (InBatch now) (λ c at. Born c at now × Success at) Success
  unfolding holding
  InBatch-stable now = record {
    unavailable = λ m b h. h;
    closed = λ m h. (h.0, inl (refl, refl, refl));
    held = λ c x o h.
        (h.0, inr (c, x.at.clock, now, x.at.clock, refl, refl, ap some h.0, refl, o.0, o.1));
    worked = λ m t o h. InBatch-worked now m t o h;
  }

  -- A run whose instants are known.
  run-InBatch :
      (s : Script) (now : ℕ) (m : SessionManager)
      → IsKnown (λ c at. Born c at now × Success at) Success s
      → InBatch now m
      → InBatch now (run s m).0.manager
  run-InBatch s now m k h =
      run-Preserves (InBatch now) (λ c at. Born c at now × Success at) Success (InBatch-stable now)
        (λ gap m h. InBatch-same now m (note_survival gap m) (note_survival-SameSession gap m) h)
        (λ t m h. InBatch-same now m (note_expiry t m) (note_expiry-SameSession t m) h) s m k h

-- What was known before a run, and what the run answers.
abbrev BornIn : (Client → ℕ → ℕ → Type 0) → Script → ℕ → Client → ℕ → ℕ → Type 0
BornIn Born s now c at b = Born c at b ⊎ (LogsIn s c at × (b ≡ now))

abbrev SuccessIn : (ℕ → Type 0) → Script → ℕ → Type 0
SuccessIn Success s at = Success at ⊎ Succeeds s at

script-IsKnown :
    (Born : Client → ℕ → ℕ → Type 0) (Success : ℕ → Type 0) (s : Script) (now : ℕ)
    → IsKnown (λ c at. BornIn Born s now c at now × SuccessIn Success s at) (SuccessIn Success s) s
script-IsKnown Born Success s now = record {
  first = λ c e. (inr (inl (e, refl), refl), inr (inl (c, inl (e, refl))));
  call = λ n e. inr (inr (inl (n, e, refl)));
  second = λ c e. (inr (inr (e, refl), refl), inr (inl (c, inr (e, refl))));
  second_call = λ n e. inr (inr (inr (n, e, refl)));
}

perform-IsFounded :
    (Born : Client → ℕ → ℕ → Type 0) (Success : ℕ → Type 0) (steps : List Step) (m : SessionManager)
    → IsFounded Born Success m
    → IsFounded
        (λ c at b. Born c at b ⊎ Opened steps m.batch_id c at b)
        (λ at. Success at ⊎ Worked steps at)
        (perform steps m)
unfolding perform begin_batch
perform-IsFounded Born Success [] m h =
    IsFounded-map Born Success _ _ m (λ c at b k. inl k) (λ at k. inl k) h
perform-IsFounded Born Success (begins ∷ steps) m h =
    perform-IsFounded Born Success steps (begin_batch m) h
perform-IsFounded Born Success (runs s ∷ steps) m h =
    let n = (run s m).0.manager in
    let Born' = BornIn Born s m.batch_id in
    let Success' = SuccessIn Success s in
    let start : IsFounded Born' Success' m =
      IsFounded-map Born Success Born' Success' m (λ c at b k. inl k) (λ at k. inl k) h in
    let (same, k) =
      run-InBatch Born' Success' s m.batch_id m (script-IsKnown Born Success s m.batch_id)
        (refl, start) in
    let rest = perform-IsFounded Born' Success' steps n k in
    IsFounded-map (λ c at b. Born' c at b ⊎ Opened steps n.batch_id c at b)
      (λ at. Success' at ⊎ Worked steps at) _ _ (perform steps n)
      (λ c at b k. elim k [
        | inl (inl old) ↦ inl old
        | inl (inr now) ↦ inr (inl now)
        | inr later ↦ inr (inr (subst (λ i. Opened steps i c at b) same later))
      ])
      (λ at k. elim k [
        | inl (inl old) ↦ inl old
        | inl (inr now) ↦ inr (inl now)
        | inr later ↦ inr (inr later)
      ])
      rest

-- After any batches and runs of a new manager, whatever was answered: no session is held, and no instant and
-- no batch are kept for one; or the client that is held is the answer to a login of one of the runs, the
-- instant and the batch that are kept are those of that login, and the instant of the last success is that
-- of a login or a call that worked. The short timeout is concluded exactly while the instant of a probe is
-- kept, and at the latest after three expiries in a row.
pub perform-IsSound :
    (steps : List Step) (strategy : SessionStrategy) (credentials : SessionCredentials)
    (saves announces : Bool)
    → let m = perform steps (init strategy credentials saves announces) in
      IsFounded (Opened steps 0) (Worked steps) m
      × (m.short_timeout_confirmed ≡ is_some m.last_probe)
      × ((m.short_timeout_confirmed ≡ true) ⊎ (m.consecutive_expiries < short_timeout_evidence))
unfolding init
perform-IsSound steps strategy credentials saves announces =
    let m0 = init strategy credentials saves announces in
    let founded = perform-IsFounded (λ c at b. ⊥) (λ at. ⊥) steps m0 (inl (refl, refl, refl)) in
    let ok = perform-IsConsistent steps m0 (refl, refl, refl, refl, λ e. omega arith) in
    (
      IsFounded-map _ _ (Opened steps 0) (Worked steps) (perform steps m0)
          (λ c at b k. elim k [ inl none_ ↦ elim none_ [ ] | inr o ↦ o ])
          (λ at k. elim k [ inl none_ ↦ elim none_ [ ] | inr o ↦ o ]) founded,
      ok.3,
      elim (Bool-cases (perform steps m0).short_timeout_confirmed) [
        | inl e ↦ inl e
        | inr e ↦ inr (ok.4 e)
      ],
    )
