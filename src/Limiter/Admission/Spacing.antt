-- ===== src/Limiter/Admission/Spacing.antt =====
-- custom_components/carnet_scolaire/ratelimit.py: the spacing of departures, for the parts of a step.
use ha_pronote_ng.Limiter.Logins.{commit_login}
use ha_pronote_ng.Prelude.{
  sym, ℕ, zero, suc, ◌+◌, ◌≤◌, ◌≡◌, refl, ◌∙◌, ap, subst, inl, inr, Option, none, some, List, [],
  ◌∷◌, arith,
}
use ha_pronote_ng.Prelude.Int.{ℤ, pos, ◌≤ℤ◌, int_laws}
use ha_pronote_ng.Limiter.State.{RateLimiter, RateLimitConfig, Reading, Delay, ticks, forever}
use ha_pronote_ng.Limiter.Calls.{charge, record_requests}
use ha_pronote_ng.Limiter.Effect.{Effect, record_requests-Effect}
use ha_pronote_ng.Limiter.Effect.Methods.{check-Effect, commit_login-Effect, may_login-Effect}
use ha_pronote_ng.Limiter.Admission.{
  Request, call, login, cost_of, Sleeper, Departure, System, decide, commit, depart, settle,
}
use ha_pronote_ng.Limiter.Admission.Waits.{SpacedBy}

-- Of two departures in a row the later one leaves at least `gap` after the other. The latest comes
-- first.
abbrev pub Spaced : ℕ → List Departure → Type 0
Spaced gap [] = Unit
Spaced gap (d ∷ []) = Unit
Spaced gap (d ∷ e ∷ rest) = (e.at + gap ≤ d.at) × Spaced gap (e ∷ rest)

-- The latest departure, if there is one, has left by `at`.
abbrev pub LeftBy : ℤ → List Departure → Type 0
LeftBy at [] = Unit
LeftBy at (d ∷ rest) = pos d.at ≤ℤ at

-- The interval since the latest departure is over at `at`.
abbrev pub Rested : ℕ → ℕ → List Departure → Type 0
Rested gap at [] = Unit
Rested gap at (d ∷ rest) = d.at + gap ≤ at

-- A sleeper wakes when the interval since the latest departure is over.
abbrev pub WakesLate : ℕ → Option Sleeper → List Departure → Type 0
WakesLate gap none sent = Unit
WakesLate gap (some sleeper) sent = (w : ℕ) → sleeper.wake_at ≡ some w → Rested gap w sent

pub record IsSpaced (gap clock : ℕ) (y : System) : Type 0 where
  pub interval : y.limiter.config.min_request_interval ≡ gap
  pub spaced : Spaced gap y.sent
  pub stamped : LeftBy y.limiter.last_call y.sent
  pub past : LeftBy (pos clock) y.sent
  pub wakes : WakesLate gap y.asleep y.sent

pub LeftBy-mono : (a b : ℤ) (sent : List Departure) → a ≤ℤ b → LeftBy a sent → LeftBy b sent
LeftBy-mono a b [] h l = tt
LeftBy-mono a b (d ∷ rest) h l = omega arith

-- A method that has an effect on the limiter only keeps the invariant.
pub Effect-IsSpaced :
    {gap clock : ℕ} {y : System} (t : Reading) (s : RateLimiter)
    → clock ≤ t.clock
    → Effect t y.limiter s
    → IsSpaced gap clock y
    → IsSpaced gap t.clock (record y { limiter = s })
Effect-IsSpaced {gap} {clock} {y} t s le e i = record {
  interval = ap (λ (c : RateLimitConfig). c.min_request_interval) e.config ∙ i.interval;
  spaced = i.spaced;
  stamped = elim e.stamp [
    | inl same ↦ subst (λ (l : ℤ). LeftBy l y.sent) (sym same) i.stamped
    | inr present ↦
        subst (λ (l : ℤ). LeftBy l y.sent) (sym present)
          (LeftBy-mono (pos clock) (pos t.clock) y.sent (omega arith) i.past)
  ];
  past = LeftBy-mono (pos clock) (pos t.clock) y.sent (omega arith) i.past;
  wakes = i.wakes;
}

module _ (t : Reading) (s : RateLimiter) where
  commit-Effect : (q : Request) → Effect t s (commit t q s)
  unfolding commit
  commit-Effect (call tier priority cost) = record_requests-Effect t s tier cost
  commit-Effect (login cost) = commit_login-Effect t s cost

  pub decide-Effect : (q : Request) → Effect t s (decide t q s).0
  unfolding decide
  decide-Effect (call tier priority cost) = check-Effect t s priority cost
  decide-Effect (login cost) = may_login-Effect t s cost

  last_call-commit : (q : Request) → (commit t q s).last_call ≡ pos t.clock
  unfolding commit record_requests commit_login charge
  last_call-commit (call tier priority cost) = refl
  last_call-commit (login cost) = refl

pub Rested-mono :
    {a b : ℕ} (gap : ℕ) (sent : List Departure) → a ≤ b → Rested gap a sent → Rested gap b sent
Rested-mono gap [] h r = tt
Rested-mono gap (d ∷ rest) h r = omega arith

Spaced-cons :
    (gap : ℕ) (d : Departure) (sent : List Departure)
    → Rested gap d.at sent
    → Spaced gap sent
    → Spaced gap (d ∷ sent)
Spaced-cons gap d [] r s = tt
Spaced-cons gap d (e ∷ rest) r s = (r, s)

pub depart-IsSpaced :
    {gap clock : ℕ} {y : System} (t : Reading) (q : Request)
    → clock ≤ t.clock
    → Rested gap t.clock y.sent
    → IsSpaced gap clock y
    → IsSpaced gap t.clock (depart t q y)
unfolding depart
depart-IsSpaced {gap} {clock} {y} t q le r i = record {
  interval =
      ap (λ (c : RateLimitConfig). c.min_request_interval) (commit-Effect t y.limiter q).config
      ∙ i.interval;
  spaced = Spaced-cons gap (record { at = t.clock; cost = cost_of q }) y.sent r i.spaced;
  stamped = rw last_call-commit (omega arith);
  past = omega arith;
  wakes = tt;
}

-- An admitted request sleeps long enough.
pub Rested-of_SpacedBy :
    {gap : ℕ} (at : ℕ) (s : RateLimiter) (sent : List Departure)
    → s.config.min_request_interval ≡ gap
    → LeftBy s.last_call sent
    → SpacedBy s at
    → Rested gap at sent
Rested-of_SpacedBy at s [] c l h = tt
Rested-of_SpacedBy at s (d ∷ rest) c l h = omega int_laws

some_eq : (a b : ℕ) → some a ≡ some b → a ≡ b
some_eq a b h = cc

pub settle-IsSpaced :
    {gap clock : ℕ} {y : System} (t : Reading) (q : Request) (d : Delay)
    → clock ≤ t.clock
    → ((w : ℕ) → d ≡ ticks w → Rested gap (t.clock + w) y.sent)
    → IsSpaced gap clock y
    → IsSpaced gap t.clock (settle t q d y)
unfolding settle
settle-IsSpaced {gap} {clock} {y} t q (ticks zero) le r i =
    depart-IsSpaced t q le (Rested-mono gap y.sent (omega arith) (r 0 refl)) i
settle-IsSpaced {gap} {clock} {y} t q (ticks (suc n)) le r i = record {
  interval = i.interval;
  spaced = i.spaced;
  stamped = i.stamped;
  past = LeftBy-mono (pos clock) (pos t.clock) y.sent (omega arith) i.past;
  wakes = λ w e. Rested-mono gap y.sent (omega (arith, some_eq _ w e)) (r (suc n) refl);
}
settle-IsSpaced {gap} {clock} {y} t q forever le r i = record {
  interval = i.interval;
  spaced = i.spaced;
  stamped = i.stamped;
  past = LeftBy-mono (pos clock) (pos t.clock) y.sent (omega arith) i.past;
  wakes = λ w e. cc;
}
