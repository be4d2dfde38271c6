-- ===== src/Limiter/Admission/Interleaving.antt =====
-- custom_components/carnet_scolaire/ratelimit.py: the spacing of requests, for every interleaving of
-- callers.
use ha_pronote_ng.Prelude.{
  ℕ, ◌+◌, ◌≤◌, ◌≡◌, refl, inl, inr, Option, none, some, List, [], ◌∷◌, arith, leb, leb→le,
  Bool-cases,
}
use ha_pronote_ng.Prelude.Int.{pos}
use ha_pronote_ng.Limiter.State.{RateLimitConfig, Reading, init}
use ha_pronote_ng.Limiter.Quiet.{begin_batch, end_batch}
use ha_pronote_ng.Limiter.Effect.{Effect-refl, Effect-same, reset_after_reauth-Effect}
use ha_pronote_ng.Limiter.Effect.Methods.{
  snapshot_counters-Effect, reconcile-Effect, note_failure-Effect, note_success-Effect,
  note_login-Effect,
}
use ha_pronote_ng.Limiter.Admission.{
  wake_at_time, Request, Sleeper, System, Event, ask, wake, cancelled, succeeded, failed,
  login_ended, reconciled, reauthenticated, batch_begun, batch_ended, observed, decide, enter,
  enter_if_free, wake_if_due, step, run, start, Ordered,
}
use ha_pronote_ng.Limiter.Admission.Waits.{decide-Waits}
use ha_pronote_ng.Limiter.Admission.Spacing.{
  Spaced, Rested, WakesLate, IsSpaced, LeftBy-mono, Effect-IsSpaced, Rested-mono, depart-IsSpaced,
  Rested-of_SpacedBy, settle-IsSpaced, decide-Effect,
}

enter-IsSpaced :
    {gap clock : ℕ} {y : System} (t : Reading) (q : Request)
    → clock ≤ t.clock
    → IsSpaced gap clock y
    → IsSpaced gap t.clock (enter t q y)
unfolding enter
enter-IsSpaced {gap} {clock} {y} t q le i =
    let (s, verdict) = decide t q y.limiter in
    let i' = Effect-IsSpaced t s le (decide-Effect t y.limiter q) i in
    elim (Bool-cases verdict.allowed) [
      | inl admitted ↦ rw admitted (
          settle-IsSpaced t q verdict.wait (omega arith)
            (λ w e.
              Rested-of_SpacedBy (t.clock + w) y.limiter y.sent i.interval i.stamped
                ((decide-Waits t y.limiter q).spaced admitted w e))
            i')
      | inr refused ↦ rw refused i'
    ]

-- Time may pass with nothing done.
idle-IsSpaced :
    {gap clock : ℕ} {y : System} (t : Reading)
    → clock ≤ t.clock
    → IsSpaced gap clock y
    → IsSpaced gap t.clock y
idle-IsSpaced {gap} {clock} {y} t le i = Effect-IsSpaced t y.limiter le (Effect-refl y.limiter) i

wake-IsSpaced :
    {gap clock : ℕ} {y : System} (t : Reading) (sleeper : Sleeper) (at : Option ℕ)
    → clock ≤ t.clock
    → ((w : ℕ) → at ≡ some w → Rested gap w y.sent)
    → IsSpaced gap clock y
    → IsSpaced gap t.clock (wake_at_time t sleeper y at)
unfolding wake_at_time
wake-IsSpaced {gap} {clock} {y} t sleeper none le r i = idle-IsSpaced t le i
wake-IsSpaced {gap} {clock} {y} t sleeper (some at) le r i = elim (Bool-cases (leb at t.clock)) [
  | inl due ↦ rw due (
      depart-IsSpaced t sleeper.request le
        (Rested-mono gap y.sent (leb→le at t.clock due) (r at refl)) i)
  | inr early ↦ rw early (idle-IsSpaced t le i)
]

enter_if_free-IsSpaced :
    {gap clock : ℕ} {y : System} (t : Reading) (q : Request) (o : Option Sleeper)
    → clock ≤ t.clock
    → IsSpaced gap clock y
    → IsSpaced gap t.clock (enter_if_free t q o y)
unfolding enter_if_free
enter_if_free-IsSpaced t q none le i = enter-IsSpaced t q le i
enter_if_free-IsSpaced t q (some sleeper) le i = idle-IsSpaced t le i

wake_if_due-IsSpaced :
    {gap clock : ℕ} {y : System} (t : Reading) (o : Option Sleeper)
    → clock ≤ t.clock
    → WakesLate gap o y.sent
    → IsSpaced gap clock y
    → IsSpaced gap t.clock (wake_if_due t o y)
unfolding wake_if_due
wake_if_due-IsSpaced t none le r i = idle-IsSpaced t le i
wake_if_due-IsSpaced t (some sleeper) le r i = wake-IsSpaced t sleeper sleeper.wake_at le r i

step-IsSpaced :
    {gap clock : ℕ} (t : Reading) (e : Event) (y : System)
    → clock ≤ t.clock
    → IsSpaced gap clock y
    → IsSpaced gap t.clock (step t e y)
unfolding step begin_batch end_batch
step-IsSpaced t (ask q) y le i = enter_if_free-IsSpaced t q y.asleep le i
step-IsSpaced t wake y le i = wake_if_due-IsSpaced t y.asleep le i.wakes i
step-IsSpaced {gap} {clock} t cancelled y le i = record {
  interval = i.interval;
  spaced = i.spaced;
  stamped = i.stamped;
  past = LeftBy-mono (pos clock) (pos t.clock) y.sent (omega arith) i.past;
  wakes = tt;
}
step-IsSpaced t succeeded y le i = Effect-IsSpaced t _ le (note_success-Effect t y.limiter) i
step-IsSpaced t (failed r) y le i = Effect-IsSpaced t _ le (note_failure-Effect t y.limiter r) i
step-IsSpaced t (login_ended o n g r) y le i =
    Effect-IsSpaced t _ le (note_login-Effect t y.limiter o n g r) i
step-IsSpaced t (reconciled tier n m) y le i =
    Effect-IsSpaced t _ le (reconcile-Effect t y.limiter tier n m) i
step-IsSpaced t reauthenticated y le i =
    Effect-IsSpaced t _ le (reset_after_reauth-Effect t y.limiter) i
step-IsSpaced t batch_begun y le i = Effect-IsSpaced t _ le (Effect-same _ refl refl (λ h. h)) i
step-IsSpaced t batch_ended y le i = Effect-IsSpaced t _ le (Effect-same _ refl refl (λ h. h)) i
step-IsSpaced t observed y le i = Effect-IsSpaced t _ le (snapshot_counters-Effect t y.limiter) i

run-IsSpaced :
    {gap clock : ℕ} (schedule : List (Reading × Event)) (y : System)
    → Ordered clock schedule
    → IsSpaced gap clock y
    → Spaced gap (run schedule y).sent
unfolding run
run-IsSpaced [] y o i = i.spaced
run-IsSpaced ((t, e) ∷ rest) y o i = run-IsSpaced rest (step t e y) o.1 (step-IsSpaced t e y o.0 i)

-- Whatever calls and logins are made, however they interleave with one another, with cancellations
-- and with the methods that take no lock: while the monotonic clock does not go back, of any two
-- departures in a row the later one leaves at least `min_request_interval` after the other.
pub Spaced-run :
    (c : RateLimitConfig) (t : Reading) (schedule : List (Reading × Event))
    → Ordered t.clock schedule
    → Spaced c.min_request_interval (run schedule (start c t)).sent
unfolding start init
Spaced-run c t schedule o =
    run-IsSpaced schedule (start c t) o
      (record { interval = refl; spaced = tt; stamped = tt; past = tt; wakes = tt })
